-- ===== src/Server/Streams/Removed.antt =====
-- A stream that is deleted is never started again.
use neo_transcoder.Base.{
  ℕ, String, ◌≡◌, refl, sym, ap, ◌∙◌, inl, inr, Bool, true, false, Option, none, some, Bytes, arith,
  Checked, string_eq, eq_iff, lookup, lookup-delete, Option-cases,
}
use neo_transcoder.Ffmpeg.Urls.{Urls}
use neo_transcoder.Streams.Models.{Time}
use neo_transcoder.Streams.Store.{Store, StoreError, get, update_state, delete_stream}
use neo_transcoder.Streams.Jobs.{
  JobManager, StartError, stream_not_found, start, at_rest, active_policy, maybe_restart,
}
use neo_transcoder.Streams.Jobs.Processes.{
  take_job, write_ended, restart_ended, wait, after_backoff,
}
use neo_transcoder.Server.Streams.{stop_and_wait, remove_stream}

lookup-delete_stream :
    (id : String) (saved : Bool) (s : Store) → lookup id (delete_stream id saved s).0.streams ≡ none
unfolding delete_stream
lookup-delete_stream id saved s = elim (Option-cases (lookup id s.streams)) [
  | inl missing ↦ ground (arith, missing)
  | inr (cfg, found) ↦ ground (arith, found, lookup-delete id id s.streams, eq_iff id id)
]

get-missing : (id : String) (s : Store) → lookup id s.streams ≡ none → get id s ≡ none
unfolding get
get-missing id s missing = rw (get, missing) refl

maybe_restart-missing :
    (id : String) (reason : Bytes) (now : Time) (m : JobManager)
    → lookup id m.store.streams ≡ none
    → maybe_restart id reason now m ≡ (m, at_rest)
unfolding maybe_restart active_policy
maybe_restart-missing id reason now m missing =
    rw (maybe_restart, get-missing id m.store missing, active_policy) refl

restart_ended-missing :
    (id : String) (manual : Bool) (exit : Option Bytes) (reason : Bytes) (now : Time)
    (m : JobManager)
    → lookup id m.store.streams ≡ none
    → restart_ended id manual exit reason now m ≡ (m, at_rest)
unfolding restart_ended
restart_ended-missing id manual none reason now m missing = refl
restart_ended-missing id true (some text) reason now m missing = refl
restart_ended-missing id false (some text) reason now m missing =
    maybe_restart-missing id reason now m missing

wait-missing :
    (id : String) (pid : ℕ) (exit : Option Bytes) (now : Time) (m : JobManager)
    → lookup id m.store.streams ≡ none
    → (wait id pid exit now m).1 ≡ at_rest
unfolding wait take_job write_ended update_state
wait-missing id pid exit now m missing =
    ap (λ r. r.1)
      (restart_ended-missing id _ exit _ now (write_ended id _ exit now (take_job id pid m).0).0
        missing)

-- After a stream is deleted, in whatever state it was and however its process ended meanwhile, nothing
-- starts it again: the end of a process that is left is not followed by a restart, a restart that was
-- planned before does nothing, and a request to start it is refused.
pub remove_stream-after_backoff :
    (urls : Urls) (text : StartError → Bytes) (id : String) (ended : Option (Option Bytes))
    (now later : Time) (saved : Bool) (pid : ℕ) (exit : Option Bytes) (process : Checked Bytes ℕ)
    (restarted : Bool) (m m' : JobManager) (result : Checked StoreError Bool)
    → remove_stream id ended now saved m ≡ (m', result)
    → ((wait id pid exit later m').1 ≡ at_rest)
      × (after_backoff urls text id process later m' ≡ (m', at_rest))
      × (start urls id restarted process later m' ≡ (m', some stream_not_found))
unfolding remove_stream after_backoff start
remove_stream-after_backoff urls text id ended now later saved pid exit process restarted m m'
      result h =
    let removed : lookup id m'.store.streams ≡ none =
      ap (λ r. lookup id r.0.store.streams) (sym h)
      ∙ lookup-delete_stream id saved (stop_and_wait id ended now m).store in
    let gone = get-missing id m'.store removed in
    (
      wait-missing id pid exit later m' removed,
      rw (after_backoff, gone) refl,
      rw (start, gone) refl,
    )
