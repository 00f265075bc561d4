-- ===== src/Worker/Broadcast/Queues.antt =====
-- The queues of the sessions under `broadcast`, and the split of the input into payloads.
use neo_transcoder.Base.{
  ℕ, ◌+◌, ◌≡◌, refl, false, ◌&&◌, List, [], ◌∷◌, Bytes, arith, leb, ltb, nat_eq, length, one_if,
}
use neo_transcoder.Worker.{ClientSession, session_queue_size, max_queue_drop_burst}
use neo_transcoder.Worker.Broadcast.{offer}

-- The packets offered one after another, with none sent between them: the session at the end, and how
-- often its `close` was started.
pub offer_run : List Bytes → ClientSession → ClientSession × ℕ
offer_run [] s = (s, 0)
offer_run (p ∷ ps) s =
    let (s', full) = offer p s in
    let (final, closes) = offer_run ps s' in (final, one_if full + closes)

-- An open session whose queue holds 512 packets, from which none is taken: it keeps its queue and
-- counts every packet that is offered as dropped; its `close` is started exactly once if the burst of
-- drops was below 256 and reaches 256 on the way, and otherwise never.
pub full_run :
    (ps : List Bytes) (s : ClientSession)
    → s.done ≡ false
    → length s.queue ≡ session_queue_size
    → ((offer_run ps s).0.queue ≡ s.queue)
      × ((offer_run ps s).0.app_drops ≡ s.app_drops + length ps)
      × ((offer_run ps s).0.drop_burst ≡ s.drop_burst + length ps)
      × ((offer_run ps s).1
          ≡ one_if (
              ltb s.drop_burst max_queue_drop_burst
              && leb max_queue_drop_burst (s.drop_burst + length ps)))
unfolding offer_run offer
full_run [] s open' full = (refl, omega arith, omega arith, ground arith)
full_run (p ∷ ps) s open' full = ground (
  arith,
  full_run ps (record s { app_drops = s.app_drops + 1; drop_burst = s.drop_burst + 1 }) open' full,
)
