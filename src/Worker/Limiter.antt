-- ===== src/Worker/Limiter.antt =====
-- `allowConnectionAttempt` of internal/srtworker/worker.go: at most 60 connection attempts a minute
-- from one address, with a bounded number of tracked addresses.
pub mod Rate
use neo_transcoder.Base.{
  ℕ, suc, ◌+◌, ◌-◌, ◌*◌, Bool, true, false, not, ◌&&◌, ◌||◌, Option, none, some, List, [], ◌∷◌,
  Bytes, bytes, pos, leb, ltb, leb_ℤ, ◌==◌, nat_eq, bytes_eq, if◌then◌else◌, Table, size, tally,
  lookup, insert, delete, retain, length, take, drop,
}
use neo_transcoder.Relay.Models.{
  Time, second, Session, WorkerConfig, Relay, connection_attempt, session_connected,
  session_disconnected,
}
use neo_transcoder.Worker.{
  Worker, IpNet, ClientAcl, PendingAttempt, AttemptWindow, ClientSession, peer_session, no_stats,
  session_event, emit, emit_rejected, attempt_key, reserved, is_session_of,
}
use neo_transcoder.Worker.StreamId.{
  ClientId, client, refused, StreamIdError, stream_id_required, invalid_client_id,
  client_id_missing, client_id_from_stream_id,
}
use Prim.Native.Nat.{bit_and}

abbrev pub attempts_per_minute : ℕ
attempts_per_minute = 60

abbrev pub max_tracked_ips : ℕ
max_tracked_ips = 10000

-- time.Minute
abbrev pub minute : ℕ
minute = 60 * second

-- now.Sub(window.started) < time.Minute; a time before `started` gives a negative difference.
abbrev pub is_fresh : Time → AttemptWindow → Bool
is_fresh now window = ltb (now - window.started) minute

abbrev pub set_window : Bytes → AttemptWindow → Worker → Worker
set_window ip window w = record w { attempts = insert ip window w.attempts }

-- The first window of an address, or a new one after a minute.
unfoldable pub open_window : Bytes → Time → Worker → Worker × Bool × Bool
open_window ip now w =
    (set_window ip (record { started = now; count = 1; reported = false }) w, true, false)

unfoldable pub count_attempt : Bytes → AttemptWindow → Worker → Worker × Bool × Bool
count_attempt ip window w =
    let window' = record window { count = window.count + 1 } in
    if leb window'.count attempts_per_minute
    then (set_window ip window' w, true, false)
    else (set_window ip (record window' { reported = true }) w, false, not window.reported)

-- The tests of `allowConnectionAttempt` after the lookup. `true` first: the attempt is allowed;
-- second: the refusal is to be reported.
unfoldable pub limit_attempt : Option AttemptWindow → Bytes → Time → Worker → Worker × Bool × Bool
unfolding open_window count_attempt
limit_attempt none ip now w =
    let w' =
      if leb max_tracked_ips (size w.attempts)
      then record w { attempts = retain (is_fresh now) w.attempts }
      else w in
    if leb max_tracked_ips (size w'.attempts) then (w', false, false) else open_window ip now w'
limit_attempt (some window) ip now w =
    if is_fresh now window then count_attempt ip window w else open_window ip now w

unfoldable pub allow_connection_attempt : Bytes → Time → Worker → Worker × Bool × Bool
unfolding limit_attempt
allow_connection_attempt ip now w = limit_attempt (lookup ip w.attempts) ip now w
