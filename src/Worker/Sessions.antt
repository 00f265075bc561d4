-- ===== src/Worker/Sessions.antt =====
-- The life of a session in internal/srtworker/worker.go: expiry of a pending handshake, the accept
-- loop's body, `close`, and the clearing at the end of `Run`.
use neo_transcoder.Base.{
  ℕ, ◌-◌, Bool, false, Option, none, some, List, [], ◌∷◌, Bytes, bytes, nat_eq, bytes_eq, lookup,
  insert, delete,
}
use neo_transcoder.Relay.Models.{Time, session_connected, session_disconnected}
use neo_transcoder.Worker.{
  Worker, PendingAttempt, ClientSession, peer_session, no_stats, session_event, emit, emit_rejected,
  attempt_key, reserved,
}

-- `delete(w.pending, key); w.reservations[attempt.clientID]--`. The subtraction stops at 0; that
-- each pending attempt holds a reservation is part of the invariant of Worker/Bounds.
unfoldable pub release_attempt : Bytes → Option PendingAttempt → Worker → Worker
release_attempt key none w = w
release_attempt key (some attempt) w = record w {
  pending = delete key w.pending;
  reservations = insert attempt.client_id (reserved attempt.client_id w - 1) w.reservations;
}

-- The part of `expireAttempt` and of the accept loop that takes an attempt out under `w.mu`.
unfoldable pub release : Bytes → Worker → Worker
unfolding release_attempt
release key w = release_attempt key (lookup key w.pending) w

unfoldable pub report_expired : Option PendingAttempt → Time → Worker → Worker
report_expired none now w = w
report_expired (some attempt) now w =
    emit_rejected
      (peer_session attempt.client_id attempt.remote_ip attempt.remote_port attempt.stream_id)
      (bytes "SRT handshake did not complete: encryption mismatch or timeout") now w

unfoldable pub expire_attempt : Bytes → Time → Worker → Worker
unfolding report_expired
expire_attempt key now w = report_expired (lookup key w.pending) now (release key w)

-- What nativeAccept returns of a connection.
pub record Accepted : Type 0 where
  pub remote_ip : Bytes
  pub remote_port : ℕ
  pub stream_id : Bytes
  pub peer_version : Bytes
  pub encrypted : Bool

unfoldable pub new_session : Accepted → Bytes → Bytes → Bytes → Time → ClientSession
new_session conn relay_id client_id session_id now = record {
  info = record {
    id = session_id;
    relay_id = relay_id;
    client_id = client_id;
    remote_ip = conn.remote_ip;
    remote_port = conn.remote_port;
    stream_id = conn.stream_id;
    peer_version = conn.peer_version;
    encrypted = conn.encrypted;
    connected_at = now;
    disconnected_at = none;
    disconnect_reason = [];
    stats = no_stats;
  };
  queue = [];
  done = false;
  drop_burst = 0;
  app_drops = 0;
}

unfoldable pub open_session : Accepted → PendingAttempt → Bytes → Time → Worker → Worker
unfolding new_session
open_session conn attempt session_id now w =
    let session = new_session conn w.config.relay.id attempt.client_id session_id now in
    record w { sessions = insert session_id session w.sessions }

-- The accept loop's critical section; `session_id` is what randomSessionID returns, none its error.
unfoldable pub take_session :
    Accepted → Option PendingAttempt → Option Bytes → Time → Worker → Worker
unfolding open_session
take_session conn none session_id now w = w
take_session conn (some attempt) none now w = w
take_session conn (some attempt) (some session_id) now w =
    open_session conn attempt session_id now w

unfoldable pub accept_session : Accepted → Option Bytes → Time → Worker → Worker
unfolding take_session
accept_session conn session_id now w =
    let key = attempt_key conn.remote_ip conn.remote_port conn.stream_id in
    take_session conn (lookup key w.pending) session_id now (release key w)

unfoldable pub report_accept :
    Accepted → Option PendingAttempt → Option Bytes → Time → Worker → Worker
unfolding new_session
report_accept conn none session_id now w =
    emit_rejected (peer_session [] conn.remote_ip conn.remote_port conn.stream_id)
      (bytes "SRT accept had no authorized pending handshake") now w
report_accept conn (some attempt) none now w = w
report_accept conn (some attempt) (some session_id) now w =
    let session = new_session conn w.config.relay.id attempt.client_id session_id now in
    (emit (session_event session_connected now [] session.info) w).0

-- The body of the accept loop for one connection.
unfoldable pub accept : Accepted → Option Bytes → Time → Worker → Worker
unfolding report_accept
accept conn session_id now w =
    let key = attempt_key conn.remote_ip conn.remote_port conn.stream_id in
    report_accept conn (lookup key w.pending) session_id now (accept_session conn session_id now w)

unfoldable pub report_closed : Option ClientSession → Bytes → Time → Worker → Worker
report_closed none reason now w = w
report_closed (some s) reason now w =
    (emit
      (session_event session_disconnected now reason
        (record s.info { disconnected_at = some now; disconnect_reason = reason }))
      w).0

-- The part of `close` under `w.mu`.
unfoldable pub drop_session : Bytes → Worker → Worker
drop_session session_id w = record w { sessions = delete session_id w.sessions }

-- `close` runs once for a session (`closeOnce`): a session that has left the table is closed.
unfoldable pub close_session : Bytes → Bytes → Time → Worker → Worker
unfolding report_closed
close_session session_id reason now w =
    report_closed (lookup session_id w.sessions) reason now (drop_session session_id w)

-- `closeAllSessions`, over the session IDs of its snapshot
unfoldable pub close_all : List Bytes → Bytes → Time → Worker → Worker
close_all [] reason now w = w
close_all (id ∷ ids) reason now w = close_all ids reason now (close_session id reason now w)

-- The end of `Run`: `clear(w.pending); clear(w.reservations)`
unfoldable pub clear_attempts : Worker → Worker
clear_attempts w = record w { pending = []; reservations = [] }
