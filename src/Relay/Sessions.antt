-- ===== src/Relay/Sessions.antt =====
-- The sessions of internal/srtrelay/store.go: `pruneSessionsLocked` and `CloseRelaySessions`. The
-- audit events that an operation records after its critical section are its result; their `Details`
-- are left out.
pub mod Closing
use neo_transcoder.Base.{
  ℕ, Bool, true, false, not, ◌&&◌, Option, none, some, List, [], ◌∷◌, Bytes, leb, ltb, ◌==◌, nat_eq,
  bytes_eq, if◌then◌else◌, Table, values, delete, keep, length, drop,
}
use neo_transcoder.Relay.Models.{Time, Session, EventType, session_disconnected}
use neo_transcoder.Relay.Store.{Store}

-- The types of the audit events: a worker's event, what the store records by itself, and what its
-- callers name.
pub data AuditType : Type 0 where
  of_worker : EventType → AuditType
  input_stalled input_restored : AuditType
  named : Bytes → AuditType

pub data AuditLevel : Type 0 where
  info_level warning_level : AuditLevel

pub record AuditEvent : Type 0 where
  pub time : Time
  pub type : AuditType
  pub level : AuditLevel
  pub relay_id : Bytes
  pub client_id : Bytes
  pub session_id : Bytes
  pub remote_ip : Bytes
  pub remote_port : ℕ
  pub stream_id : Bytes
  pub reason : Bytes

abbrev pub max_completed_sessions : ℕ
max_completed_sessions = 1000

-- `session.DisconnectedAt != nil`
abbrev pub is_completed : Session → Bool
is_completed session = elim session.disconnected_at [ none ↦ false | some t ↦ true ]

-- `*session.DisconnectedAt`
ended_at : Session → Time
ended_at session = elim session.disconnected_at [ none ↦ 0 | some t ↦ t ]

put_newest : Session → List Session → List Session
unfolding ended_at
put_newest session [] = session ∷ []
put_newest session (other ∷ others) =
    let rest = put_newest session others in
    if ltb (ended_at session) (ended_at other) then other ∷ rest else session ∷ other ∷ others

-- sort.Slice with the latest end first
unfoldable pub newest_first : List Session → List Session
unfolding put_newest
newest_first [] = []
newest_first (session ∷ more) = put_newest session (newest_first more)

unfoldable pub delete_sessions : List Session → Table Bytes Session → Table Bytes Session
delete_sessions [] sessions = sessions
delete_sessions (session ∷ more) sessions = delete_sessions more (delete session.id sessions)

unfoldable pub prune_sessions : Table Bytes Session → Table Bytes Session
prune_sessions sessions =
    let completed = keep is_completed (values sessions) in
    if leb (length completed) max_completed_sessions
    then sessions
    else delete_sessions (drop max_completed_sessions (newest_first completed)) sessions

-- The sessions that the loop of `CloseRelaySessions` ends.
unfoldable pub is_open_on : Bytes → Session → Bool
is_open_on relay_id session = session.relay_id == relay_id && not (is_completed session)

abbrev pub ended : Bytes → Time → Session → Session
ended reason at session = record session { disconnected_at = some at; disconnect_reason = reason }

-- The loop: the sessions after it, and those that it has closed.
unfoldable pub close_open :
    Bytes → Bytes → Time → Table Bytes Session → Table Bytes Session × List Session
unfolding is_open_on
close_open relay_id reason at [] = ([], [])
close_open relay_id reason at ((id, session) ∷ sessions) =
    let (rest, closed) = close_open relay_id reason at sessions in
    if is_open_on relay_id session
    then ((id, ended reason at session) ∷ rest, ended reason at session ∷ closed)
    else ((id, session) ∷ rest, closed)

unfoldable pub audit_of_closed : Bytes → Bytes → Time → List Session → List AuditEvent
audit_of_closed relay_id reason at [] = []
audit_of_closed relay_id reason at (session ∷ more) =
    record {
      time = at;
      type = of_worker session_disconnected;
      level = warning_level;
      relay_id = relay_id;
      client_id = session.client_id;
      session_id = session.id;
      remote_ip = session.remote_ip;
      remote_port = session.remote_port;
      stream_id = session.stream_id;
      reason = reason;
    }
    ∷ audit_of_closed relay_id reason at more

-- `clock` is what time.Now returns, where the caller gives no time.
unfoldable pub close_relay_sessions : Bytes → Bytes → Time → Time → Store → Store × List AuditEvent
unfolding close_open audit_of_closed
close_relay_sessions relay_id reason given clock s =
    let at = if given == 0 then clock else given in
    let (sessions, closed) = close_open relay_id reason at s.sessions in
    (record s { sessions = prune_sessions sessions }, audit_of_closed relay_id reason at closed)
