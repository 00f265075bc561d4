-- ===== src/Relay/Events.antt =====
-- What a worker's events do to the store: `ApplyWorkerEvent`, `auditFromWorkerEvent` and `UpdateState`
pub mod Transitions
-- of internal/srtrelay/store.go.
use neo_transcoder.Base.{
  ℕ, pos, Bool, true, false, not, ◌&&◌, ◌||◌, Option, none, some, List, [], ◌∷◌, ◌++◌, Bytes, ◌==◌,
  nat_eq, bytes_eq, if◌then◌else◌, Table, lookup, insert,
}
use neo_transcoder.Relay.Models.{
  Time, Relay, RelayState, Status, stopped, starting, running, degraded, stopping, restarting,
  flapping, error, Session, SessionStats, EventType, WorkerEvent, connection_attempt,
  connection_rejected, session_connected, session_stats, session_disconnected, relay_ready,
  relay_metrics, relay_error, other_event,
}
use neo_transcoder.Relay.Store.{Store, state_of}
use neo_transcoder.Relay.Sessions.{
  AuditEvent, AuditType, of_worker, input_stalled, input_restored, AuditLevel, info_level,
  warning_level, prune_sessions,
}

-- UpdateState
unfoldable pub update_state : Bytes → Time → (RelayState → RelayState) → Store → Store
update_state id now update s = record s {
  states = insert id (record (update (state_of id now s)) { updated_at = now }) s.states;
}

-- Go's `Session{}`
abbrev pub no_session : Session
no_session = record {
  id = [];
  relay_id = [];
  client_id = [];
  remote_ip = [];
  remote_port = 0;
  stream_id = [];
  peer_version = [];
  encrypted = false;
  connected_at = 0;
  disconnected_at = none;
  disconnect_reason = [];
  stats = record {
    bytes_sent = 0;
    packets_sent = 0;
    packets_lost = 0;
    packets_retrans = 0;
    packets_dropped = 0;
    bitrate_bps = 0;
    latency_ms = pos 0;
  };
}

unfoldable pub session_of : Option Session → Session
session_of none = no_session
session_of (some session) = session

unfoldable pub is_degraded : Status → Bool
is_degraded degraded = true
is_degraded _ = false

-- What `inputTransition` names.
pub data Transition : Type 0 where
  no_transition stalled restored : Transition

-- The case "relay_metrics"
unfoldable pub apply_metrics : WorkerEvent → Time → RelayState → RelayState × Transition
unfolding is_degraded
apply_metrics event now old =
    let state = record old {
      active_clients = event.active_clients;
      input_bitrate_bps = event.input_bitrate_bps;
      output_bitrate_bps = event.output_bitrate_bps;
      input_packets = event.input_packets;
      continuity_errors = event.continuity_errors;
      updated_at = now;
    } in
    if not (event.reason == []) && not (is_degraded old.status)
    then (record state { status = degraded; last_error = event.reason }, stalled)
    else if event.reason == [] && is_degraded old.status
    then (record state { status = running; last_error = [] }, restored)
    else (state, no_transition)

unfoldable pub put_session : Option Session → Table Bytes Session → Table Bytes Session
put_session none sessions = sessions
put_session (some session) sessions = insert session.id session sessions

-- The case "session_stats"
unfoldable pub put_stats : Session → Table Bytes Session → Table Bytes Session
put_stats session sessions = elim (lookup session.id sessions) [
  | none ↦ sessions
  | some current ↦ insert session.id (record current { stats = session.stats }) sessions
]

-- The switch over `event.Type`.
unfoldable pub apply_type : EventType → Bytes → WorkerEvent → Time → Store → Store × Transition
unfolding put_session put_stats session_of
apply_type relay_ready id event now s =
    let state = record (state_of id now s) {
      status = running;
      last_error = [];
      updated_at = now;
    } in
    (record s { states = insert id state s.states }, no_transition)
apply_type relay_metrics id event now s =
    let (state, transition) = apply_metrics event now (state_of id now s) in
    (record s { states = insert id state s.states }, transition)
apply_type session_connected id event now s =
    (record s { sessions = put_session event.session s.sessions }, no_transition)
apply_type session_stats id event now s =
    (record s { sessions = put_stats (session_of event.session) s.sessions }, no_transition)
apply_type session_disconnected id event now s =
    (record s { sessions = prune_sessions (put_session event.session s.sessions) }, no_transition)
apply_type relay_error id event now s =
    let state = record (state_of id now s) {
      status = error;
      last_error = event.reason;
      updated_at = now;
    } in
    (record s { states = insert id state s.states }, no_transition)
apply_type _ id event now s = (s, no_transition)

-- The types of which `auditFromWorkerEvent` makes an audit event, with its level.
unfoldable pub audit_level : EventType → Option AuditLevel
audit_level connection_attempt = some info_level
audit_level connection_rejected = some warning_level
audit_level session_connected = some info_level
audit_level session_disconnected = some info_level
audit_level relay_error = some warning_level
audit_level _ = none

unfoldable pub audit_of_event : Bytes → WorkerEvent → Time → List AuditEvent
unfolding audit_level session_of
audit_of_event relay_id event now = elim (audit_level event.type) [
  | none ↦ []
  | some level ↦
      let session = session_of event.session in
      record {
        time = now;
        type = of_worker event.type;
        level = level;
        relay_id = relay_id;
        client_id = session.client_id;
        session_id = session.id;
        remote_ip = session.remote_ip;
        remote_port = session.remote_port;
        stream_id = session.stream_id;
        reason = event.reason;
      }
      ∷ []
]

abbrev audit_transition : AuditType → AuditLevel → Bytes → Bytes → Time → AuditEvent
audit_transition type level relay_id reason now = record {
  time = now;
  type = type;
  level = level;
  relay_id = relay_id;
  client_id = [];
  session_id = [];
  remote_ip = [];
  remote_port = 0;
  stream_id = [];
  reason = reason;
}

unfoldable pub audit_of_transition : Transition → Bytes → Bytes → Time → List AuditEvent
audit_of_transition no_transition relay_id reason now = []
audit_of_transition stalled relay_id reason now =
    audit_transition input_stalled warning_level relay_id reason now ∷ []
audit_of_transition restored relay_id reason now =
    audit_transition input_restored info_level relay_id reason now ∷ []

-- ApplyWorkerEvent; `clock` is what time.Now returns, where the event has no time.
unfoldable pub apply_worker_event : Bytes → WorkerEvent → Time → Store → Store × List AuditEvent
unfolding apply_type audit_of_event audit_of_transition
apply_worker_event relay_id event clock s =
    let now = if event.time == 0 then clock else event.time in
    let (s', transition) = apply_type event.type relay_id event now s in
    (
      s',
      audit_of_event relay_id event now ++ audit_of_transition transition relay_id event.reason now,
    )
