-- ===== src/Worker.antt =====
-- internal/srtworker: the process that serves one SRT relay. This file has its state and the texts
-- and tables that the parts below share (worker.go).
pub mod StreamId
pub mod Continuity
pub mod Limiter
pub mod Acl
pub mod Admission
pub mod Sessions
pub mod Bounds
pub mod Broadcast
pub mod Start
pub mod Interleaving
pub mod Handlers
pub mod Grants
pub mod Access
use neo_transcoder.Base.{
  ℕ, ◌+◌, ◌-◌, Bool, true, false, ◌||◌, none, some, List, [], ◌∷◌, ◌++◌, Bytes, ltb, ◌==◌, bytes_eq,
  Table, lookup, if◌then◌else◌, itoa, any, nat_eq, pos,
}
use neo_transcoder.Relay.Models.{
  Time, Session, SessionStats, WorkerClient, WorkerConfig, WorkerEvent, EventType,
  session_connected, session_disconnected, connection_rejected, relay_error,
}

abbrev pub session_queue_size : ℕ
session_queue_size = 512

abbrev pub max_queue_drop_burst : ℕ
max_queue_drop_burst = 256

-- The capacity of the channel `events`.
abbrev pub events_capacity : ℕ
events_capacity = 1024

-- net.IPNet
pub record IpNet : Type 0 where
  pub ip : Bytes
  pub mask : Bytes

pub record ClientAcl : Type 0 where
  pub config : WorkerClient
  pub networks : List IpNet

pub record PendingAttempt : Type 0 where
  pub client_id : Bytes
  pub remote_ip : Bytes
  pub remote_port : ℕ
  pub stream_id : Bytes

pub record AttemptWindow : Type 0 where
  pub started : Time
  pub count : ℕ
  pub reported : Bool

-- `done` is closed once; after that the session is no longer in the worker's table.
pub record ClientSession : Type 0 where
  pub info : Session
  pub queue : List Bytes
  pub done : Bool
  pub drop_burst : ℕ
  pub app_drops : ℕ

-- `queued` is how many events wait in the channel; `sent` is every event that went into it.
pub record Worker : Type 0 where
  pub config : WorkerConfig
  pub clients : Table Bytes ClientAcl
  pub sessions : Table Bytes ClientSession
  pub pending : Table Bytes PendingAttempt
  pub reservations : Table Bytes ℕ
  pub attempts : Table Bytes AttemptWindow
  pub queued : ℕ
  pub sent : List WorkerEvent
  pub is_stopping : Bool

-- The zero values of the Go structs.
abbrev pub no_stats : SessionStats
no_stats = record {
  bytes_sent = 0;
  packets_sent = 0;
  packets_lost = 0;
  packets_retrans = 0;
  packets_dropped = 0;
  bitrate_bps = 0;
  latency_ms = pos 0;
}

-- srtrelay.Session{ClientID: …, RemoteIP: …, RemotePort: …, StreamID: …}
abbrev pub peer_session : Bytes → Bytes → ℕ → Bytes → Session
peer_session client_id ip port stream_id = record {
  id = [];
  relay_id = [];
  client_id = client_id;
  remote_ip = ip;
  remote_port = port;
  stream_id = stream_id;
  peer_version = [];
  encrypted = false;
  connected_at = 0;
  disconnected_at = none;
  disconnect_reason = [];
  stats = no_stats;
}

abbrev pub session_event : EventType → Time → Bytes → Session → WorkerEvent
session_event type now reason session = record {
  type = type;
  time = now;
  reason = reason;
  session = some session;
  active_clients = 0;
  input_bitrate_bps = pos 0;
  output_bitrate_bps = pos 0;
  input_packets = pos 0;
  continuity_errors = pos 0;
}

-- The events for which `emit` waits when the channel is full.
unfoldable pub is_lifecycle : EventType → Bool
is_lifecycle session_connected = true
is_lifecycle session_disconnected = true
is_lifecycle connection_rejected = true
is_lifecycle relay_error = true
is_lifecycle _ = false

-- A blocking send on a full channel goes through once the reader has taken one event, which leaves
-- the channel as full as before.
unfoldable pub emit : WorkerEvent → Worker → Worker × Bool
unfolding is_lifecycle
emit event w =
    if ltb w.queued events_capacity
    then (record w { queued = w.queued + 1; sent = w.sent ++ event ∷ [] }, true)
    else if is_lifecycle event.type
    then (record w { sent = w.sent ++ event ∷ [] }, true)
    else (w, false)

-- The loop of `writeEvents` takes one event out of the channel.
unfoldable pub write_event : Worker → Worker
write_event w = record w { queued = w.queued - 1 }

unfoldable pub emit_rejected : Session → Bytes → Time → Worker → Worker
unfolding emit
emit_rejected session reason now w =
    (emit (session_event connection_rejected now reason session) w).0

-- net.JoinHostPort(ip, port) + "\x00" + streamID
unfoldable pub attempt_key : Bytes → ℕ → Bytes → Bytes
attempt_key ip port stream_id =
    let host =
      if any (λ c. c == b':') ip || any (λ c. c == b'%') ip then b'[' ∷ (ip ++ b']' ∷ []) else ip in
    host ++ b':' ∷ (itoa port ++ 0 ∷ stream_id)

-- `w.reservations[clientID]`, which is 0 for a missing key
unfoldable pub reserved : Bytes → Worker → ℕ
reserved client_id w = elim (lookup client_id w.reservations) [ none ↦ 0 | some n ↦ n ]

abbrev pub is_session_of : Bytes → ClientSession → Bool
is_session_of client_id s = s.info.client_id == client_id

abbrev pub is_attempt_of : Bytes → PendingAttempt → Bool
is_attempt_of client_id a = a.client_id == client_id
