-- ===== src/Relay/Models.antt =====
-- internal/srtrelay/models.go and protocol.go: the data that the daemon and its SRT workers share.
-- Texts are byte strings, times are nanoseconds since Go's zero time, and 0 is that zero time. The
-- fixed sets of texts that only the code itself writes (event types, levels) are data types.
use neo_transcoder.Base.{ℕ, Option, Bool, List, Bytes, ℤ, bytes}

abbrev pub Time : Type 0
Time = ℕ

abbrev pub second : ℕ
second = 1000000000

abbrev pub encryption_aes256 : Bytes
encryption_aes256 = bytes "aes-256"

abbrev pub encryption_none : Bytes
encryption_none = bytes "none"

abbrev pub direction_listener : Bytes
direction_listener = bytes "listener"

abbrev pub direction_publish : Bytes
direction_publish = bytes "publish"

pub record Relay : Type 0 where
  pub id : Bytes
  pub name : Bytes
  pub direction : Bytes
  pub input_url : Bytes
  pub network_interface : Bytes
  pub bind_address : Bytes
  pub port : ℤ
  pub destination_address : Bytes
  pub destination_port : ℤ
  pub stream_id : Bytes
  pub encryption_mode : Bytes
  pub key_version : ℤ
  pub latency_ms : ℤ
  pub payload_size : ℤ
  pub max_clients : ℤ
  pub input_timeout_seconds : ℤ
  pub allow_missing_stream_id : Bool
  pub default_client_id : Bytes
  pub enabled : Bool

-- The texts that the code writes into `RelayState.Status`.
pub data Status : Type 0 where
  stopped starting running degraded stopping restarting flapping error : Status

pub record RelayState : Type 0 where
  pub status : Status
  pub pid : ℕ
  pub active_clients : ℕ
  pub input_bitrate_bps : ℤ
  pub output_bitrate_bps : ℤ
  pub input_packets : ℤ
  pub continuity_errors : ℤ
  pub restart_count : ℕ
  pub is_flapping : Bool
  pub last_error : Bytes
  pub updated_at : Time

pub record Client : Type 0 where
  pub id : Bytes
  pub name : Bytes
  pub enabled : Bool
  pub encryption_mode : Bytes
  pub allowed_relay_ids : List Bytes
  pub allowed_cidrs : List Bytes
  pub max_sessions : ℤ
  pub key_version : ℤ
  pub created_at : Time
  pub updated_at : Time

-- `RTTMilliseconds` is a float that the code only copies; it is left out.
pub record SessionStats : Type 0 where
  pub bytes_sent : ℕ
  pub packets_sent : ℕ
  pub packets_lost : ℕ
  pub packets_retrans : ℕ
  pub packets_dropped : ℕ
  pub bitrate_bps : ℕ
  pub latency_ms : ℤ

pub record Session : Type 0 where
  pub id : Bytes
  pub relay_id : Bytes
  pub client_id : Bytes
  pub remote_ip : Bytes
  pub remote_port : ℕ
  pub stream_id : Bytes
  pub peer_version : Bytes
  pub encrypted : Bool
  pub connected_at : Time
  pub disconnected_at : Option Time
  pub disconnect_reason : Bytes
  pub stats : SessionStats

pub record WorkerClient : Type 0 where
  pub id : Bytes
  pub encryption_mode : Bytes
  pub passphrase : Bytes
  pub allowed_cidrs : List Bytes
  pub max_sessions : ℤ

pub record WorkerConfig : Type 0 where
  pub relay : Relay
  pub publish_passphrase : Bytes
  pub clients : List WorkerClient

-- The texts that a worker writes into `WorkerEvent.Type`.
pub data EventType : Type 0 where
  connection_attempt connection_rejected session_connected session_stats : EventType
  session_disconnected relay_ready relay_metrics relay_error : EventType
  other_event : Bytes → EventType

pub record WorkerEvent : Type 0 where
  pub type : EventType
  pub time : Time
  pub reason : Bytes
  pub session : Option Session
  pub active_clients : ℕ
  pub input_bitrate_bps : ℤ
  pub output_bitrate_bps : ℤ
  pub input_packets : ℤ
  pub continuity_errors : ℤ
