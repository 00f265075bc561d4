-- ===== src/Streams/Models.antt =====
-- The data of internal/streams/store.go. Identifiers are texts that the code only compares; what it
-- walks is a byte string. Times are nanoseconds since Go's zero time, and 0 is that zero time.
use neo_transcoder.Base.{ℕ, ℤ, String, Bool, Option, List, Bytes, Table}

abbrev pub Time : Type 0
Time = ℕ

abbrev pub second : ℕ
second = 1000000000

pub record LogoOverlay : Type 0 where
  pub enabled : Bool
  pub path : String
  pub x : ℤ
  pub y : ℤ

pub record RestartPolicy : Type 0 where
  pub enabled : Bool
  pub max_attempts : ℤ
  pub window_seconds : ℤ
  pub backoff_seconds : ℤ

pub record WatchdogPolicy : Type 0 where
  pub enabled : Bool
  pub progress_timeout_seconds : ℤ
  pub max_memory_bytes : ℤ
  pub memory_grace_seconds : ℤ

pub record Config : Type 0 where
  pub id : String
  pub name : String
  pub input_url : String
  pub output_url : String
  pub source_type : String
  pub profile_name : String
  pub video_map : String
  pub audio_map : String
  pub audio_maps : List String
  pub disable_audio : Bool
  pub logo : LogoOverlay
  pub options : Table String String
  pub log_retention_seconds : ℤ
  pub log_level : String
  pub keep_stats : Bool
  pub enabled : Bool
  pub restart : Option RestartPolicy
  pub watchdog : Option WatchdogPolicy

-- The texts that the code writes into `State.Status`.
pub data Status : Type 0 where
  stopped running stopping error restarting flapping : Status

-- The error codes of errors.go; `no_code` is the empty text.
pub data ErrorCode : Type 0 where
  no_code process_exit input_error output_error bind_error network_error : ErrorCode
  codec_error permission_error watchdog_error unknown_error packet_loss : ErrorCode

-- Of the metrics, the time of their last update; the numbers are only shown.
pub record Metrics : Type 0 where
  pub updated_at : Time

pub record Process : Type 0 where
  pub memory_bytes : ℤ
  pub updated_at : Time

pub record State : Type 0 where
  pub status : Status
  pub pid : ℕ
  pub started_at : Option Time
  pub stopped_at : Option Time
  pub error_code : ErrorCode
  pub last_error : Bytes
  pub restart_count : ℕ
  pub is_flapping : Bool
  pub metrics : Option Metrics
  pub process : Option Process

pub data Level : Type 0 where
  info warn error_level : Level

pub record LogEntry : Type 0 where
  pub stream_id : String
  pub time : Time
  pub level : Level
  pub code : ErrorCode
  pub message : Bytes
