-- ===== src/Streams/Jobs.antt =====
-- internal/streams/jobs.go: the streams' ffmpeg processes and their restarts. A process is its PID; the
-- end of a process, a timer and a request are calls of the environment. What the operating system answers
-- is an argument: the PID of a started process, or the error's text.
pub mod Processes
pub mod Restarts
pub mod Lifecycle
pub mod Goroutines
pub mod Stopping
use neo_transcoder.Base.{
  ℕ, ◌+◌, ℤ, pos, String, Bool, true, false, not, ◌&&◌, ◌||◌, Option, none, some, List, [], ◌∷◌,
  Bytes, bytes, map, leb_ℤ, ltb_ℤ, is_longer, ◌==◌, nat_eq, string_eq, bytes_eq, if◌then◌else◌,
  Table, lookup, insert, delete, Checked, ok, err,
}
use neo_transcoder.Ffmpeg.Models as F
use neo_transcoder.Ffmpeg.Models.{SystemConfig, with_log_level}
use neo_transcoder.Ffmpeg.Urls.{Urls}
use neo_transcoder.Ffmpeg.Args.{ArgsError, build_args}
use neo_transcoder.Streams.Models.{
  Time, Config, RestartPolicy, State, Metrics, LogEntry, ErrorCode, no_code, process_exit, error,
  running, stopping, stopped, restarting, flapping, error_level,
}
use neo_transcoder.Streams.Lines.{classify_error, log_of_line, is_escalated}
use neo_transcoder.Streams.Store.{Store, View, get, update_state, append_log_code, state_of}

pub record Job : Type 0 where
  pub pid : ℕ
  pub stopping : Bool

pub record RestartTracker : Type 0 where
  pub first_failure : Time
  pub attempts : ℕ

pub record JobManager : Type 0 where
  pub store : Store
  pub jobs : Table String Job
  pub restarts : Table String RestartTracker
  pub sys : SystemConfig

pub data StartError : Type 0 where
  stream_not_found profile_not_found already_running : StartError
  bad_args : ArgsError → StartError
  not_started : Bytes → StartError

options_of : Table String String → Table Bytes Bytes
options_of [] = []
options_of ((name, value) ∷ options) = (bytes name, bytes value) ∷ options_of options

-- The `ffmpeg.Stream` of a configuration. A text's bytes are its code points, which are Go's bytes where
-- the text is ASCII.
unfoldable pub stream_of : Config → F.Stream
unfolding options_of
stream_of cfg = record {
  input_url = bytes cfg.input_url;
  output_url = bytes cfg.output_url;
  source_type = bytes cfg.source_type;
  video_map = bytes cfg.video_map;
  audio_map = bytes cfg.audio_map;
  audio_maps = map bytes cfg.audio_maps;
  disable_audio = cfg.disable_audio;
  logo = record {
    enabled = cfg.logo.enabled;
    path = bytes cfg.logo.path;
    x = cfg.logo.x;
    y = cfg.logo.y;
  };
  options = options_of cfg.options;
  keep_stats = cfg.keep_stats;
}

-- `m.store.UpdateState(id, …)`
abbrev pub with_state : String → (State → State) → JobManager → JobManager
with_state id update m = record m { store = update_state id update m.store }

unfoldable pub not_started_state : Bytes → State → State
not_started_state text state = record state {
  status = error;
  error_code = classify_error text;
  last_error = text;
}

unfoldable pub running_state : ℕ → Bool → Time → State → State
running_state pid restarted now state = record state {
  status = running;
  pid = pid;
  started_at = some now;
  stopped_at = none;
  last_error = [];
  error_code = no_code;
  is_flapping = false;
  metrics = none;
  process = none;
  restart_count = if restarted then state.restart_count + 1 else state.restart_count;
}

-- `start` from the lock on.
unfoldable pub launch :
    String → Bool → Checked Bytes ℕ → Time → JobManager → JobManager × Option StartError
launch id restarted process now m = elim (lookup id m.jobs) [
  | some job ↦ (m, some already_running)
  | none ↦ elim process [
    | err text ↦ (with_state id (not_started_state text) m, some (not_started text))
    | ok pid ↦ (
      with_state id (running_state pid restarted now) (record m {
        jobs = insert id (record { pid = pid; stopping = false }) m.jobs;
        restarts = if restarted then m.restarts else delete id m.restarts;
      }),
      none,
    )
  ]
]

unfoldable pub start :
    Urls → String → Bool → Checked Bytes ℕ → Time → JobManager → JobManager × Option StartError
start urls id restarted process now m = elim (get id m.store) [
  | none ↦ (m, some stream_not_found)
  | some view ↦ elim (lookup (bytes view.config.profile_name) m.store.profiles) [
    | none ↦ (m, some profile_not_found)
    | some profile ↦
        elim (build_args urls (stream_of view.config) profile
          (with_log_level m.sys (bytes view.config.log_level))) [
            | err e ↦ (m, some (bad_args e))
            | ok args ↦ launch id restarted process now m
          ]
  ]
]

-- Stop under the manager's lock: whether there is a process.
unfoldable pub mark_stopping : String → JobManager → JobManager × Bool
mark_stopping id m = elim (lookup id m.jobs) [
  | none ↦ (m, false)
  | some job ↦ (
    record m {
      jobs = insert id (record job { stopping = true }) m.jobs;
      restarts = delete id m.restarts;
    },
    true,
  )
]

unfoldable pub stopping_state : Time → State → State
stopping_state now state = record state { status = stopping; stopped_at = some now }

-- Stop's write into the store, without the manager's lock: other goroutines can run before it.
unfoldable pub write_stopping : String → Time → JobManager → JobManager
write_stopping id now m = with_state id (stopping_state now) m

-- Stop, up to its wait for the end of the process, where no other goroutine runs between its two steps.
unfoldable pub stop : String → Time → JobManager → JobManager × Bool
stop id now m =
    let (m', is_running) = mark_stopping id m in
    if is_running then (write_stopping id now m', true) else (m', false)

-- What follows a failure: nothing, or a restart after so many seconds.
pub data Next : Type 0 where
  at_rest : Next
  restart_after : ℤ → Next

-- `m.restarts[id]`
unfoldable pub tracker_of : String → JobManager → RestartTracker
tracker_of id m = elim (lookup id m.restarts) [
  | none ↦ record { first_failure = 0; attempts = 0 }
  | some tracker ↦ tracker
]

-- The tracker with a failure more.
unfoldable pub count_failure : RestartPolicy → Time → RestartTracker → RestartTracker
count_failure policy now old =
    if old.first_failure == 0 || is_longer policy.window_seconds old.first_failure now
    then record { first_failure = now; attempts = 1 }
    else record old { attempts = old.attempts + 1 }

unfoldable pub flapping_state : Bytes → State → State
flapping_state reason state = record state {
  status = flapping;
  is_flapping = true;
  error_code = process_exit;
  last_error = reason;
}

unfoldable pub restarting_state : Bytes → State → State
restarting_state reason state = record state {
  status = restarting;
  error_code = process_exit;
  last_error = reason;
}

abbrev log_error : String → ErrorCode → Bytes → Time → JobManager → JobManager
log_error id code message now m = record m {
  store =
      append_log_code
        (record { stream_id = id; time = now; level = error_level; code = code; message = message })
        m.store;
}

-- maybeRestart under a policy that is enabled.
unfoldable pub limit_restarts :
    String → Bytes → RestartPolicy → Time → JobManager → JobManager × Next
limit_restarts id reason policy now m =
    let tracker = count_failure policy now (tracker_of id m) in
    let m' = record m { restarts = insert id tracker m.restarts } in
    if ltb_ℤ policy.max_attempts (pos tracker.attempts)
    then (
      log_error id process_exit (bytes "restart limit reached; stream marked as flapping") now
          (with_state id (flapping_state reason) m'),
      at_rest,
    )
    else (with_state id (restarting_state reason) m', restart_after policy.backoff_seconds)

-- The policy that `maybeRestart` goes by, none where it returns at once.
unfoldable pub active_policy : Option View → Option RestartPolicy
active_policy none = none
active_policy (some view) = elim view.config.restart [
  | none ↦ none
  | some policy ↦ if view.config.enabled && policy.enabled then some policy else none
]

unfoldable pub maybe_restart : String → Bytes → Time → JobManager → JobManager × Next
maybe_restart id reason now m = elim (active_policy (get id m.store)) [
  | none ↦ (m, at_rest)
  | some policy ↦ limit_restarts id reason policy now m
]
