-- ===== src/Streams/Jobs/Processes.antt =====
-- The goroutines of a stream's process in internal/streams/jobs.go: `wait`, the restart after the
-- backoff, the lines of the process, and the ticks of its monitor.
use neo_transcoder.Base.{
  ℕ, ℤ, String, Bool, true, false, not, Option, none, some, [], ◌++◌, Bytes, bytes, ◌==◌, nat_eq,
  string_eq, bytes_eq, if◌then◌else◌, Table, lookup, insert, delete, Checked, cut,
}
use neo_transcoder.Ffmpeg.Urls.{Urls}
use neo_transcoder.Streams.Models.{
  Time, WatchdogPolicy, State, Level, ErrorCode, no_code, process_exit, packet_loss, watchdog_error,
  error, stopped, error_level,
}
use neo_transcoder.Streams.Config.{default_watchdog_policy}
use neo_transcoder.Streams.Lines.{classify_error, log_of_line, is_escalated}
use neo_transcoder.Streams.Watchdog.{Reason, no_reason, Decision, watchdog_action}
use neo_transcoder.Streams.Store.{get, append_log_code, state_of}
use neo_transcoder.Streams.Jobs.{
  Job, JobManager, StartError, with_state, start, Next, at_rest, maybe_restart,
}

is_no_code : ErrorCode → Bool
is_no_code no_code = true
is_no_code _ = false

-- The state once the process has ended; `exit` is the error's text, none for a process that ended well.
unfoldable pub ended_state : Bool → Option Bytes → Time → State → State
unfolding is_no_code
ended_state manual none now state = record state {
  status = stopped;
  pid = 0;
  stopped_at = some now;
  error_code = no_code;
  last_error = [];
  process = none;
}
ended_state manual (some text) now state =
    if manual
    then record state {
      status = stopped;
      pid = 0;
      stopped_at = some now;
      error_code = no_code;
      last_error = [];
      process = none;
    }
    else record state {
      status = error;
      pid = 0;
      stopped_at = some now;
      error_code = if is_no_code state.error_code then process_exit else state.error_code;
      last_error = if state.last_error == [] then text else state.last_error;
      process = none;
    }

-- `current != nil && current.stopping`
unfoldable pub is_manual : Option Job → Bool
is_manual none = false
is_manual (some job) = job.stopping

-- The jobs without the process that has ended.
unfoldable pub without_job : String → ℕ → Table String Job → Table String Job
without_job id pid jobs = elim (lookup id jobs) [
  | none ↦ jobs
  | some job ↦ if job.pid == pid then delete id jobs else jobs
]

-- wait under the manager's lock, with `manualStop`: nothing marks a job that is no longer in the table.
unfoldable pub take_job : String → ℕ → JobManager → JobManager × Bool
take_job id pid m = (record m { jobs = without_job id pid m.jobs }, is_manual (lookup id m.jobs))

-- wait's write into the store, and `next.LastError`.
unfoldable pub write_ended : String → Bool → Option Bytes → Time → JobManager → JobManager × Bytes
write_ended id manual exit now m =
    let m' = with_state id (ended_state manual exit now) m in
    (m', (state_of id m'.store).last_error)

-- The end of wait: `reason` is `next.LastError`.
unfoldable pub restart_ended :
    String → Bool → Option Bytes → Bytes → Time → JobManager → JobManager × Next
restart_ended id manual none reason now m = (m, at_rest)
restart_ended id manual (some text) reason now m =
    if manual then (m, at_rest) else maybe_restart id reason now m

-- wait, where no other goroutine runs between its steps.
unfoldable pub wait : String → ℕ → Option Bytes → Time → JobManager → JobManager × Next
wait id pid exit now m =
    let (m1, manual) = take_job id pid m in
    let (m2, reason) = write_ended id manual exit now m1 in
    restart_ended id manual exit reason now m2

abbrev log_line : String → Level → ErrorCode → Bytes → Time → JobManager → JobManager
log_line id level code message now m = record m {
  store =
      append_log_code
        (record { stream_id = id; time = now; level = level; code = code; message = message })
        m.store;
}

-- The goroutine of `maybeRestart` after the backoff; `text` formats an error.
unfoldable pub after_backoff :
    Urls → (StartError → Bytes) → String → Checked Bytes ℕ → Time → JobManager → JobManager × Next
after_backoff urls text id process now m = elim (get id m.store) [
  | none ↦ (m, at_rest)
  | some view ↦
      let (m', failure) = start urls id true process now m in
      if not view.config.enabled then (m, at_rest) else elim failure [
        | none ↦ (m', at_rest)
        | some e ↦ maybe_restart id (text e) now (
            log_line id error_level (classify_error (text e)) (bytes "restart failed: " ++ text e)
              now m')
      ]
]

-- Whether a code of `captureStderr` is written into the state.
unfoldable pub sets_error : ErrorCode → Bool
sets_error packet_loss = false
sets_error code = is_escalated code

-- captureStderr, for one line.
unfoldable pub capture_line : String → Bytes → Time → JobManager → JobManager
capture_line id line now m = elim (log_of_line line) [
  | none ↦ m
  | some (level, code, message) ↦ log_line id level code message now (
      if sets_error code
      then with_state id (λ state. record state { error_code = code; last_error = message }) m
      else m)
]

-- captureProgress, for one line and the fields so far.
unfoldable pub capture_progress :
    String → Bytes → Time → Table Bytes Bytes → JobManager → JobManager × Table Bytes Bytes
capture_progress id line now fields m = elim (cut b'=' line) [
  | none ↦ (m, fields)
  | some (key, value) ↦
      if key == bytes "progress"
      then (
        with_state id (λ state. record state { metrics = some (record { updated_at = now }) }) m,
        [],
      )
      else (m, insert key value fields)
]

-- How the loop of `monitorProcess` goes on: it ends, it kills the process and ends, or it goes on with
-- `memoryExceededSince`.
pub data Monitor : Type 0 where
  ends kills : Monitor
  goes_on : Time → Monitor

-- `policy` of `monitorProcess`
unfoldable pub policy_or_default : Option WatchdogPolicy → WatchdogPolicy
policy_or_default none = default_watchdog_policy
policy_or_default (some policy) = policy

abbrev watchdog_state : Bytes → State → State
watchdog_state text state = record state {
  status = error;
  error_code = watchdog_error;
  last_error = text;
}

-- The watchdog's part of a tick; `text` formats its reason.
unfoldable pub apply_decision :
    (Reason → Bytes) → String → Decision → Time → JobManager → JobManager × Monitor
apply_decision text id decision now m = elim decision.reason as (λ x. JobManager × Monitor) [
  | no_reason ↦ (m, goes_on decision.memory_exceeded_since)
  | _ ↦ (
    log_line id error_level watchdog_error (text decision.reason) now
        (with_state id (watchdog_state (text decision.reason)) m),
    kills,
  )
]

-- A tick of `monitorProcess`; `sample` is the memory that readProcSample reads.
unfoldable pub monitor_tick :
    (Reason → Bytes)
    → String
    → Option WatchdogPolicy
    → Option ℤ
    → Time
    → Time
    → Time
    → JobManager
    → JobManager × Monitor
monitor_tick text id policy none started_at exceeded_since now m = (m, ends)
monitor_tick text id policy (some memory) started_at exceeded_since now m =
    let m' =
      with_state id
        (λ state. record state {
          process = some (record { memory_bytes = memory; updated_at = now });
        })
        m in
    elim (get id m'.store) [
      | none ↦ (m', goes_on exceeded_since)
      | some view ↦
          apply_decision text id
            (watchdog_action (policy_or_default policy) view.state memory started_at exceeded_since
              now)
            now m'
    ]
