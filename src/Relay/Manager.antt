-- ===== src/Relay/Manager.antt =====
-- internal/srtrelay/manager.go: the jobs of the SRT workers and their restarts. Processes are their
-- PIDs; a timer, the end of a process and a request are calls of the environment. What the operating
-- system answers (the worker's program is found, the process starts) is an argument.
pub mod Restarts
pub mod Recovery
use neo_transcoder.Base.{
  ℕ, ◌+◌, ◌*◌, ◌-◌, Bool, true, false, not, ◌&&◌, ◌||◌, Option, none, some, List, [], ◌∷◌, ◌++◌,
  Bytes, bytes, leb, ltb, ◌==◌, nat_eq, bytes_eq, if◌then◌else◌, Table, lookup, insert, delete,
}
use neo_transcoder.Relay.Models.{
  Time, second, RelayState, Status, stopped, starting, running, degraded, stopping, restarting,
  flapping, error,
}
use neo_transcoder.Relay.Store.{Store, state_of}
use neo_transcoder.Relay.Sessions.{close_relay_sessions}
use neo_transcoder.Relay.Events.{update_state}

abbrev pub restart_window : ℕ
restart_window = 5 * 60 * second

abbrev pub max_restarts : ℕ
max_restarts = 5

pub record RelayJob : Type 0 where
  pub pid : ℕ
  pub stopping : Bool

pub record RestartTracker : Type 0 where
  pub first_failure : Time
  pub attempts : ℕ

pub record Manager : Type 0 where
  pub store : Store
  pub jobs : Table Bytes RelayJob
  pub restarts : Table Bytes RestartTracker

-- `m.restarts[id]`, whose zero value has the zero time
unfoldable pub tracker_of : Bytes → Manager → RestartTracker
tracker_of id m = elim (lookup id m.restarts) [
  | none ↦ record { first_failure = 0; attempts = 0 }
  | some tracker ↦ tracker
]

-- allowRestart. The subtraction stops at 0: a `now` before the first failure is in its window.
unfoldable pub allow_restart : Bytes → Time → Manager → Manager × Bool
allow_restart id now m =
    let old = tracker_of id m in
    let is_new = old.first_failure == 0 || ltb restart_window (now - old.first_failure) in
    let tracker : RestartTracker =
      if is_new
      then record { first_failure = now; attempts = 1 }
      else record old { attempts = old.attempts + 1 } in
    (record m { restarts = insert id tracker m.restarts }, leb tracker.attempts max_restarts)

pub data StartError : Type 0 where
  relay_not_found relay_disabled no_program already_running start_failed : StartError

-- The state that `start` and the others write into the store.
abbrev with_state : Bytes → Time → (RelayState → RelayState) → Manager → Manager
with_state id now update m = record m { store = update_state id now update m.store }

started_state : ℕ → Bool → RelayState → RelayState
started_state pid restarted state = record state {
  status = starting;
  pid = pid;
  last_error = [];
  is_flapping = false;
  restart_count = if restarted then state.restart_count + 1 else state.restart_count;
}

-- `start`: `found` says whether LookPath finds the program, `process` is the PID of the started
-- process, none where it cannot be started.
unfoldable pub start : Bytes → Bool → Bool → Option ℕ → Time → Manager → Manager × Option StartError
unfolding started_state
start id restarted found process now m = elim (lookup id m.store.relays) [
  | none ↦ (m, some relay_not_found)
  | some relay ↦
      if not relay.enabled
      then (m, some relay_disabled)
      else if not found
      then (m, some no_program)
      else elim (lookup id m.jobs) [
        | some job ↦ (m, some already_running)
        | none ↦ elim process [
          | none ↦ (m, some start_failed)
          | some pid ↦ (
            with_state id now (started_state pid restarted) (record m {
              jobs = insert id (record { pid = pid; stopping = false }) m.jobs;
              restarts = if restarted then m.restarts else delete id m.restarts;
            }),
            none,
          )
        ]
      ]
]

-- Stop, up to the signal: the PID that it goes to. Nothing runs between its two locks here.
unfoldable pub stop : Bytes → Time → Manager → Manager × Option ℕ
stop id now m = elim (lookup id m.jobs) [
  | none ↦ (m, none)
  | some job ↦ (
    with_state id now (λ state. record state { status = stopping })
        (record m {
          jobs = insert id (record job { stopping = true }) m.jobs;
          restarts = delete id m.restarts;
        }),
    some job.pid,
  )
]

-- What `wait` does next: nothing, a restart after 5 seconds, or a retry after 10 minutes.
pub data Next : Type 0 where
  at_rest restart_later retry_later : Next

stopped_now : RelayState → RelayState
stopped_now state = record state { status = stopped; pid = 0; active_clients = 0 }

failed_now : Bytes → RelayState → RelayState
failed_now reason state = record state {
  status = error;
  pid = 0;
  active_clients = 0;
  last_error = reason;
}

flapping_now : RelayState → RelayState
flapping_now state = record state {
  status = flapping;
  is_flapping = true;
  last_error = bytes "SRT worker exceeded restart limit";
}

-- `wait` from the restart limit on.
unfoldable pub limit_restarts : Bytes → Time → Manager → Manager × Next
unfolding flapping_now
limit_restarts id now m =
    let (m', allowed) = allow_restart id now m in
    if allowed
    then (with_state id now (λ state. record state { status = restarting }) m', restart_later)
    else (with_state id now flapping_now m', retry_later)

-- `wait` for a job that has ended without a request.
unfoldable pub after_failure : Bytes → Bytes → Time → Manager → Manager × Next
unfolding failed_now
after_failure id reason now m =
    let closed = record m { store = (close_relay_sessions id reason now now m.store).0 } in
    let m' = with_state id now (failed_now reason) closed in
    elim (lookup id m'.store.relays) [
      | none ↦ (m', at_rest)
      | some relay ↦ if relay.enabled then limit_restarts id now m' else (m', at_rest)
    ]

-- `wait` once the process with this PID has ended; `reason` is the error's text, or the text for a
-- process that has ended without one. The audit events are left out.
unfoldable pub wait : Bytes → ℕ → Bytes → Time → Manager → Manager × Next
unfolding stopped_now
wait id pid reason now m = elim (lookup id m.jobs) [
  | none ↦ (m, at_rest)
  | some job ↦
      let m' = record m { jobs = delete id m.jobs } in
      let closed = record m' {
        store = (close_relay_sessions id (bytes "SRT worker stopped") now now m'.store).0;
      } in
      if not (job.pid == pid)
      then (m, at_rest)
      else if job.stopping
      then (with_state id now stopped_now closed, at_rest)
      else after_failure id reason now m'
]

is_flapping_status : Status → Bool
is_flapping_status flapping = true
is_flapping_status _ = false

flapping_again : Bytes → RelayState → RelayState
flapping_again reason state = record state {
  status = flapping;
  is_flapping = true;
  last_error = reason;
}

-- The end of `retryFlapping`; `reason` is the text of the error that `start` returns.
unfoldable pub after_retry : Bytes → Bytes → Time → Manager × Option StartError → Manager × Next
unfolding flapping_again
after_retry id reason now (m, none) = (m, at_rest)
after_retry id reason now (m, some e) = (with_state id now (flapping_again reason) m, retry_later)

-- retryFlapping
unfoldable pub retry_flapping : Bytes → Bool → Option ℕ → Bytes → Time → Manager → Manager × Next
unfolding is_flapping_status
retry_flapping id found process reason now m = elim (lookup id m.store.relays) [
  | none ↦ (m, at_rest)
  | some relay ↦
      let cleared = record m { restarts = delete id m.restarts } in
      let restarting_now =
        with_state id now (λ state. record state { status = restarting; is_flapping = false })
          cleared in
      if not relay.enabled || not (is_flapping_status (state_of id now m.store).status)
      then (m, at_rest)
      else elim (lookup id m.jobs) [
        | some job ↦ (cleared, at_rest)
        | none ↦ after_retry id reason now (start id true found process now restarting_now)
      ]
]
