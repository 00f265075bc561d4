-- ===== src/Streams/Jobs/Stopping.antt =====
-- A process that is stopped on request is not started again, in whatever order the goroutine of the
-- request (`Stop`) and the one that waits for the process (`wait`) take their steps.
use neo_transcoder.Base.{ℕ, ◌≡◌, String, true, false, none, some, nat_eq, string_eq, lookup}
use neo_transcoder.Streams.Store.{state_of}
use neo_transcoder.Streams.Jobs.{JobManager, at_rest}
use neo_transcoder.Streams.Jobs.Goroutines.{
  StopAt, WaitAt, runs, taken, written, returned, Threads, is_late, last_status,
}

abbrev IsForgotten : String → JobManager → Type 0
IsForgotten id m = (lookup id m.jobs ≡ none) × (lookup id m.restarts ≡ none)

abbrev IsWritten : String → JobManager → StopAt → Type 0
IsWritten id m s = ((state_of id m.store).pid ≡ 0) × ((state_of id m.store).status ≡ last_status s)

abbrev IsEndingAt : String → ℕ → JobManager → StopAt → WaitAt → Type 0
IsEndingAt id pid m s runs =
    (lookup id m.jobs ≡ some (record { pid = pid; stopping = true }))
    × (lookup id m.restarts ≡ none)
    × (is_late s ≡ false)
IsEndingAt id pid m s (taken manual) = (manual ≡ true) × IsForgotten id m × (is_late s ≡ false)
IsEndingAt id pid m s (written manual reason) =
    (manual ≡ true) × IsForgotten id m × IsWritten id m s
IsEndingAt id pid m s (returned result) = (result ≡ at_rest) × IsForgotten id m × IsWritten id m s

abbrev IsEnding : String → ℕ → Threads → Type 0
IsEnding id pid t = IsEndingAt id pid t.manager t.stop_at t.wait_at
