-- ===== src/Streams/Jobs/Goroutines.antt =====
-- The two goroutines of internal/streams/jobs.go that end a stream's process: the request's, in `Stop`,
-- and the one in `wait`. Each locks the manager and the store for one step at a time, so the steps of
-- the two can alternate; no other request for the stream is among them.
use neo_transcoder.Base.{ℕ, String, Bool, true, false, Option, Bytes, if◌then◌else◌}
use neo_transcoder.Streams.Models.{Time, Status, stopped, stopping}
use neo_transcoder.Streams.Jobs.{JobManager, Next, mark_stopping, write_stopping}
use neo_transcoder.Streams.Jobs.Processes.{take_job, write_ended, restart_ended}

-- Where `Stop` is: its job is marked, or it waits; `late` says whether it wrote after `wait` did.
pub data StopAt : Type 0 where
  marked : StopAt
  waits : (late : Bool) → StopAt

-- Where `wait` is: its process runs, its job is taken, the state is written, or it has returned.
pub data WaitAt : Type 0 where
  runs : WaitAt
  taken : (manual : Bool) → WaitAt
  written : (manual : Bool) (reason : Bytes) → WaitAt
  returned : Next → WaitAt

pub record Threads : Type 0 where
  pub manager : JobManager
  pub stop_at : StopAt
  pub wait_at : WaitAt

abbrev pub has_written : WaitAt → Bool
has_written runs = false
has_written (taken manual) = false
has_written (written manual reason) = true
has_written (returned result) = true

-- A step of one of the two, at any time.
pub data Step (id : String) (pid : ℕ) (exit : Option Bytes) : Threads → Threads → Type 0 where
  stop_writes :
      (now : Time) (m : JobManager) (w : WaitAt)
      → Step id pid exit
          (record { manager = m; stop_at = marked; wait_at = w })
          (record {
            manager = write_stopping id now m;
            stop_at = waits (has_written w);
            wait_at = w;
          })
  wait_takes :
      (m : JobManager) (s : StopAt)
      → Step id pid exit
          (record { manager = m; stop_at = s; wait_at = runs })
          (record {
            manager = (take_job id pid m).0;
            stop_at = s;
            wait_at = taken (take_job id pid m).1;
          })
  wait_writes :
      (now : Time) (m : JobManager) (s : StopAt) (manual : Bool)
      → Step id pid exit
          (record { manager = m; stop_at = s; wait_at = taken manual })
          (record {
            manager = (write_ended id manual exit now m).0;
            stop_at = s;
            wait_at = written manual (write_ended id manual exit now m).1;
          })
  wait_returns :
      (now : Time) (m : JobManager) (s : StopAt) (manual : Bool) (reason : Bytes)
      → Step id pid exit
          (record { manager = m; stop_at = s; wait_at = written manual reason })
          (record {
            manager = (restart_ended id manual exit reason now m).0;
            stop_at = s;
            wait_at = returned (restart_ended id manual exit reason now m).1;
          })

pub data Reach (id : String) (pid : ℕ) (exit : Option Bytes) (first : Threads)
    : Threads → Type 0 where
  here : Reach id pid exit first first
  later :
      {t u : Threads} → Reach id pid exit first t → Step id pid exit t u → Reach id pid exit first u

-- Both goroutines once `Stop` has marked the job.
abbrev pub stopping_threads : String → JobManager → Threads
stopping_threads id m = record {
  manager = (mark_stopping id m).0;
  stop_at = marked;
  wait_at = runs;
}

abbrev pub is_late : StopAt → Bool
is_late marked = false
is_late (waits late) = late

-- The status that is left behind.
abbrev pub last_status : StopAt → Status
last_status s = if is_late s then stopping else stopped
