-- ===== src/Server/Streams.antt =====
-- The handlers of internal/server/server.go that stop, start and delete a stream: the job manager and its
-- store together. What happens to the process while `Stop` waits for its end is an argument: none where
-- five seconds pass, or how it ended.
pub mod Removed
use neo_transcoder.Base.{
  ℕ, String, Bool, true, false, Option, none, some, Bytes, Checked, ok, err, string_eq, Table,
  lookup,
}
use neo_transcoder.Ffmpeg.Urls.{Urls}
use neo_transcoder.Streams.Models.{Time}
use neo_transcoder.Streams.Store.{StoreError, delete_stream}
use neo_transcoder.Streams.Jobs.{Job, JobManager, StartError, start, stop}
use neo_transcoder.Streams.Jobs.Processes.{wait}

-- The end of the process, where it comes after `Stop` has written its status and is waited for.
unfoldable pub while_stopping :
    String → Option Job → Option (Option Bytes) → Time → JobManager → JobManager
while_stopping id none ended now m = m
while_stopping id (some job) none now m = m
while_stopping id (some job) (some exit) now m = (wait id job.pid exit now m).0

-- `s.jobs.Stop(id)` with its wait
unfoldable pub stop_and_wait : String → Option (Option Bytes) → Time → JobManager → JobManager
unfolding while_stopping
stop_and_wait id ended now m = while_stopping id (lookup id m.jobs) ended now (stop id now m).0

-- restartStream: the manager, and the error of `Start`.
unfoldable pub restart_stream :
    Urls
    → String
    → Option (Option Bytes)
    → Checked Bytes ℕ
    → Time
    → JobManager
    → JobManager × Option StartError
restart_stream urls id ended process now m =
    start urls id false process now (stop_and_wait id ended now m)

-- deleteStream
unfoldable pub remove_stream :
    String → Option (Option Bytes) → Time → Bool → JobManager → JobManager × Checked StoreError Bool
remove_stream id ended now saved m =
    let m' = stop_and_wait id ended now m in
    let (s, result) = delete_stream id saved m'.store in (record m' { store = s }, result)
