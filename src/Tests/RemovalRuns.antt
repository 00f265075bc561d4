-- ===== src/Tests/RemovalRuns.antt =====
-- The stream of the runs is deleted while its process is running.
use neo_transcoder.Base.{◌≡◌, refl, true, false, none, some, bytes, ok, string_eq, lookup}
use neo_transcoder.Streams.Store.{delete_stream, update_state}
use neo_transcoder.Streams.Jobs.{
  JobManager, stream_not_found, start, stop, mark_stopping, write_stopping, at_rest,
}
use neo_transcoder.Streams.Jobs.Processes.{wait, after_backoff}
use neo_transcoder.Server.Streams.{stop_and_wait, while_stopping, remove_stream}
use neo_transcoder.Server.Streams.Removed.{remove_stream-after_backoff}
use neo_transcoder.Tests.FfmpegRuns.{urls}
use neo_transcoder.Tests.StoreRuns.{manager}

abbrev left_over : JobManager
left_over = (remove_stream "news" none 100 true manager).0

removed : remove_stream "news" none 100 true manager ≡ (left_over, ok true)
unfolding remove_stream delete_stream stop_and_wait while_stopping stop mark_stopping write_stopping
    lookup update_state
removed = refl

remove_stream-after_backoff_example :
    ((wait "news" 41 (some (bytes "killed")) 200 left_over).1 ≡ at_rest)
    × (after_backoff urls (λ e. bytes "") "news" (ok 42) 200 left_over ≡ (left_over, at_rest))
    × (start urls "news" false (ok 42) 200 left_over ≡ (left_over, some stream_not_found))
remove_stream-after_backoff_example =
    remove_stream-after_backoff urls (λ e. bytes "") "news" none 100 200 true 41
      (some (bytes "killed")) (ok 42) false manager left_over (ok true) removed
