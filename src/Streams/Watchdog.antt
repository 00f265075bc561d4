-- ===== src/Streams/Watchdog.antt =====
-- `watchdogAction` of internal/streams/jobs.go: when a running ffmpeg process is killed.
use neo_transcoder.Base.{
  ℤ, Bool, not, ◌||◌, Option, none, some, pos, leb_ℤ, is_longer, duration_seconds, time_sub, ◌==◌,
  nat_eq, if◌then◌else◌,
}
use neo_transcoder.Streams.Models.{Time, WatchdogPolicy, State, Metrics}

-- The texts that `reason` is formatted from; `no_reason` is the empty text.
pub data Reason : Type 0 where
  no_reason : Reason
  no_progress : Time → Reason
  memory_exceeded : ℤ → ℤ → Time → Reason

pub record Decision : Type 0 where
  pub reason : Reason
  pub memory_exceeded_since : Time

last_progress : Option Metrics → Time → Time
last_progress none started_at = started_at
last_progress (some m) started_at = if m.updated_at == 0 then started_at else m.updated_at

-- now.Sub(t) >= time.Duration(n) * time.Second
unfoldable pub is_at_least : ℤ → Time → Time → Bool
is_at_least seconds t now = leb_ℤ (duration_seconds seconds) (time_sub now t)

unfoldable pub watchdog_action : WatchdogPolicy → State → ℤ → Time → Time → Time → Decision
unfolding last_progress
watchdog_action policy state memory_bytes started_at exceeded_since now =
    let progress = last_progress state.metrics started_at in
    if not policy.enabled
    then record { reason = no_reason; memory_exceeded_since = exceeded_since }
    else if is_longer policy.progress_timeout_seconds progress now
    then record { reason = no_progress progress; memory_exceeded_since = exceeded_since }
    else if leb_ℤ policy.max_memory_bytes (pos 0) || leb_ℤ memory_bytes policy.max_memory_bytes
    then record { reason = no_reason; memory_exceeded_since = 0 }
    else if exceeded_since == 0
    then record { reason = no_reason; memory_exceeded_since = now }
    else if is_at_least policy.memory_grace_seconds exceeded_since now
    then record {
      reason = memory_exceeded memory_bytes policy.max_memory_bytes exceeded_since;
      memory_exceeded_since = exceeded_since;
    }
    else record { reason = no_reason; memory_exceeded_since = exceeded_since }
