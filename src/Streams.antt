-- ===== src/Streams.antt =====
-- internal/streams: the streams' configurations, the store of streams, profiles and users, the logs, what is
-- read from ffmpeg's output, the watchdog, and the job manager.
pub mod Models
pub mod Config
pub mod Logs
pub mod Store
pub mod Watchdog
pub mod Lines
pub mod Jobs
