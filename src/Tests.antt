-- ===== src/Tests.antt =====
-- Runs of the models on concrete inputs, and the theorems at inputs that meet their hypotheses.
mod WorkerRuns
mod StreamRuns
mod RelayRuns
mod AuditRuns
mod AuthRuns
mod FfmpegRuns
mod StoreRuns
mod ServerRuns
mod RemovalRuns
