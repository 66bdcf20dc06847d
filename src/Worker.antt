-- ===== src/Worker.antt =====
-- The worker, apps-worker/src: jobs that pack, verify, run and publish modules.
pub mod Limits
pub mod Collect
pub mod Container
pub mod Artifacts
pub mod Payloads
pub mod Jobs
pub mod Queue
mod Tests
