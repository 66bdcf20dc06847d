-- ===== src/Api.antt =====
-- The API, apps-api/src, with its errors, packages/errors/src.
pub mod Errors
pub mod Auth
pub mod Forks
pub mod Runs
pub mod Storage
pub mod Modules
pub mod Answers
pub mod Handlers
mod Tests
