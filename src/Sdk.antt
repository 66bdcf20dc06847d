-- ===== src/Sdk.antt =====
-- The client of the API, packages/sdk/src.
pub mod Client
pub mod Calls
pub mod Answers
mod Tests
