-- ===== src/Scripts/Validate.antt =====
-- scripts/env/validate-env.ts, in parts: the arguments, the checks, what is printed, and the run.
pub mod CommandLine
pub mod Checks
pub mod Print
pub mod Run
pub mod Sound
pub mod Redact
