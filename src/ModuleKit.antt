-- ===== src/ModuleKit.antt =====
-- The module kit: packages/module-kit/src/runtime runs a module in a child process.
pub mod Integrity
pub mod Sandbox
pub mod Output
pub mod Runner
mod Tests
