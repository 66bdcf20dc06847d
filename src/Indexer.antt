-- ===== src/Indexer.antt =====
-- The indexer, apps-indexer/src: it reads events from the logs of a chain and stores them.
pub mod Lines
pub mod Events
pub mod Persist
pub mod Polling
mod Tests
