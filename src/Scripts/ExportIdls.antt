-- ===== src/Scripts/ExportIdls.antt =====
-- scripts/solana/export-idls.ts, in parts: the arguments, the index, and the copying.
pub mod CommandLine
pub mod Index
pub mod Run
pub mod Copies
