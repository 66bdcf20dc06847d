-- ===== src/Scripts.antt =====
-- The repository's scripts (scripts/): environment files, versions, release notes, the tree linter.
pub mod Args
pub mod Root
pub mod EnvFile
pub mod EnvArgs
pub mod GenDev
pub mod GenProd
pub mod Validate
pub mod Version
pub mod LintTree
pub mod ReleaseNotes
pub mod Seed
pub mod Reset
pub mod Wallets
pub mod ExportIdls
mod Tests
