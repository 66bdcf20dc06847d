-- ===== src/Terminal.antt =====
-- The terminal's command line: packages/terminal-ui/src/commands.
pub mod Parse
