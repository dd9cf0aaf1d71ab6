-- ===== src/Shell.antt =====
-- shell/: the command line.
pub mod Parse
pub mod Session
pub mod Run
