-- ===== src/Bin.antt =====
-- bin/: the commands. What they learn from the machine besides the file system is a `World`.
pub mod World
pub mod Numbers
pub mod Show
pub mod Files
pub mod Ping
