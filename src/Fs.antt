-- ===== src/Fs.antt =====
-- fs/: the file system.
pub mod State
pub mod Bitmap
pub mod Path
pub mod Inodes
pub mod Dir
pub mod Lookup
pub mod Create
pub mod File
pub mod Listing
pub mod Install
pub mod Tree
pub mod Stable
pub mod Sound
pub mod Restart
