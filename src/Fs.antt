-- ===== src/Fs.antt =====
-- fs/: the file system, a task that serves open, close, read, write and unlink on a disk partition.
pub mod State
pub mod Inodes
pub mod Path
pub mod Maps
pub mod Entries
pub mod Open
pub mod Share
pub mod Rdwt
pub mod Unlink
pub mod Task
pub mod Make
mod Names
mod Seek
mod Bits
mod Imap
mod Mounted
mod Cache
mod Sync
mod Leak
mod Reading
mod Counts
mod Examples
mod Directory
