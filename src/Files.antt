-- ===== src/Files.antt =====
-- fs/open.c, fs/link.c and a part of fs/fs.c: the file system's task.
pub mod Disk
pub mod Inodes
pub mod Maps
pub mod Path
pub mod Unlink
pub mod Format
pub mod Open
pub mod Transfer
pub mod Requests
mod Examples
