-- ===== src/Fs.antt =====
-- kernel/src/fs: disks and partitions.
pub mod Disk
pub mod Part
pub mod Gpt
pub mod FatDisk
