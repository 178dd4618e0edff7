-- ===== src/Fs.antt =====
-- Kernel/fs: the file system of the disk.
pub mod Fat
mod Tests
