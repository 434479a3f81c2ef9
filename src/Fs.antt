-- ===== src/Fs.antt =====
-- Files in memory: kernel/src/fs. The table of files, the arenas for their bytes, the block device.
pub mod Table
pub mod Arena
pub mod Block
mod Tests
pub mod Cache
