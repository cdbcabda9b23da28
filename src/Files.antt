-- ===== src/Files.antt =====
-- The transfer of files: src/kernel/src/services/file.
pub mod Cache
pub mod Multipart
pub mod Server
pub mod Snapshots
pub mod Tables
pub mod Directories
pub mod NetDisk
pub mod Mover
mod Examples
