-- ===== src/ZfsBackup.antt =====
-- nazman/managers/zfs_backup_manager.py: the snapshots that the backups of a dataset build on, and
-- the write of one stream.
pub mod Anchors
pub mod Pruning
pub mod Doomed
pub mod Stream
pub mod Triples
pub mod Steps
pub mod Writing
pub mod Recording
mod Samples
