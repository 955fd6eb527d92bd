-- ===== src/BackupGroup.antt =====
-- nazman/models/backup_zfs.py and nazman/services/backup_group_service.py: backup groups, their
-- cycle of sets, the disks of a set, and the sessions that write them.
pub mod Rows
pub mod Tables
pub mod Cycle
pub mod Sets
pub mod Disks
pub mod Session
pub mod Groups
pub mod Starts
pub mod Crons
mod Samples
mod SessionSamples
mod GroupSamples
