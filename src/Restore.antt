-- ===== src/Restore.antt =====
-- nazman/services/system_restore.py: what the backup volumes that are attached hold together, and
-- the restore of its datasets.
pub mod Job
pub mod Located
pub mod Mapping
pub mod Merge
pub mod Replay
pub mod Run
pub mod Volumes
mod Samples
pub mod Chain
pub mod Adoption
