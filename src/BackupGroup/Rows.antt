-- ===== src/BackupGroup/Rows.antt =====
-- nazman/models/backup_zfs.py: the tables of the backup engine, a list of rows for each, in id
-- order. A time is a number; a column that may be NULL is an `Option`. The columns that no modelled
-- operation reads, such as checksums and labels of files, are left out.
use nazman.Prelude.{ℕ, String, Bool, List, Option}

pub data SessionStatus : Type 0 where
  running success partial failed needs_disk : SessionStatus

pub data RunStatus : Type 0 where
  running success failed skipped : RunStatus

pub data Phase : Type 0 where
  resolving snapshotting sending pending pruning : Phase

pub data BackupType : Type 0 where
  full incremental : BackupType

pub record Group : Type 0 where
  pub id : ℕ
  pub name : String
  pub full_cron : Option String
  pub incremental_cron : Option String
  pub enabled : Bool
  pub active_set_id : Option ℕ
  pub needs_disk : Bool
  pub copies : ℕ
  pub recycle_full_disks : Bool
  pub last_session_at : Option ℕ

pub record GroupDataset : Type 0 where
  pub id : ℕ
  pub group_id : ℕ
  pub dataset_name : String

pub record BackupSet : Type 0 where
  pub id : ℕ
  pub group_id : ℕ
  pub position : ℕ
  pub label : Option String
  pub active_disk_id : Option ℕ
  pub last_used_at : Option ℕ

pub record BackupDisk : Type 0 where
  pub id : ℕ
  pub backup_set_id : Option ℕ
  pub label : Option String
  pub fs_uuid : String
  pub unmount_after_backup : Bool

-- What a session notes for its history entry, a constructor for each text that is appended.
pub data Note : Type 0 where
  copies_written : List ℕ → Note
  first_full : ℕ → Note
  advanced_to : ℕ → String → Note
  recycled : ℕ → Note
  promoted : String → Note

pub data SessionError : Type 0 where
  no_backup_sets : SessionError
  no_usable_disk : ℕ → SessionError
  no_room_for : ℕ → String → SessionError
  interrupted_by_restart : SessionError

pub record Session : Type 0 where
  pub id : ℕ
  pub group_id : ℕ
  pub backup_set_id : Option ℕ
  pub backup_disk_id : Option ℕ
  pub trigger : BackupType
  pub status : SessionStatus
  pub phase : Option Phase
  pub datasets_total : ℕ
  pub datasets_done : ℕ
  pub datasets_skipped : ℕ
  pub datasets_failed : ℕ
  pub bytes_written : ℕ
  pub notes : List Note
  pub error : Option SessionError
  pub completed_at : Option ℕ

pub data RunError : Type 0 where
  dataset_not_found : RunError
  insufficient_space : RunError
  send_failed : RunError
  interrupted : RunError

pub record Run : Type 0 where
  pub id : ℕ
  pub session_id : Option ℕ
  pub group_id : Option ℕ
  pub backup_set_id : Option ℕ
  pub dataset_name : String
  pub backup_disk_id : ℕ
  pub backup_type : BackupType
  pub promoted_from : Option BackupType
  pub snapshot : Option String
  pub base_snapshot : Option String
  pub full_anchor : Option String
  pub size_bytes : ℕ
  pub phase : Option Phase
  pub status : RunStatus
  pub error : Option RunError
  pub completed_at : Option ℕ

pub record Db : Type 0 where
  pub groups : List Group
  pub datasets : List GroupDataset
  pub sets : List BackupSet
  pub disks : List BackupDisk
  pub sessions : List Session
  pub runs : List Run
  pub next_id : ℕ
