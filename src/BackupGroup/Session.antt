-- ===== src/BackupGroup/Session.antt =====
-- The run of a session, nazman/services/backup_group_service.py: `_execute_session`,
-- `_write_one_set` and what they call. The state is the objects that the ORM holds for the
-- session: its own row, its group, the group's sets, the disks and the runs.
pub mod Media
pub mod Writes
pub mod Execute
pub mod Finish
pub mod Keeps
pub mod Steady
pub mod Ends
pub mod Moves
pub mod Counts
use nazman.Prelude.{ℕ, List, Option, String, Bool}
use nazman.BackupGroup.Rows.{Group, BackupSet, BackupDisk, Session, Run, Note}

pub data Severity : Type 0 where
  info warning error : Severity

-- The alerts that a session sends, a constructor for each message; `AlertManager.notify` does
-- not raise.
pub data Alert : Type 0 where
  needs_disk : (group_id set_id : ℕ) → Option String → Alert
  promoted : (set_id : ℕ) → String → Alert
  failed : (group_id set_id : ℕ) → Alert
  complete : (group_id set_id : ℕ) → Severity → Option ℕ → Alert

pub record Ctx (W : Type 0) : Type 0 where
  pub session : Session
  pub group : Group
  pub datasets : List String
  pub sets : List BackupSet
  pub disks : List BackupDisk
  pub runs : List Run
  pub next_id : ℕ
  -- the list that is passed down by reference
  pub notes : List Note
  pub alerts : List Alert
  -- the disks that a configuration bundle was captured on
  pub captured : List ℕ
  pub world : W

-- What the managers below raise and nothing here catches.
pub data Failure : Type 0 where
  command_error : Failure
