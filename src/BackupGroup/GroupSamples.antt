-- ===== src/BackupGroup/GroupSamples.antt =====
-- A group with one dataset and one set, and the theorems on groups and on starts applied to it.
use nazman.Prelude.{
  ℕ, ◌≤◌, ◌≡◌, refl, String, true, false, none, some, List, [], ◌∷◌, map, any, Result, ok, ◌==◌,
  arith,
}
use nazman.BackupGroup.Rows.{Db, Session, SessionStatus, incremental}
use nazman.BackupGroup.Session.{Failure}
use nazman.BackupGroup.Groups.{delete_group}
use nazman.BackupGroup.Groups.Links.{delete_group_lem}
use nazman.BackupGroup.Starts.{start_session}
use nazman.BackupGroup.Starts.Running.{running_of, start_session_lem}

abbrev session_of : ℕ → SessionStatus → Session
session_of n status = record {
  id = n;
  group_id = 1;
  backup_set_id = none;
  backup_disk_id = none;
  trigger = incremental;
  status = status;
  phase = none;
  datasets_total = 1;
  datasets_done = 0;
  datasets_skipped = 0;
  datasets_failed = 0;
  bytes_written = 0;
  notes = [];
  error = none;
  completed_at = none;
}

abbrev small_db : List Session → Db
small_db sessions = record {
  groups =
      record {
        id = 1;
        name = "photos";
        full_cron = none;
        incremental_cron = none;
        enabled = true;
        active_set_id = some 2;
        needs_disk = false;
        copies = 1;
        recycle_full_disks = false;
        last_session_at = none;
      }
      ∷ [];
  datasets = record { id = 3; group_id = 1; dataset_name = "tank/a" } ∷ [];
  sets =
      record {
        id = 2;
        group_id = 1;
        position = 0;
        label = none;
        active_disk_id = none;
        last_used_at = none;
      }
      ∷ [];
  disks =
      record {
        id = 20;
        backup_set_id = some 2;
        label = none;
        fs_uuid = "0000";
        unmount_after_backup = true;
      }
      ∷ [];
  sessions = sessions;
  runs = [];
  next_id = 30;
}

abbrev idle_db : Db
idle_db = small_db (session_of 5 SessionStatus.success ∷ [])

abbrev busy_db : Db
busy_db = small_db (session_of 5 SessionStatus.success ∷ session_of 6 SessionStatus.running ∷ [])

delete_group_example :
    (any (λ s. s.group_id == 1) (delete_group 1 idle_db).1.sets ≡ false)
    × (any (λ s. s.group_id == 1) (delete_group 1 idle_db).1.sessions ≡ false)
    × (any (λ d. d.group_id == 1) (delete_group 1 idle_db).1.datasets ≡ false)
    × (map (λ d. d.id) (delete_group 1 idle_db).1.disks ≡ 20 ∷ [])
unfolding delete_group nazman.BackupGroup.Tables.get_group
    nazman.BackupGroup.Tables.is_session_running
delete_group_example = delete_group_lem 1 1 idle_db refl

idle_db-running_of : (g : ℕ) → running_of g idle_db.sessions ≤ 1
unfolding running_of
idle_db-running_of g = ground arith

start_session_example : running_of 1 (start_session 1 "full" idle_db).1.sessions ≤ 1
start_session_example = start_session_lem 1 idle_db idle_db-running_of "full" 1

abbrev keeps_quiet : String → ℕ → Result Failure Unit × ℕ
keeps_quiet snap calls = (ok tt, calls)
