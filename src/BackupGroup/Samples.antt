-- ===== src/BackupGroup/Samples.antt =====
-- A group with three sets of two disks each, and the theorems applied to it.
use nazman.Prelude.{
  holds, ==_self, ℕ, zero, suc, ◌≡◌, ◌<◌, refl, Bool, true, false, Option, none, some, List, [],
  ◌∷◌, length, get_elem?, find?, ◌*◌, String, Result, ok, err, ◌==◌, is_some, modify, if◌then◌else◌,
  select, ◌⊎◌, ◌≢◌,
}
use nazman.BackupGroup.Rows.{Db, Group, BackupSet, BackupDisk}
use nazman.BackupGroup.Cycle.{target_sets, rotate}
use nazman.BackupGroup.Cycle.Rotation.{
  IsCycle, IsCycle-nil, IsCycle-cons, target_sets_distinct, rotate_lem,
}
use nazman.BackupGroup.Sets.{delete_set, renumber, renumber_order}
use nazman.BackupGroup.Tables.{integrity_error}
use nazman.BackupGroup.Sets.Collisions.{IsAscending}
use nazman.BackupGroup.Sets.Renumber.{renumber_lem, set_row}
use nazman.BackupGroup.Sets.Pointer.{IsHonest, IsCycle-IsKeyed, Owns, delete_set_lem}
use nazman.BackupGroup.Disks.{detach_disk, advance_disk, set_active_disk}
use nazman.BackupGroup.Disks.Detached.{detach_disk_lem}

abbrev pub set_at : ℕ → ℕ → BackupSet
set_at n at = record {
  id = n;
  group_id = 1;
  position = at;
  label = none;
  active_disk_id = some (n * 10);
  last_used_at = some 5;
}

abbrev pub disk_of : ℕ → ℕ → BackupDisk
disk_of n set_id = record {
  id = n;
  backup_set_id = some set_id;
  label = none;
  fs_uuid = "0000";
  unmount_after_backup = true;
}

abbrev pub photos : Group
photos = record {
  id = 1;
  name = "photos";
  full_cron = none;
  incremental_cron = some "0 3 * * *";
  enabled = true;
  active_set_id = some 3;
  needs_disk = false;
  copies = 2;
  recycle_full_disks = false;
  last_session_at = none;
}

abbrev pub three_sets : List BackupSet
three_sets = set_at 2 0 ∷ set_at 3 1 ∷ set_at 4 2 ∷ []

abbrev pub six_disks : List BackupDisk
six_disks =
    disk_of 20 2 ∷ disk_of 21 2 ∷ disk_of 30 3 ∷ disk_of 31 3 ∷ disk_of 40 4 ∷ disk_of 41 4 ∷ []

abbrev pub library_db : Db
library_db = record {
  groups = photos ∷ [];
  datasets = record { id = 1; group_id = 1; dataset_name = "tank/photos" } ∷ [];
  sets = three_sets;
  disks = six_disks;
  sessions = [];
  runs = [];
  next_id = 100;
}

pub three_sets-IsCycle : IsCycle three_sets
three_sets-IsCycle = IsCycle-cons (set_at 2 0) (set_at 3 1 ∷ set_at 4 2 ∷ []) refl (
    IsCycle-cons (set_at 3 1) (set_at 4 2 ∷ []) refl
      (IsCycle-cons (set_at 4 2) [] refl IsCycle-nil))

library_db-IsHonest : IsHonest library_db
library_db-IsHonest g a (zero, listed) points = record {
  bset = set_at 3 1;
  listed = (1, refl);
  named = cc;
  owned = cc;
}
library_db-IsHonest g a (suc i, listed) points = absurd (cc)

target_sets_distinct_example : ◌≡◌ {A = ℕ} 1 1
unfolding target_sets
target_sets_distinct_example =
    target_sets_distinct photos three_sets (set_at 3 1) 1 three_sets-IsCycle refl 1 1 (set_at 4 2)
      (set_at 4 2) refl refl refl

rotate_example :
    rotate photos three_sets (set_at 3 1) (length (target_sets photos three_sets (set_at 3 1)))
    ≡ (record photos { active_set_id = some 2 }, some 2)
unfolding target_sets
rotate_example =
    rotate_lem photos three_sets (set_at 3 1) 1 three_sets-IsCycle refl (set_at 2 0) refl

renumber_example :
    ((renumber 1 library_db).0 ≡ ok tt) × (set_row (renumber 1 library_db).1 3 ≡ some (set_at 3 1))
    ⊎ ((renumber 1 library_db).0 ≡ err integrity_error)
      × ((renumber 1 library_db).1 ≡ library_db)
      × ((j : ℕ) × (x : BackupSet) × (get_elem? (renumber_order 1 library_db) j ≡ some x)
          × (x.position ≢ j))
      × (¬ IsAscending (renumber_order 1 library_db))
unfolding renumber_order nazman.Prelude.Order.sort
renumber_example = renumber_lem 1 library_db 1 (set_at 3 1) three_sets-IsCycle refl

-- The last of the sets stands first. The row of set 2 is written before that of set 4, which still
-- has the position it moves to.
abbrev turned_db : Db
turned_db = record library_db { sets = set_at 2 2 ∷ set_at 3 5 ∷ set_at 4 1 ∷ [] }

refused_renumber : renumber 1 turned_db ≡ (err integrity_error, turned_db)
unfolding renumber nazman.Prelude.Order.sort
refused_renumber = refl

-- A deletion that fails there leaves the group with a pointer at a set that is gone.
dangling :
    (set_row
        (delete_set 3
          (record turned_db { groups = record photos { active_set_id = some 3 } ∷ [] })).1
        3
      ≡ none)
    × ((delete_set 3
          (record turned_db { groups = record photos { active_set_id = some 3 } ∷ [] })).1.groups
        ≡ record photos { active_set_id = some 3 } ∷ [])
unfolding delete_set nazman.BackupGroup.Tables.get_set nazman.BackupGroup.Tables.is_session_running
    nazman.BackupGroup.Tables.get_group nazman.Prelude.Order.sort
dangling = (refl, refl)

delete_set_example : Owns (delete_set 3 library_db).1.sets 1 2
unfolding delete_set nazman.BackupGroup.Tables.get_set nazman.BackupGroup.Tables.is_session_running
    nazman.BackupGroup.Tables.get_group nazman.BackupGroup.Tables.group_sets
    nazman.Prelude.Order.sort nazman.BackupGroup.Tables.by_position
delete_set_example =
    delete_set_lem 3 library_db (IsCycle-IsKeyed three_sets three_sets-IsCycle) library_db-IsHonest
      (λ e. absurd (cc)) (record photos { active_set_id = some 2 }) 2 (0, refl) refl

detach_disk_example :
    ((detach_disk 3 30 library_db).1.sets ≡ three_sets)
    × (find? (λ d. d.id == 30) (detach_disk 3 30 library_db).1.disks ≡ none)
unfolding detach_disk nazman.BackupGroup.Tables.get_set nazman.BackupGroup.Tables.is_session_running
    nazman.BackupGroup.Disks.chain_dependencies
detach_disk_example = detach_disk_lem 3 30 library_db [] refl
