-- ===== src/BackupGroup/Tables.antt =====
-- The queries that the methods of nazman/services/backup_group_service.py are built from, and
-- its lookups. A statement of the ORM is the list operation that it is documented to be; changes
-- are seen by the queries that follow, since every method commits before it queries again.
use nazman.Prelude.{
  ℕ, String, Bool, List, map, find?, select, any, update_where, Exec, or_raise, leb, ◌==◌, holds,
  ◌&&◌, true, false,
}
use nazman.Prelude.Order.{sort}
use nazman.Validation.{Invalid}
use nazman.BackupGroup.Rows.{Db, Group, BackupSet, BackupDisk, SessionStatus}

pub data Error : Type 0 where
  group_not_found set_not_found : ℕ → Error
  name_error : String → Error
  negative_position position_used session_running already_running : Error
  no_disks no_datasets no_backup_sets disk_not_in_set disk_not_found : Error
  invalid : Invalid → Error
  no_name long_name name_used no_copies linked_twice bad_trigger : Error
  -- a uniqueness constraint of the database is not met
  integrity_error : Error

abbrev pub Act : Type 0 → Type 0
Act A = Exec Db Error A

unfoldable pub get_group : ℕ → Act Group
get_group group_id db =
    or_raise (find? (λ g. g.id == group_id) db.groups) (group_not_found group_id) db

unfoldable pub get_set : ℕ → Act BackupSet
get_set set_id db = or_raise (find? (λ s. s.id == set_id) db.sets) (set_not_found set_id) db

-- The class that a missing disk is to be reported by is not imported, so Python raises NameError.
unfoldable pub get_disk : ℕ → Act BackupDisk
get_disk backup_disk_id db =
    or_raise (find? (λ d. d.id == backup_disk_id) db.disks) (name_error "BackupDiskNotFoundError")
      db

-- In order of ids, which is the order of the table.
unfoldable pub group_datasets : ℕ → Db → List String
group_datasets group_id db =
    map (λ d. d.dataset_name) (select (λ d. d.group_id == group_id) db.datasets)

unfoldable pub by_position : BackupSet → BackupSet → Bool
by_position a b = leb a.position b.position

-- The group's sets in cycle order.
unfoldable pub group_sets : ℕ → Db → List BackupSet
group_sets group_id db = sort by_position (select (λ s. s.group_id == group_id) db.sets)

-- A set's disks in the order they are used.
unfoldable pub set_disks : ℕ → Db → List BackupDisk
set_disks set_id db = select (λ d. holds d.backup_set_id set_id) db.disks

abbrev pub is_running : SessionStatus → Bool
is_running SessionStatus.running = true
is_running _ = false

unfoldable pub is_session_running : ℕ → Db → Bool
is_session_running group_id db =
    any (λ s. s.group_id == group_id && is_running s.status) db.sessions

abbrev pub update_group : ℕ → (Group → Group) → Db → Db
update_group group_id f db = record db { groups = update_where (λ g. g.id == group_id) f db.groups }

abbrev pub update_set_row : ℕ → (BackupSet → BackupSet) → Db → Db
update_set_row set_id f db = record db { sets = update_where (λ s. s.id == set_id) f db.sets }
