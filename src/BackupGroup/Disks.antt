-- ===== src/BackupGroup/Disks.antt =====
-- The disks of a set: `attach_disk`, `detach_disk`, `advance_disk`, `set_active_disk`,
-- `_realign_set` and `chain_dependencies` of nazman/services/backup_group_service.py, and
-- `deregister_backup_disk` of nazman/managers/zfs_backup_manager.py. What these methods return
-- for the view of the set is left out: the set is looked up by its id.
pub mod Active
pub mod Detached
use nazman.Prelude.{
  ℕ, zero, suc, ◌+◌, ◌%◌, String, Bool, true, false, not, ◌&&◌, ◌||◌, Option, none, some, List, [],
  ◌∷◌, ◌++◌, map, find?, select, any, update_where, length, is_empty, holds, pure, raise, gets,
  modify, ◌>>=◌, ◌>>◌, or_raise, guard_not, ◌==◌, str_eq, if◌then◌else◌,
}
use nazman.BackupGroup.Rows.{Db, Group, BackupSet, BackupDisk, Run, RunStatus}
use nazman.BackupGroup.Tables.{
  Act, get_set, get_disk, set_disks, is_session_running, update_group, update_set_row,
  session_running, no_disks, disk_not_in_set, disk_not_found,
}

abbrev pub update_disk_row : ℕ → (BackupDisk → BackupDisk) → Db → Db
update_disk_row disk_id f db = record db { disks = update_where (λ d. d.id == disk_id) f db.disks }

abbrev pub first_disk_id : List BackupDisk → Option ℕ
first_disk_id [] = none
first_disk_id (d ∷ ds) = some d.id

-- The pointer of a set, once it is known which disks the set has left.
abbrev pub realigned : List BackupDisk → Option ℕ → Option ℕ
realigned remaining none = none
realigned remaining (some a) =
    if any (λ d. d.id == a) remaining then some a else first_disk_id remaining

abbrev pub flag_if_empty : List BackupDisk → Group → Group
flag_if_empty [] g = record g { needs_disk = true }
flag_if_empty (d ∷ ds) g = g

unfoldable pub realign_set : BackupSet → Db → Db
realign_set bset db =
    let remaining = set_disks bset.id db in
    update_group bset.group_id (flag_if_empty remaining) (
      update_set_row bset.id
        (λ s. record s { active_disk_id = realigned remaining s.active_disk_id }) db)

-- The other set that holds the disk, if it is still there.
abbrev pub previous_set : BackupSet → BackupDisk → Db → Option BackupSet
previous_set bset rec db = elim rec.backup_set_id [
  | none ↦ none
  | some old ↦ if old == bset.id then none else find? (λ s. s.id == old) db.sets
]

abbrev or_else : Option ℕ → ℕ → Option ℕ
or_else none n = some n
or_else (some m) n = some m

-- the disk filed under the set, which points at it if it pointed nowhere
abbrev pub file_disk : ℕ → ℕ → Db → Db
file_disk set_id disk_id db =
    update_set_row set_id (λ s. record s { active_disk_id = or_else s.active_disk_id disk_id })
      (update_disk_row disk_id (λ d. record d { backup_set_id = some set_id }) db)

abbrev pub realign_previous : Option BackupSet → Db → Db
realign_previous none db = db
realign_previous (some s) db = realign_set s db

unfoldable pub attach_disk : ℕ → ℕ → Act ℕ
unfolding realign_set ◌>>=◌
attach_disk set_id backup_disk_id = do
  bset ← get_set set_id
  rec ← get_disk backup_disk_id
  previous ← gets (previous_set bset rec)
  modify (file_disk bset.id rec.id)
  modify (realign_previous previous)
  pure bset.id

-- The part of `deregister_backup_disk` that is about the tables.
abbrev realign_owner : BackupDisk → Option BackupSet → Db → Db
realign_owner rec none db = db
realign_owner rec (some bset) db =
    let remaining = select (λ d. holds d.backup_set_id bset.id && not (d.id == rec.id)) db.disks in
    if holds bset.active_disk_id rec.id
    then update_group bset.group_id (flag_if_empty remaining)
        (update_set_row bset.id (λ s. record s { active_disk_id = first_disk_id remaining }) db)
    else db

abbrev owner : Option ℕ → Db → Option BackupSet
owner none db = none
owner (some set_id) db = find? (λ s. s.id == set_id) db.sets

abbrev set_of : BackupDisk → Db → Option BackupSet
set_of rec db = owner rec.backup_set_id db

unfoldable pub deregister_backup_disk : ℕ → Act Unit
unfolding ◌>>=◌
deregister_backup_disk backup_disk_id = do
  rec ← λ db. or_raise (find? (λ d. d.id == backup_disk_id) db.disks) disk_not_found db
  modify (λ db. record db { runs = select (λ r. not (r.backup_disk_id == backup_disk_id)) db.runs })
  modify (λ db. realign_owner rec (set_of rec db) db)
  modify (λ db. record db {
    disks = select (λ d. not (d.id == rec.id)) db.disks;
    -- ON DELETE SET NULL
    sessions =
        update_where (λ s. holds s.backup_disk_id rec.id) (λ s. record s { backup_disk_id = none })
          db.sessions;
  })

abbrev succeeded : RunStatus → Bool
succeeded RunStatus.success = true
succeeded _ = false

abbrev mem_name : String → List String → Bool
mem_name n names = any (λ m. str_eq m n) names

abbrev with_name : String → List String → List String
with_name n names = if mem_name n names then names else names ++ n ∷ []

-- `x in streams`, for a snapshot column that may be NULL
abbrev same_text : Option String → Option String → Bool
same_text none none = true
same_text (some a) (some b) = str_eq a b
same_text _ _ = false

-- the first loop, for the datasets that have a stream on the disk
on_disk : ℕ → List Run → List String → List String
on_disk disk_id [] chain = chain
on_disk disk_id (r ∷ runs) chain = on_disk disk_id runs (
    if r.backup_disk_id == disk_id && succeeded r.status
    then with_name r.dataset_name chain
    else chain)

streams_on_disk : ℕ → List Run → List (Option String)
streams_on_disk disk_id runs =
    map (λ r. r.snapshot) (select (λ r. r.backup_disk_id == disk_id && succeeded r.status) runs)

-- the second loop, for those that build on such a stream
built_on : ℕ → List (Option String) → List Run → List String → List String
built_on disk_id streams [] chain = chain
built_on disk_id streams (r ∷ runs) chain = built_on disk_id streams runs (
    if succeeded r.status
      && not (r.backup_disk_id == disk_id)
      && (any (same_text r.base_snapshot) streams || any (same_text r.full_anchor) streams)
    then with_name r.dataset_name chain
    else chain)

unfoldable pub chain_dependencies : ℕ → ℕ → Db → List String
unfolding on_disk built_on streams_on_disk
chain_dependencies set_id disk_id db =
    let runs = select (λ r. holds r.backup_set_id set_id) db.runs in
    built_on disk_id (streams_on_disk disk_id runs) runs (on_disk disk_id runs [])

-- The service has a ZFS backup manager, which the application always gives it: without one
-- `_deregister_disk` returns at once.
unfoldable pub detach_disk : ℕ → ℕ → Act (List String)
unfolding deregister_backup_disk ◌>>=◌
detach_disk set_id backup_disk_id = do
  bset ← get_set set_id
  rec ← λ db.
      or_raise (find? (λ d. d.id == backup_disk_id && holds d.backup_set_id bset.id) db.disks)
        disk_not_in_set db
  busy ← gets (is_session_running bset.group_id)
  guard_not busy session_running
  broken ← gets (chain_dependencies bset.id backup_disk_id)
  modify (update_disk_row rec.id (λ d. record d { backup_set_id = none }))
  deregister_backup_disk backup_disk_id
  pure broken

abbrev pub next_place : Option ℕ → Option ℕ
next_place none = none
next_place (some i) = some (suc i)

abbrev pub index_of_disk : ℕ → List BackupDisk → Option ℕ
index_of_disk n [] = none
index_of_disk n (d ∷ ds) =
    let rest = next_place (index_of_disk n ds) in if d.id == n then some 0 else rest

-- the place in `disks` of the disk that comes after the pointer, round the end
abbrev next_index : List BackupDisk → Option ℕ → ℕ
next_index disks none = 0
next_index disks (some a) = elim (index_of_disk a disks) [
  | none ↦ 0
  | some i ↦ (i + 1) % length disks
]

abbrev nth_id : List BackupDisk → ℕ → Option ℕ
nth_id [] i = none
nth_id (d ∷ ds) zero = some d.id
nth_id (d ∷ ds) (suc i) = nth_id ds i

unfoldable pub advance_disk : ℕ → Act ℕ
unfolding ◌>>=◌
advance_disk set_id = do
  bset ← get_set set_id
  busy ← gets (is_session_running bset.group_id)
  guard_not busy session_running
  disks ← gets (set_disks set_id)
  guard_not (is_empty disks) no_disks
  modify (
      update_set_row bset.id
        (λ s. record s { active_disk_id = nth_id disks (next_index disks bset.active_disk_id) }))
  pure set_id

unfoldable pub set_active_disk : ℕ → ℕ → Act ℕ
unfolding ◌>>=◌
set_active_disk set_id backup_disk_id = do
  bset ← get_set set_id
  busy ← gets (is_session_running bset.group_id)
  guard_not busy session_running
  rec ← λ db.
      or_raise (find? (λ d. d.id == backup_disk_id && holds d.backup_set_id bset.id) db.disks)
        disk_not_in_set db
  modify (update_set_row bset.id (λ s. record s { active_disk_id = some rec.id }))
  pure bset.id
