-- ===== src/BackupGroup/Sets.antt =====
-- The sets of a group, nazman/services/backup_group_service.py: `create_set`, `update_set`,
-- `delete_set`, `activate_set` and `_renumber`.
pub mod Collisions
pub mod Renumber
pub mod Pointer
use nazman.Prelude.{
  ℕ, zero, suc, ◌+◌, ℤ, pos, negsuc, String, Bool, true, false, strip, or_none, option_or_none,
  Option, none, some, List, [], ◌∷◌, map, find?, select, any, update_where, last?, head?, guard_not,
  pure, raise, gets, modify, Exec, Result, ok, err, ◌>>=◌, ◌>>◌, leb, ltb, ◌==◌, holds, not, ◌&&◌,
  ◌||◌, ◌++◌, if◌then◌else◌,
}
use nazman.Prelude.Order.{sort}
use nazman.BackupGroup.Rows.{Db, Group, BackupSet, BackupDisk, Session, Run}
use nazman.BackupGroup.Tables.{
  Act, Error, get_group, get_set, group_sets, is_session_running, update_group, update_set_row,
  negative_position, position_used, session_running, integrity_error,
}

-- ORDER BY position, id
abbrev by_position_and_id : BackupSet → BackupSet → Bool
by_position_and_id a b = ltb a.position b.position || (a.position == b.position && leb a.id b.id)

unfoldable pub renumber_order : ℕ → Db → List BackupSet
renumber_order group_id db = sort by_position_and_id (select (λ s. s.group_id == group_id) db.sets)

-- `for index, bset in enumerate(sets): bset.position = index`
unfoldable pub numbered : ℕ → List BackupSet → List BackupSet
numbered index [] = []
numbered index (s ∷ ss) = record s { position = index } ∷ numbered (suc index) ss

-- A row of the table, as the ORM writes it back.
abbrev pub written : List BackupSet → BackupSet → BackupSet
written rows s = elim (find? (λ r. r.id == s.id) rows) [ none ↦ s | some r ↦ r ]

unfoldable pub renumbered : ℕ → Db → Db
unfolding renumber_order numbered
renumbered group_id db = record db {
  sets = map (written (numbered 0 (renumber_order group_id db))) db.sets;
}

-- the rows whose position changes, with the new one
unfoldable pub moved : ℕ → List BackupSet → List BackupSet
moved index [] = []
moved index (s ∷ ss) =
    let rest = moved (suc index) ss in
    if s.position == index then rest else record s { position = index } ∷ rest

abbrev by_id : BackupSet → BackupSet → Bool
by_id a b = leb a.id b.id

-- another row of the group stands at the position: UNIQUE(group_id, position)
abbrev is_taken : BackupSet → List BackupSet → Bool
is_taken s rows =
    any (λ r. r.group_id == s.group_id && r.position == s.position && not (r.id == s.id)) rows

-- Whether the database refuses one of the updates, which are sent one after the other.
unfoldable pub collides : List BackupSet → List BackupSet → Bool
collides [] rows = false
collides (s ∷ ss) rows =
    is_taken s rows
    || collides ss (update_where (λ r. r.id == s.id) (λ r. record r { position = s.position }) rows)

-- The ORM writes the changed rows in the order of their ids. If one is refused, the commit raises
-- and none is written.
unfoldable pub renumber : ℕ → Act Unit
unfolding renumber_order moved collides renumbered ◌>>=◌
renumber group_id = do
  refused ← gets (λ db. collides (sort by_id (moved 0 (renumber_order group_id db))) db.sets)
  guard_not refused integrity_error
  modify (renumbered group_id)

-- `(existing[-1].position + 1) if existing else 0`
abbrev end_of_cycle : Option BackupSet → ℕ
end_of_cycle none = 0
end_of_cycle (some s) = s.position + 1

-- `int(position)`, refused below zero
abbrev checked_position : Option ℤ → List BackupSet → Act ℕ
checked_position none existing = pure (end_of_cycle (last? existing))
checked_position (some (pos n)) existing = pure n
checked_position (some (negsuc n)) existing = raise negative_position

abbrev insert_set : BackupSet → Db → Db
insert_set s db = record db { sets = db.sets ++ s ∷ []; next_id = db.next_id + 1 }

unfoldable pub create_set : ℕ → Option String → Option ℤ → Act BackupSet
unfolding ◌>>=◌
create_set group_id label position = do
  group ← get_group group_id
  existing ← gets (group_sets group_id)
  n ← checked_position position existing
  guard_not (any (λ s. s.position == n) existing) position_used
  new_id ← gets (λ db. db.next_id)
  modify (
      insert_set (record {
        id = new_id;
        group_id = group.id;
        position = n;
        label = option_or_none label;
        active_disk_id = none;
        last_used_at = none;
      }))
  renumber group_id
  modify (elim group.active_set_id [
    | none ↦ update_group group_id (λ g. record g { active_set_id = some new_id })
    | some _ ↦ λ db. db
  ])
  get_set new_id

-- The label to keep: `label.strip() or None` where one is given.
abbrev new_label : Option String → Option String → Option String
new_label none old = old
new_label (some label) old = or_none (strip label)

abbrev new_position : BackupSet → Option ℤ → List BackupSet → Act ℕ
new_position bset none siblings = pure bset.position
new_position bset (some (negsuc n)) siblings = raise negative_position
new_position bset (some (pos n)) siblings = do
  guard_not (any (λ s. s.position == n && not (s.id == bset.id)) siblings) position_used
  pure n

-- What a refused call has assigned is never committed, so the tests come first here.
unfoldable pub update_set : ℕ → Option String → Option ℤ → Act BackupSet
unfolding renumber ◌>>=◌
update_set set_id label position = do
  bset ← get_set set_id
  siblings ← gets (group_sets bset.group_id)
  n ← new_position bset position siblings
  modify (update_set_row set_id (λ s. record s { label = new_label label s.label; position = n }))
  renumber bset.group_id
  get_set set_id

unfoldable pub activate_set : ℕ → Act (ℕ × Option ℕ)
unfolding ◌>>=◌
activate_set set_id = do
  bset ← get_set set_id
  group ← get_group bset.group_id
  modify
      (update_group group.id (λ g. record g { active_set_id = some bset.id; needs_disk = false }))
  pure (group.id, some bset.id)

-- The rows that go with a set: its runs, and, by ON DELETE CASCADE, its sessions and the runs of
-- those sessions, whatever set they were written to.
abbrev session_of_set : ℕ → List Session → Option ℕ → Bool
session_of_set set_id sessions none = false
session_of_set set_id sessions (some session_id) =
    any (λ s. s.id == session_id && holds s.backup_set_id set_id) sessions

abbrev drop_set : ℕ → Db → Db
drop_set set_id db = record db {
  runs =
      select
        (λ r. not (holds r.backup_set_id set_id || session_of_set set_id db.sessions r.session_id))
        db.runs;
  sessions = select (λ s. not (holds s.backup_set_id set_id)) db.sessions;
  disks =
      update_where (λ d. holds d.backup_set_id set_id) (λ d. record d { backup_set_id = none })
        db.disks;
  sets = select (λ s. not (s.id == set_id)) db.sets;
}

abbrev first_id : List BackupSet → Option ℕ
first_id [] = none
first_id (s ∷ ss) = some s.id

-- `active_set_id` after the set is gone: the first set that is left, if it pointed at it or nowhere
abbrev repaired : ℕ → List BackupSet → Option ℕ → Option ℕ
repaired set_id remaining none = first_id remaining
repaired set_id remaining (some a) = if a == set_id then first_id remaining else some a

unfoldable pub delete_set : ℕ → Act (Option ℕ)
unfolding renumber ◌>>=◌
delete_set set_id = do
  bset ← get_set set_id
  busy ← gets (is_session_running bset.group_id)
  guard_not busy session_running
  group ← get_group bset.group_id
  modify (drop_set set_id)
  renumber bset.group_id
  group' ← get_group bset.group_id
  remaining ← gets (group_sets bset.group_id)
  let active = repaired set_id remaining group'.active_set_id
  modify (update_group group'.id (λ g. record g { active_set_id = active; needs_disk = false }))
  pure active
