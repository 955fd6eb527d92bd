-- ===== src/BackupGroup/Groups.antt =====
-- The groups and their datasets, nazman/services/backup_group_service.py: `create_group`,
-- `update_group`, `delete_group`, `_link_dataset`, `add_dataset` and `remove_dataset`. The
-- reconciliation of the scheduled jobs that follows a change of a group is not part of them here,
-- it is modelled in Crons. A parameter is the digits of Unicode, as in the schedules' syntax.
pub mod Links
use nazman.Prelude.{
  ℕ, zero, suc, ◌+◌, String, strip, Bool, true, false, not, ◌&&◌, ◌||◌, Option, none, some, List,
  [], ◌∷◌, ◌++◌, select, any, update_where, is_some, Result, ok, err, pure, raise, gets, modify,
  ◌>>=◌, ◌>>◌, or_none, option_or_none, guard_not, ltb, ◌==◌, str_eq, holds, if◌then◌else◌,
}
use nazman.Prelude.Texts.{text_length}
use nazman.Validation.{Invalid, validate_schedule, validate_dataset_name}
use nazman.BackupGroup.Rows.{Db, Group, GroupDataset, BackupSet, BackupDisk, Session, Run}
use nazman.BackupGroup.Tables.{
  Act, get_group, group_datasets, is_session_running, update_group, session_running, invalid,
  no_name, long_name, name_used, no_copies, linked_twice,
}

abbrev valid : Result Invalid String → Act String
valid (ok s) = pure s
valid (err e) = raise (invalid e)

-- a schedule that is set has to parse
abbrev check_cron : (ℕ → Bool) → Option String → Act Unit
check_cron digit none = pure tt
check_cron digit (some cron) =
    if str_eq cron "" then pure tt else (valid (validate_schedule digit cron) >>= λ _. pure tt)

unfoldable pub check_crons : (ℕ → Bool) → Option String → Option String → Act Unit
unfolding ◌>>=◌
check_crons digit full_cron incremental_cron = do
  check_cron digit full_cron
  check_cron digit incremental_cron

abbrev pub add_row : ℕ → String → Db → Db
add_row group_id name db = record db {
  datasets =
      db.datasets ++ record { id = db.next_id; group_id = group_id; dataset_name = name } ∷ [];
  next_id = db.next_id + 1;
}

abbrev pub is_link : ℕ → String → GroupDataset → Bool
is_link group_id name d = d.group_id == group_id && str_eq d.dataset_name name

abbrev pub link_if_new : Bool → ℕ → String → Db → Db
link_if_new true group_id name db = db
link_if_new false group_id name db = add_row group_id name db

unfoldable pub link_dataset : ℕ → String → Act Unit
unfolding ◌>>=◌
link_dataset group_id dataset_name = do
  name ← valid (validate_dataset_name dataset_name)
  modify (λ db. link_if_new (any (is_link group_id name) db.datasets) group_id name db)

unfoldable pub add_dataset : ℕ → String → Act (List String)
unfolding link_dataset ◌>>=◌
add_dataset group_id dataset_name = do
  group ← get_group group_id
  link_dataset group.id dataset_name
  gets (group_datasets group_id)

unfoldable pub remove_dataset : ℕ → String → Act (List String)
unfolding ◌>>=◌
remove_dataset group_id dataset_name = do
  get_group group_id
  name ← valid (validate_dataset_name dataset_name)
  modify (λ db. record db { datasets = select (λ d. not (is_link group_id name d)) db.datasets })
  gets (group_datasets group_id)

-- The valid names of a list, in order; the first that is not valid raises.
unfoldable pub valid_names : List String → Act (List String)
unfolding ◌>>=◌
valid_names [] = pure []
valid_names (dataset ∷ rest) =
    let others = valid_names rest in
    do name ← valid (validate_dataset_name dataset); names ← others; pure (name ∷ names)

abbrev pub add_rows : ℕ → List String → Db → Db
add_rows group_id [] db = db
add_rows group_id (name ∷ names) db = add_rows group_id names (add_row group_id name db)

abbrev pub has_twice : List String → Bool
has_twice [] = false
has_twice (x ∷ xs) = any (λ y. str_eq y x) xs || has_twice xs

-- The group is committed before its datasets are linked. A name that is linked twice is not seen
-- until the rows are flushed, since the sessions do not autoflush, and then the constraint on the
-- table refuses both.
unfoldable pub create_group :
    (ℕ → Bool) → String → List String → Option String → Option String → Bool → ℕ → Bool → Act ℕ
unfolding check_crons valid_names ◌>>=◌
create_group digit name dataset_names full_cron incremental_cron enabled copies recycle = do
  guard_not (str_eq (strip name) "") no_name
  guard_not (ltb 100 (text_length (strip name))) long_name
  groups ← gets (λ db. db.groups)
  guard_not (any (λ g. str_eq g.name (strip name)) groups) name_used
  check_crons digit full_cron incremental_cron
  guard_not (ltb copies 1) no_copies
  new_id ← gets (λ db. db.next_id)
  modify (λ db. record db {
    groups =
        db.groups
        ++ record {
          id = new_id;
          name = strip name;
          full_cron = full_cron;
          incremental_cron = incremental_cron;
          enabled = enabled;
          active_set_id = none;
          needs_disk = false;
          copies = copies;
          recycle_full_disks = recycle;
          last_session_at = none;
        }
          ∷ [];
    next_id = new_id + 1;
  })
  names ← valid_names dataset_names
  guard_not (has_twice names) linked_twice
  modify (add_rows new_id names)
  pure new_id

abbrev named_by_other : ℕ → String → List Group → Bool
named_by_other group_id name groups = any (λ g. str_eq g.name name && not (g.id == group_id)) groups

-- The new values that are given, each of them optional.
pub record Changes : Type 0 where
  pub name : Option String
  pub full_cron : Option String
  pub incremental_cron : Option String
  pub enabled : Option Bool
  pub copies : Option ℕ
  pub recycle_full_disks : Option Bool

abbrev given {ℓ} : {A : Type ℓ} → Option A → A → A
given none old = old
given (some new) old = new

-- `value or None`, where one is given
abbrev given_or_none : Option String → Option String → Option String
given_or_none none old = old
given_or_none (some s) old = or_none s

abbrev either : Option String → Option String → Option String
either none old = old
either (some s) old = some s

abbrev check_name : ℕ → Option String → Act (Option String)
check_name group_id none = pure none
check_name group_id (some name) = do
  guard_not (str_eq (strip name) "") no_name
  groups ← gets (λ db. db.groups)
  guard_not (named_by_other group_id (strip name) groups) name_used
  pure (some (strip name))

abbrev check_new_crons : (ℕ → Bool) → Changes → Group → Act Unit
check_new_crons digit c g =
    if is_some c.full_cron || is_some c.incremental_cron
    then check_crons digit (either c.full_cron g.full_cron)
        (either c.incremental_cron g.incremental_cron)
    else pure tt

abbrev too_few : Option ℕ → Bool
too_few none = false
too_few (some n) = ltb n 1

-- What a refused call has assigned is never committed, so the tests come first here.
unfoldable pub change_group : (ℕ → Bool) → ℕ → Changes → Act Unit
unfolding check_crons ◌>>=◌
change_group digit group_id c = do
  group ← get_group group_id
  name ← check_name group_id c.name
  check_new_crons digit c group
  guard_not (too_few c.copies) no_copies
  modify (
      update_group group_id (λ g. record g {
        name = given name g.name;
        full_cron = given_or_none c.full_cron g.full_cron;
        incremental_cron = given_or_none c.incremental_cron g.incremental_cron;
        enabled = given c.enabled g.enabled;
        copies = given c.copies g.copies;
        recycle_full_disks = given c.recycle_full_disks g.recycle_full_disks;
      }))

abbrev set_in_group : ℕ → List BackupSet → Option ℕ → Bool
set_in_group group_id sets none = false
set_in_group group_id sets (some n) = any (λ s. s.id == n && s.group_id == group_id) sets

abbrev session_in_group : ℕ → List Session → Option ℕ → Bool
session_in_group group_id sessions none = false
session_in_group group_id sessions (some n) =
    any (λ s. s.id == n && s.group_id == group_id) sessions

-- The rows that go with a group by ON DELETE CASCADE: its datasets, its sets, its sessions and
-- its runs, and the runs of those sets and sessions. The disks of its sets stay, filed under no set.
unfoldable pub drop_group : ℕ → Db → Db
drop_group group_id db = record db {
  groups = select (λ g. not (g.id == group_id)) db.groups;
  datasets = select (λ d. not (d.group_id == group_id)) db.datasets;
  sets = select (λ s. not (s.group_id == group_id)) db.sets;
  disks =
      update_where (λ d. set_in_group group_id db.sets d.backup_set_id)
        (λ d. record d { backup_set_id = none }) db.disks;
  sessions = select (λ s. not (s.group_id == group_id)) db.sessions;
  runs =
      select
        (λ r. not (
          holds r.group_id group_id
          || set_in_group group_id db.sets r.backup_set_id
          || session_in_group group_id db.sessions r.session_id))
        db.runs;
}

unfoldable pub delete_group : ℕ → Act ℕ
unfolding drop_group ◌>>=◌
delete_group group_id = do
  group ← get_group group_id
  busy ← gets (is_session_running group_id)
  guard_not busy session_running
  modify (drop_group group.id)
  pure group_id
