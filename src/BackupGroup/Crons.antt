-- ===== src/BackupGroup/Crons.antt =====
-- nazman/services/backup_group_service.py, `sync_scheduled_tasks`: the scheduled jobs of the groups,
-- reconciled with the tasks of nazman/managers/scheduler.py. It is modelled with a scheduler at
-- hand; without one the method returns at once.
pub mod Rounds
pub mod Loop
pub mod Deletions
pub mod Jobs
mod Samples
use nazman.Prelude.{
  ℕ, zero, suc, ◌+◌, ◌/◌, ◌%◌, String, Bool, true, false, not, ◌&&◌, ◌||◌, Option, none, some, List,
  [], ◌∷◌, ◌++◌, select, find?, any, is_some, is_empty, ltb, Result, ok, err, Exec, ◌>>=◌, ◌==◌,
  str_eq, str_eq_iff, if◌then◌else◌, get_elem?, option_or_none,
}
use nazman.Prelude.Decimal.{decimal}
use nazman.Prelude.Keyed.{Keys, find_key, set_all}
use Prim.Native.String.{◌++◌ as ◌<>◌}
use nazman.BackupGroup.Rows.{Db, Group}
use nazman.BackupGroup.Tables.{group_datasets}
use nazman.Scheduler.{Config, Task, State, Error, Act, create_task, update_task, delete_task}

-- A job that a group wants.
pub record Wanted : Type 0 where
  pub name : String
  pub group_id : ℕ
  pub kind : String
  pub cron : String
  pub title : String

abbrev pub names : Keys String
names = record { same = str_eq; same_iff = str_eq_iff }

abbrev pub wanted_name : Wanted → String
wanted_name w = w.name

abbrev pub task_name : Task → String
task_name t = t.name

abbrev pub wanted_by : Group → String → Option String → List Wanted
wanted_by g kind none = []
wanted_by g kind (some cron) =
    record {
      name = "backup-group-" <> (decimal g.id <> ("-" <> kind));
      group_id = g.id;
      kind = kind;
      cron = cron;
      title = "Backup group '" <> (g.name <> ("' (" <> (kind <> ")")));
    }
    ∷ []

abbrev pub wanted_of : Db → List Group → List Wanted
wanted_of db [] = []
wanted_of db (g ∷ gs) =
    let rest = wanted_of db gs in
    if not g.enabled || is_empty (group_datasets g.id db)
    then rest
    else wanted_by g "full" (option_or_none g.full_cron)
      ++ (wanted_by g "incremental" (option_or_none g.incremental_cron) ++ rest)

-- `desired`, a dictionary by the names of the jobs
unfoldable pub desired : Db → List Wanted
unfolding group_datasets
desired db = set_all names wanted_name (wanted_of db db.groups) []

abbrev pub is_backup : Task → Bool
is_backup t = str_eq t.task_type "zfs_backup"

-- `existing`, likewise
abbrev pub existing_tasks : List Task → List Task
existing_tasks tasks = set_all names task_name (select is_backup tasks) []

abbrev pub config_of : Wanted → Config
config_of w = record { group_id = some w.group_id; kind = some w.kind; retention = none }

abbrev same_number : Option ℕ → ℕ → Bool
same_number none n = false
same_number (some m) n = m == n

abbrev same_text : Option String → String → Bool
same_text none t = false
same_text (some s) t = str_eq s t

abbrev pub same_config : Option Config → Wanted → Bool
same_config none w = false
same_config (some c) w =
    same_number c.group_id w.group_id && same_text c.kind w.kind && not (is_some c.retention)

-- the task of a job, as it is wanted
abbrev pub is_job : Wanted → Task → Bool
is_job w t =
    is_backup t && str_eq t.name w.name && str_eq t.schedule w.cron && same_config t.config w

abbrev pub is_desired : List Wanted → Task → Bool
is_desired wanted t = is_some (find_key names wanted_name t.name wanted)

module _ {W : Type 0} where
  unfoldable pub delete_unwanted : List Wanted → List Task → Act W Unit
  unfolding delete_task ◌>>=◌
  delete_unwanted wanted [] s = (ok tt, s)
  delete_unwanted wanted (t ∷ ts) s =
      if is_desired wanted t
      then delete_unwanted wanted ts s
      else (delete_task t.id >>= λ _. delete_unwanted wanted ts) s

module _ {W : Type 0} (cron_accepts : String → Bool) (digit : ℕ → Bool) where
  -- one round of the loop, whose exceptions are logged and dropped
  abbrev pub reconcile_found : Wanted → Option Task → State W → State W
  reconcile_found w none s =
      (create_task cron_accepts digit w.name "zfs_backup" w.title w.cron (some (config_of w)) s).1
  reconcile_found w (some t) s =
      if not (str_eq t.schedule w.cron) || not (same_config t.config w)
      then (update_task cron_accepts digit t.id none (some w.cron) none (some (config_of w)) s).1
      else s

  unfoldable pub reconcile : List Task → List Wanted → State W → State W
  unfolding create_task update_task
  reconcile existing [] s = s
  reconcile existing (w ∷ ws) s =
      reconcile existing ws (reconcile_found w (find_key names task_name w.name existing) s)

  unfoldable pub sync_scheduled_tasks : Db → Act W Unit
  unfolding reconcile delete_unwanted desired
  sync_scheduled_tasks db s =
      let existing = existing_tasks s.tasks in
      delete_unwanted (desired db) existing (reconcile existing (desired db) s)
