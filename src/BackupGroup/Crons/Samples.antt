-- ===== src/BackupGroup/Crons/Samples.antt =====
-- A group with a weekly and a daily job, and a task that is left from a group that is gone.
use nazman.Prelude.{
  ◌≡◌, refl, String, ℕ, Bool, true, false, none, some, [], ◌∷◌, map, any, select, ok, leb, ◌&&◌,
  arith, All,
}
use nazman.Prelude.Decimal.{decimal}
use nazman.Scheduler.{Task, State}
use nazman.BackupGroup.Rows.{Db}
use nazman.BackupGroup.Crons.{desired, is_backup, is_job, is_desired, sync_scheduled_tasks}
use nazman.BackupGroup.Crons.Rounds.{is_valid}
use nazman.BackupGroup.Crons.Jobs.{sync_scheduled_tasks_lem}

number_text : decimal 40 ≡ "40"
number_text = refl

abbrev task : ℕ → String → String → Task
task id name schedule = record {
  id = id;
  name = name;
  task_type = "zfs_backup";
  target = "Backup group 'photos' (full)";
  schedule = schedule;
  enabled = true;
  config = none;
  last_run = none;
}

abbrev state : State Unit
state = record {
  tasks =
      task 1 "backup-group-7-full" "0 3 * * 0"
      ∷ task 2 "backup-group-9-full" "0 4 * * *"
      ∷ record (task 3 "scrub" "0 5 * * *") { task_type = "scrub" }
      ∷ [];
  history = [];
  next_id = 4;
  jobs = [];
  alerts = [];
  world = tt;
}

abbrev photos : Db
photos = record {
  groups =
      record {
        id = 7;
        name = "photos";
        full_cron = some "0 2 * * 0";
        incremental_cron = some "0 2 * * 1";
        enabled = true;
        active_set_id = none;
        needs_disk = false;
        copies = 1;
        recycle_full_disks = false;
        last_session_at = none;
      }
      ∷ [];
  datasets = record { id = 3; group_id = 7; dataset_name = "tank/a" } ∷ [];
  sets = [];
  disks = [];
  sessions = [];
  runs = [];
  next_id = 8;
}

abbrev is_digit : ℕ → Bool
is_digit c = leb 48 c && leb c 57

wanted_jobs :
    map (λ w. w.name) (desired photos) ≡ "backup-group-7-full" ∷ "backup-group-7-incremental" ∷ []
unfolding desired
wanted_jobs = refl

sync_scheduled_tasks_example :
    let (r, s') = sync_scheduled_tasks (λ c. true) is_digit photos state in
    (r ≡ ok tt)
    × All (λ w. any (is_job w) s'.tasks ≡ true) (select (is_valid is_digit) (desired photos))
    × All (λ t. is_desired (desired photos) t ≡ true) (select is_backup s'.tasks)
unfolding desired
sync_scheduled_tasks_example =
    sync_scheduled_tasks_lem (λ c. true) is_digit photos state
      (record {
        keyed = (refl, (refl, (refl, tt)));
        below = (omega arith, (omega arith, (omega arith, tt)));
        named = (refl, (refl, tt));
      })
      (refl, (refl, tt))
