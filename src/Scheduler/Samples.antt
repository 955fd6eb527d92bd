-- ===== src/Scheduler/Samples.antt =====
-- A nightly snapshot task, with and without a history.
use text.Mathlib.Text.{find? as find_text}
use nazman.Prelude.{
  ℕ, ◌≡◌, refl, String, Bool, true, false, ◌&&◌, leb, any, last?, Option, none, some, List, [], ◌∷◌,
  ℤ, pos, Result, ok, err, select, not, str_eq, ◌==◌, if◌then◌else◌,
}
use nazman.Prelude.Occurs.{Occurs}
use nazman.Scheduler.{
  HistoryStatus, Task, History, State, Work, integrity_error, update_task, delete_task, perform,
  execute_task,
}
use nazman.Scheduler.Executions.{status_of, is_accepted, execute_task_lem, update_task_lem}
use nazman.Scheduler.Deletions.{delete_task-execute_task}

abbrev nightly : Task
nightly = record {
  id = 4;
  name = "nightly";
  task_type = "snapshot";
  target = "tank/a";
  schedule = "0 3 * * *";
  enabled = true;
  config = some (record { group_id = none; kind = none; retention = some (pos 2) });
  last_run = none;
}

abbrev ran : History
ran = record {
  id = 1;
  task_id = 4;
  started_at = 10;
  completed_at = some 11;
  status = HistoryStatus.success;
  error = none;
}

-- the world is the list of snapshots
abbrev three_snaps : List String
three_snaps = "tank/a@auto-1" ∷ "tank/a@mine" ∷ "tank/a@auto-2" ∷ "tank/a@auto-3" ∷ []

abbrev sample_state : State (List String)
sample_state = record {
  tasks = nightly ∷ [];
  history = ran ∷ [];
  next_id = 9;
  jobs = (4, "0 3 * * *") ∷ [];
  alerts = [];
  world = three_snaps;
}

abbrev sample_work : Work (List String)
sample_work = record {
  executor = λ kind. none;
  scrub = λ pool w. (ok tt, w);
  take_snapshot = λ ds w. (ok tt, w);
  health_check = λ pool w. (err "not online", w);
  list_snapshots = λ ds w. some w;
  destroy = λ s w. select (λ t. not (str_eq t s)) w;
}

two_kept :
    (execute_task sample_work 20 4 sample_state).world
    ≡ "tank/a@mine" ∷ "tank/a@auto-2" ∷ "tank/a@auto-3" ∷ []
unfolding execute_task nazman.Prelude.Order.sort
two_kept = refl

execute_task_example :
    (h : History) × (last? (execute_task sample_work 20 4 sample_state).history ≡ some h)
    × (h.task_id ≡ 4)
    × (h.completed_at ≡ some 20)
    × (h.status ≡ status_of (perform sample_work nightly three_snaps).0)
execute_task_example = execute_task_lem sample_work 20 4 sample_state nightly refl

-- the same task before it has run
abbrev fresh_state : State (List String)
fresh_state = record sample_state { history = []; jobs = (3, "0 1 * * *") ∷ (4, "0 3 * * *") ∷ [] }

delete_task-execute_task_example :
    ((delete_task 4 (execute_task sample_work 20 4 fresh_state)).0 ≡ err integrity_error)
    × ((delete_task 4 (execute_task sample_work 20 4 fresh_state)).1.tasks
        ≡ (execute_task sample_work 20 4 fresh_state).tasks)
    × ((delete_task 4 (execute_task sample_work 20 4 fresh_state)).1.history
        ≡ (execute_task sample_work 20 4 fresh_state).history)
    × ((delete_task 4 (execute_task sample_work 20 4 fresh_state)).1.jobs ≡ (3, "0 1 * * *") ∷ [])
delete_task-execute_task_example =
    delete_task-execute_task sample_work 20 4 fresh_state nightly refl

abbrev sample_digit : ℕ → Bool
sample_digit c = leb 48 c && leb c 57

abbrev accepts_all : String → Bool
accepts_all schedule = true

update_task_example :
    (select
        (λ j. j.0 == 4)
        (update_task accepts_all sample_digit 4 (some "weekly") none none none fresh_state).1.jobs
      ≡ (if true && is_accepted accepts_all (record nightly { name = "weekly" })
          then (4, "0 3 * * *") ∷ []
          else []))
    × (select
          (λ j. not (j.0 == 4))
          (update_task accepts_all sample_digit 4 (some "weekly") none none none fresh_state).1.jobs
        ≡ (3, "0 1 * * *") ∷ [])
unfolding update_task
update_task_example =
    update_task_lem accepts_all sample_digit 4 (some "weekly") none none none fresh_state
      (record nightly { name = "weekly" }) refl
