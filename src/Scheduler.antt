-- ===== src/Scheduler.antt =====
-- nazman/managers/scheduler.py: the scheduled tasks, their jobs and their history. What APScheduler
-- accepts as a trigger, the executors and the commands are parameters.
pub mod Executions
pub mod Deletions
pub mod Retention
mod Samples
use nazman.Prelude.{
  ℕ, zero, suc, ◌+◌, ◌-◌, ℤ, pos, negsuc, String, Bool, true, false, not, ◌&&◌, Option, none, some,
  List, [], ◌∷◌, ◌++◌, find?, select, any, update_where, length, drop, is_some, Result, ok, err,
  Exec, pure, raise, gets, modify, ◌>>=◌, ◌>>◌, or_raise, guard_not, ◌==◌, str_eq, if◌then◌else◌,
  strip,
}
use nazman.Prelude.Order.{sort}
use nazman.Prelude.Texts.{words}
use nazman.Validation.{Invalid, validate_schedule}
use text.Mathlib.Text.{is_le, find? as find_text}
use Prim.Native.String.{compare}

pub data HistoryStatus : Type 0 where
  running success failed : HistoryStatus

pub record Config : Type 0 where
  pub group_id : Option ℕ
  pub kind : Option String
  pub retention : Option ℤ

pub record Task : Type 0 where
  pub id : ℕ
  pub name : String
  pub task_type : String
  pub target : String
  pub schedule : String
  pub enabled : Bool
  pub config : Option Config
  pub last_run : Option ℕ

pub record History : Type 0 where
  pub id : ℕ
  pub task_id : ℕ
  pub started_at : ℕ
  pub completed_at : Option ℕ
  pub status : HistoryStatus
  pub error : Option String

pub data Error : Type 0 where
  invalid : Invalid → Error
  task_not_found : ℕ → Error
  -- a row of another table refers to the row
  integrity_error : Error

pub record State (W : Type 0) : Type 0 where
  pub tasks : List Task
  pub history : List History
  pub next_id : ℕ
  -- the jobs of APScheduler, by the id of their task
  pub jobs : List (ℕ × String)
  pub alerts : List String
  pub world : W

abbrev pub Act : Type 0 → Type 0 → Type 0
Act W A = Exec (State W) Error A

abbrev pub without : ℕ → List (ℕ × String) → List (ℕ × String)
without task_id jobs = select (λ j. not (j.0 == task_id)) jobs

-- `replace_existing=True`; a schedule that APScheduler does not take leaves the jobs alone
unfoldable pub schedule_task : (String → Bool) → Task → List (ℕ × String) → List (ℕ × String)
schedule_task cron_accepts task jobs =
    if length (words task.schedule) == 5 && cron_accepts task.schedule
    then without task.id jobs ++ (task.id, task.schedule) ∷ []
    else jobs

abbrev pub valid : Result Invalid String → {W : Type 0} → Act W Unit
valid (ok s) = pure tt
valid (err e) = raise (invalid e)

abbrev pub with_jobs : {W : Type 0} → (List (ℕ × String) → List (ℕ × String)) → Act W Unit
with_jobs f = modify (λ s. record s { jobs = f s.jobs })

abbrev pub if_given {ℓ} : {A : Type ℓ} → Option A → A → A
if_given none old = old
if_given (some new) old = new

abbrev pub or_old {ℓ} : {A : Type ℓ} → Option A → Option A → Option A
or_old none old = old
or_old (some new) old = some new

abbrev pub scheduled_if : (String → Bool) → Bool → Task → List (ℕ × String) → List (ℕ × String)
scheduled_if cron_accepts true task jobs = schedule_task cron_accepts task jobs
scheduled_if cron_accepts false task jobs = jobs

module _ {W : Type 0} (cron_accepts : String → Bool) (digit : ℕ → Bool) where
  abbrev pub check_given : Option String → Act W Unit
  check_given none = pure tt
  check_given (some schedule) = valid (validate_schedule digit schedule)

  unfoldable pub create_task : String → String → String → String → Option Config → Act W Task
  unfolding schedule_task ◌>>=◌
  create_task name task_type target schedule config = do
    valid (validate_schedule digit schedule)
    n ← gets (λ s. s.next_id)
    let task : Task = record {
      id = n;
      name = name;
      task_type = task_type;
      target = target;
      schedule = schedule;
      enabled = true;
      config = config;
      last_run = none;
    }
    modify (λ s. record s { tasks = s.tasks ++ task ∷ []; next_id = s.next_id + 1 })
    with_jobs (schedule_task cron_accepts task)
    pure task

  -- the task with its changes, its old job replaced by a new one if it is enabled
  abbrev pub put_back : Task → Act W Task
  put_back task = do
    with_jobs (without task.id)
    with_jobs (scheduled_if cron_accepts task.enabled task)
    modify (λ s. record s { tasks = update_where (λ t. t.id == task.id) (λ _. task) s.tasks })
    pure task

  unfoldable pub update_task :
      ℕ → Option String → Option String → Option Bool → Option Config → Act W Task
  unfolding schedule_task ◌>>=◌
  update_task task_id name schedule enabled config = do
    old ← λ s. or_raise (find? (λ t. t.id == task_id) s.tasks) (task_not_found task_id) s
    check_given schedule
    put_back (record old {
      name = if_given name old.name;
      schedule = if_given schedule old.schedule;
      enabled = if_given enabled old.enabled;
      config = or_old config old.config;
    })

-- The job goes first. The rows of the history refer to the task and nothing removes them, so the
-- database refuses to delete a task that has run.
unfoldable pub delete_task : {W : Type 0} → ℕ → Act W Unit
unfolding ◌>>=◌
delete_task task_id = do
  task ← λ s. or_raise (find? (λ t. t.id == task_id) s.tasks) (task_not_found task_id) s
  with_jobs (without task.id)
  used ← gets (λ s. any (λ h. h.task_id == task.id) s.history)
  guard_not used integrity_error
  modify (λ s. record s { tasks = select (λ t. not (t.id == task.id)) s.tasks })

-- What a task runs: an injected executor of its type, or one of the scheduler's own.
pub record Work (W : Type 0) : Type 0 where
  pub executor : String → Option (Task → W → Result String Unit × W)
  pub scrub : String → W → Result String Unit × W
  pub take_snapshot : String → W → Result String Unit × W
  pub health_check : String → W → Result String Unit × W
  -- the lines of `zfs list -t snapshot`, and nothing where the command fails
  pub list_snapshots : String → W → Option (List String)
  pub destroy : String → W → W

abbrev text_ge : String → String → Bool
text_ge s t = is_le (compare t s)

-- `xs[n:]`
abbrev pub slice_from {ℓ} : {A : Type ℓ} → ℤ → List A → List A
slice_from (pos n) xs = drop n xs
slice_from (negsuc n) xs = drop (length xs - suc n) xs

abbrev pub is_auto : String → Bool
is_auto s = is_some (find_text s "@auto-")

-- the automatic snapshots that are there, the newest first
unfoldable pub auto_snaps : List String → List String
auto_snaps lines = sort text_ge (select is_auto (select (λ s. not (str_eq s "")) lines))

unfoldable pub expired : ℤ → List String → List String
unfolding auto_snaps
expired retention lines = slice_from retention (auto_snaps lines)

module _ {W : Type 0} (work : Work W) where
  unfoldable pub destroy_each : List String → W → W
  destroy_each [] w = w
  destroy_each (s ∷ ss) w = destroy_each ss (work.destroy s w)

  unfoldable pub apply_retention : String → ℤ → W → W
  unfolding expired destroy_each
  apply_retention dataset_name retention w = elim (work.list_snapshots dataset_name w) [
    | none ↦ w
    | some lines ↦ destroy_each (expired retention lines) w
  ]

  abbrev retained : String → Option Config → W → W
  retained dataset_name none w = w
  retained dataset_name (some c) w = elim c.retention [
    | none ↦ w
    | some n ↦ apply_retention dataset_name n w
  ]

  abbrev after_snapshot : String → Option Config → Result String Unit × W → Result String Unit × W
  after_snapshot dataset_name config (err e, w) = (err e, w)
  after_snapshot dataset_name config (ok u, w) = (ok u, retained dataset_name config w)

  unfoldable pub execute_snapshot : String → Option Config → W → Result String Unit × W
  unfolding apply_retention
  execute_snapshot dataset_name config w =
      after_snapshot dataset_name config (work.take_snapshot dataset_name w)

  abbrev own_work : Task → W → Result String Unit × W
  own_work task w =
      if str_eq task.task_type "scrub"
      then work.scrub task.target w
      else if str_eq task.task_type "snapshot"
      then execute_snapshot task.target task.config w
      else if str_eq task.task_type "health_check"
      then work.health_check task.target w
      else (err "No executor registered for task type", w)

  unfoldable pub perform : Task → W → Result String Unit × W
  unfolding execute_snapshot
  perform task w = elim (work.executor task.task_type) [
    | none ↦ own_work task w
    | some run ↦ run task w
  ]

  abbrev pub entry : ℕ → Task → ℕ → History
  entry now task n = record {
    id = n;
    task_id = task.id;
    started_at = now;
    completed_at = none;
    status = HistoryStatus.running;
    error = none;
  }

  -- the end of an execution, by what came of the work
  abbrev pub ended : ℕ → Task → History → Result String Unit → State W → State W
  ended now task h (ok u) s = record s {
    history =
        s.history ++ record h { status = HistoryStatus.success; completed_at = some now } ∷ [];
    tasks = update_where (λ t. t.id == task.id) (λ t. record t { last_run = some now }) s.tasks;
  }
  ended now task h (err e) s = record s {
    history =
        s.history
        ++ record h { status = HistoryStatus.failed; error = some e; completed_at = some now } ∷ [];
    alerts = s.alerts ++ task.name ∷ [];
  }

  abbrev pub executed : ℕ → Task → State W → State W
  executed now task s =
      let (r, w) = perform task s.world in
      ended now task (entry now task s.next_id) r (record s { next_id = s.next_id + 1; world = w })

  -- a task that is gone is passed over
  abbrev pub executed_if : ℕ → Option Task → State W → State W
  executed_if now none s = s
  executed_if now (some task) s = executed now task s

  unfoldable pub execute_task : ℕ → ℕ → State W → State W
  unfolding perform
  execute_task now task_id s = executed_if now (find? (λ t. t.id == task_id) s.tasks) s
