-- ===== src/Scheduler/Executions.antt =====
-- What an execution leaves in the history, and which jobs a change leaves.
use nazman.Prelude.{
  ℕ, ◌≡◌, refl, sym, subst, String, Bool, true, false, ◌&&◌, Option, none, some, List, [], ◌∷◌,
  ◌++◌, find?, last?, length, Result, ok, err, ◌>>=◌, ◌==◌, ==_self, Bool-cases, ◌+◌, inl, inr,
  or_raise_ind, select, not, ◌∙◌, if◌then◌else◌,
}
use nazman.Prelude.Texts.{words}
use nazman.Validation.{Invalid, validate_schedule}
use nazman.Scheduler.{
  HistoryStatus, Task, History, State, Error, Act, Work, Config, task_not_found, without,
  schedule_task, scheduled_if, update_task, perform, entry, ended, executed_if, execute_task, valid,
  check_given,
}

-- the status that the result of the work stands for
abbrev pub status_of : Result String Unit → HistoryStatus
status_of (ok u) = HistoryStatus.success
status_of (err e) = HistoryStatus.failed

last?-append : (xs : List History) (h : History) → last? (xs ++ h ∷ []) ≡ some h
last?-append [] h = refl
last?-append (x ∷ []) h = refl
last?-append (x ∷ y ∷ xs) h = last?-append (y ∷ xs) h

module _ {W : Type 0} (work : Work W) (now : ℕ) where
  -- An execution of a task that exists is closed: the last entry of the history is of the task, has
  -- the time of its end, and is a success if the work returned and a failure if it raised.
  pub execute_task_lem :
      (task_id : ℕ) (s : State W) (task : Task)
      → find? (λ t. t.id == task_id) s.tasks ≡ some task
      → (h : History) × (last? (execute_task work now task_id s).history ≡ some h)
        × (h.task_id ≡ task.id)
        × (h.completed_at ≡ some now)
        × (h.status ≡ status_of (perform work task s.world).0)
  unfolding execute_task
  execute_task_lem task_id s task found =
      subst
        (λ o.
          (h : History) × (last? (executed_if work now o s).history ≡ some h)
          × (h.task_id ≡ task.id)
          × (h.completed_at ≡ some now)
          × (h.status ≡ status_of (perform work task s.world).0))
        (sym found) (closed (perform work task s.world).0)
    where
      closed :
          (r : Result String Unit)
          → (h : History) × (last?
                (ended work now task (entry work now task s.next_id) r (record s {
                  next_id = s.next_id + 1;
                  world = (perform work task s.world).1;
                })).history
              ≡ some h)
            × (h.task_id ≡ task.id)
            × (h.completed_at ≡ some now)
            × (h.status ≡ status_of r)
      closed (ok u) = (_, last?-append s.history _, refl, refl, refl)
      closed (err e) = (_, last?-append s.history _, refl, refl, refl)

-- the jobs of a task
abbrev pub jobs_of : ℕ → List (ℕ × String) → List (ℕ × String)
jobs_of task_id jobs = select (λ j. j.0 == task_id) jobs

jobs_of-without :
    (task_id : ℕ) (jobs : List (ℕ × String)) → jobs_of task_id (without task_id jobs) ≡ []
jobs_of-without task_id [] = refl
jobs_of-without task_id (j ∷ js) = elim (Bool-cases (j.0 == task_id)) [
  | inl e ↦ rw e (jobs_of-without task_id js)
  | inr e ↦ rw (e, jobs_of-without task_id js, e) refl
]

without-without :
    (task_id : ℕ) (jobs : List (ℕ × String))
    → without task_id (without task_id jobs) ≡ without task_id jobs
without-without task_id [] = refl
without-without task_id (j ∷ js) = elim (Bool-cases (j.0 == task_id)) [
  | inl e ↦ rw e (without-without task_id js)
  | inr e ↦ rw (e, without-without task_id js, e) refl
]

jobs_of-append :
    (task_id : ℕ) (jobs : List (ℕ × String)) (schedule : String)
    → jobs_of task_id (without task_id jobs ++ (task_id, schedule) ∷ []) ≡ (task_id, schedule) ∷ []
jobs_of-append task_id [] schedule = rw (==_self task_id) refl
jobs_of-append task_id (j ∷ js) schedule = elim (Bool-cases (j.0 == task_id)) [
  | inl e ↦ rw e (jobs_of-append task_id js schedule)
  | inr e ↦ rw (e, jobs_of-append task_id js schedule, e) refl
]

without-append :
    (task_id : ℕ) (jobs : List (ℕ × String)) (schedule : String)
    → without task_id (without task_id jobs ++ (task_id, schedule) ∷ []) ≡ without task_id jobs
without-append task_id [] schedule = rw (==_self task_id) refl
without-append task_id (j ∷ js) schedule = elim (Bool-cases (j.0 == task_id)) [
  | inl e ↦ rw e (without-append task_id js schedule)
  | inr e ↦ rw (e, without-append task_id js schedule, e) refl
]

-- the jobs of the task, if APScheduler takes its schedule
abbrev pub is_accepted : (String → Bool) → Task → Bool
is_accepted cron_accepts task = length (words task.schedule) == 5 && cron_accepts task.schedule

-- What a change of a task has left of the jobs.
abbrev pub Rescheduled : (String → Bool) → Task → List (ℕ × String) → List (ℕ × String) → Type 0
Rescheduled cron_accepts task jobs jobs' =
    (jobs_of task.id jobs' ≡ (
      if task.enabled && is_accepted cron_accepts task then (task.id, task.schedule) ∷ [] else []))
    × (without task.id jobs' ≡ without task.id jobs)

rescheduled :
    (cron_accepts : String → Bool) (task : Task) (jobs : List (ℕ × String))
    → Rescheduled cron_accepts task jobs
        (scheduled_if cron_accepts task.enabled task (without task.id jobs))
unfolding schedule_task
rescheduled cron_accepts task jobs = go task.enabled (is_accepted cron_accepts task) refl
  where
    go :
        (b c : Bool)
        → is_accepted cron_accepts task ≡ c
        → (jobs_of task.id (scheduled_if cron_accepts b task (without task.id jobs))
            ≡ (if b && c then (task.id, task.schedule) ∷ [] else []))
          × (without task.id (scheduled_if cron_accepts b task (without task.id jobs))
              ≡ without task.id jobs)
    go false c e = (jobs_of-without task.id jobs, without-without task.id jobs)
    go true true e = rw e (
      jobs_of-append task.id (without task.id jobs) task.schedule,
      without-append task.id (without task.id jobs) task.schedule ∙ without-without task.id jobs,
    )
    go true false e = rw e (jobs_of-without task.id jobs, without-without task.id jobs)

module _ {W : Type 0} (cron_accepts : String → Bool) (digit : ℕ → Bool) where
  -- the test of a schedule changes nothing
  checked :
      (Q : Result Error Task × State W → Type 0) (given : Option String) (f : Unit → Act W Task)
      (s : State W)
      → ((e : Error) → Q (err e, s))
      → Q (f tt s)
      → Q ((check_given cron_accepts digit given >>= f) s)
  unfolding ◌>>=◌
  checked Q none f s refused went = went
  checked Q (some schedule) f s refused went = go (validate_schedule digit schedule)
    where
      go : (v : Result Invalid String) → Q ((valid v >>= f) s)
      go (ok x) = went
      go (err e) = refused _

  -- After an update that succeeds, a task that is enabled and whose schedule is accepted has exactly
  -- one job, with its new schedule, and any other task none: the jobs it had before are gone. The
  -- jobs of the other tasks are as they were.
  pub update_task_lem :
      (task_id : ℕ) (name schedule : Option String) (enabled : Option Bool) (config : Option Config)
      (s : State W) (t : Task)
      → (update_task cron_accepts digit task_id name schedule enabled config s).0 ≡ ok t
      → (select
            (λ j. j.0 == t.id)
            (update_task cron_accepts digit task_id name schedule enabled config s).1.jobs
          ≡ (if t.enabled && is_accepted cron_accepts t then (t.id, t.schedule) ∷ [] else []))
        × (select
              (λ j. not (j.0 == t.id))
              (update_task cron_accepts digit task_id name schedule enabled config s).1.jobs
            ≡ select (λ j. not (j.0 == t.id)) s.jobs)
  unfolding update_task ◌>>=◌
  update_task_lem task_id name schedule enabled config s t =
      let Q = λ (r : Result Error Task × State W).
        r.0 ≡ ok t → Rescheduled cron_accepts t s.jobs r.1.jobs in
      or_raise_ind Q (find? (λ t. t.id == task_id) s.tasks) (task_not_found task_id) _ s
        (λ _ h. absurd (cc)) λ old found. checked Q schedule _ s (λ _ h. absurd (cc)) (put _)
    where
      put :
          (task : Task)
          → ◌≡◌ {A = Result Error Task} (ok task) (ok t)
          → Rescheduled cron_accepts t s.jobs
              (scheduled_if cron_accepts task.enabled task (without task.id s.jobs))
      put task h =
          let same : task ≡ t = cc in
          subst
            (λ x.
              Rescheduled cron_accepts x s.jobs
                (scheduled_if cron_accepts task.enabled task (without task.id s.jobs)))
            same (rescheduled cron_accepts task s.jobs)
