-- ===== src/Scheduler/Deletions.antt =====
-- What becomes of the deletion of a task that has been executed.
use nazman.Prelude.{
  ℕ, ◌≡◌, refl, sym, subst, String, Bool, true, some, List, [], ◌∷◌, ◌++◌, find?, any, Result, ok,
  err, ◌>>=◌, ◌==◌, ==_self, Bool-cases, ◌+◌, inl, inr, select, not, ap, ◌∙◌, update_where,
}
use nazman.Scheduler.{
  Task, History, State, Work, integrity_error, without, delete_task, perform, entry, ended,
  executed_if, execute_task,
}

-- the end of an execution leaves the task in the table, with its id
find?-update_where :
    (p q : Task → Bool) (f : Task → Task)
    → ((t : Task) → p (f t) ≡ p t)
    → ((t : Task) → (f t).id ≡ t.id)
    → (tasks : List Task) (task : Task) → find? p tasks ≡ some task
    → (t : Task) × (find? p (update_where q f tasks) ≡ some t) × (t.id ≡ task.id)
find?-update_where p q f same kept [] task h = absurd (cc)
find?-update_where p q f same kept (t ∷ ts) task h = elim (Bool-cases (p t)) [
  | inl e ↦
      let first : t ≡ task = let h' = rw e at h in cc in
      elim (Bool-cases (q t)) [
        | inl m ↦ rw m (f t, rw (same t, e) refl, kept t ∙ ap (λ (x : Task). x.id) first)
        | inr m ↦ rw m (t, rw e refl, ap (λ (x : Task). x.id) first)
      ]
  | inr e ↦
      let (u, found, its) = find?-update_where p q f same kept ts task (rw e at h) in
      elim (Bool-cases (q t)) [
        | inl m ↦ rw m (u, rw (same t, e) found, its)
        | inr m ↦ rw m (u, rw e found, its)
      ]
]

has_entry :
    (task_id : ℕ) (hs : List History) (h : History)
    → h.task_id ≡ task_id
    → any (λ x. x.task_id == task_id) (hs ++ h ∷ []) ≡ true
has_entry task_id [] h same = rw (same, ==_self task_id) refl
has_entry task_id (x ∷ xs) h same = elim (Bool-cases (x.task_id == task_id)) [
  | inl e ↦ rw e refl
  | inr e ↦ rw e (has_entry task_id xs h same)
]

-- what the refused deletion leaves
refused_deletion :
    {W : Type 0} (task_id : ℕ) (s : State W) (task : Task)
    → find? (λ t. t.id == task_id) s.tasks ≡ some task
    → any (λ h. h.task_id == task.id) s.history ≡ true
    → ((delete_task task_id s).0 ≡ err integrity_error)
      × ((delete_task task_id s).1.tasks ≡ s.tasks)
      × ((delete_task task_id s).1.history ≡ s.history)
      × ((delete_task task_id s).1.jobs ≡ without task.id s.jobs)
unfolding delete_task ◌>>=◌
refused_deletion task_id s task found used = rw (found, used) (refl, refl, refl, refl)

module _ {W : Type 0} (work : Work W) (now : ℕ) (task_id : ℕ) where
  abbrev Refused : ℕ → State W → State W → Type 0
  Refused n s s' =
      ((delete_task task_id s').0 ≡ err integrity_error)
      × ((delete_task task_id s').1.tasks ≡ s'.tasks)
      × ((delete_task task_id s').1.history ≡ s'.history)
      × ((delete_task task_id s').1.jobs ≡ without n s.jobs)

  -- A task that has been executed, whether the work succeeded or failed, cannot be deleted: the
  -- database refuses, since the entry of the execution refers to the task, which stays with its
  -- history, but its jobs, and no others, are gone. The task was in the table when it was executed.
  pub delete_task-execute_task :
      (s : State W) (task : Task)
      → find? (λ t. t.id == task_id) s.tasks ≡ some task
      → ((delete_task task_id (execute_task work now task_id s)).0 ≡ err integrity_error)
        × ((delete_task task_id (execute_task work now task_id s)).1.tasks
            ≡ (execute_task work now task_id s).tasks)
        × ((delete_task task_id (execute_task work now task_id s)).1.history
            ≡ (execute_task work now task_id s).history)
        × ((delete_task task_id (execute_task work now task_id s)).1.jobs
            ≡ select (λ j. not (j.0 == task.id)) s.jobs)
  unfolding execute_task
  delete_task-execute_task s task found =
      subst (λ o. Refused task.id s (executed_if work now o s)) (sym found)
        (after (perform work task s.world).0)
    where
      after :
          (r : Result String Unit)
          → Refused task.id s (
              ended work now task
                (entry work now task s.next_id)
                r
                (record s { next_id = s.next_id + 1; world = (perform work task s.world).1 }))
      after (ok u) =
          let (t, there, same) =
            find?-update_where (λ t. t.id == task_id) (λ t. t.id == task.id)
              (λ t. record t { last_run = some now }) (λ t. refl) (λ t. refl) s.tasks task found in
          let s' : State W =
            ended work now task (entry work now task s.next_id) (ok u)
              (record s { next_id = s.next_id + 1; world = (perform work task s.world).1 }) in
          subst (λ (n : ℕ). Refused n s s') same
            (refused_deletion task_id s' t there (has_entry t.id s.history _ (sym same)))
      after (err e) = refused_deletion task_id _ task found (has_entry task.id s.history _ refl)
