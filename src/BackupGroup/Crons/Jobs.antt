-- ===== src/BackupGroup/Crons/Jobs.antt =====
-- The jobs that `sync_scheduled_tasks` leaves.
use nazman.Prelude.{
  ℕ, ◌<◌, ◌≡◌, refl, sym, ap, subst, ◌∙◌, inl, inr, String, Bool, true, false, not, ◌||◌, some,
  List, [], select, any, ok, ◌==◌, ==_iff, str_eq, str_eq_iff, Bool-cases, arith, All,
}
use nazman.Prelude.Occurs.{
  Occurs, find?-Occurs, Occurs-select, Occurs-select_of, Occurs-any, All-of, All-at,
}
use nazman.Prelude.Keyed.{
  Keys, find_key, IsKeyed, IsKeyed-set_all, find_key-set_all, set_all-from, find_key-member,
}
use nazman.Scheduler.{Task, State}
use nazman.BackupGroup.Rows.{Db}
use nazman.BackupGroup.Crons.{
  Wanted, names, task_name, wanted_name, is_backup, is_job, is_desired, reconcile, delete_unwanted,
  desired, existing_tasks, sync_scheduled_tasks, wanted_of,
}
use nazman.BackupGroup.Crons.Rounds.{Steady, is_valid, job_name}
use nazman.BackupGroup.Crons.Loop.{reconcile-Reconciled}
use nazman.BackupGroup.Crons.Deletions.{has_run, delete_unwanted-Cleared, delete_unwanted-returns}

abbrev pub numbers : Keys ℕ
numbers = record { same = ◌==◌; same_iff = ==_iff }

abbrev pub task_id : Task → ℕ
task_id t = t.id

module _ {W : Type 0} where
  -- The ids of the tasks are different and below the next one, and the jobs of the groups have
  -- different names.
  pub record IsSound (s : State W) : Type 0 where
    pub keyed : IsKeyed numbers task_id s.tasks
    pub below : All (λ t. t.id < s.next_id) s.tasks
    pub named : IsKeyed names task_name (select is_backup s.tasks)

  same_task :
      (s : State W)
      → IsSound s
      → (t e : Task) → Occurs t s.tasks
      → Occurs e s.tasks
      → t.id ≡ e.id
      → t ≡ e
  same_task s sound t e (i, at) (j, at') same =
      let found = find_key-member numbers task_id s.tasks sound.keyed i t at in
      let found' = find_key-member numbers task_id s.tasks sound.keyed j e at' in
      let both = subst (λ n. find_key numbers task_id n s.tasks ≡ some t) same found in cc

  -- the existing tasks are the jobs of the groups
  existing-from :
      (s : State W) (e : Task)
      → Occurs e (existing_tasks s.tasks)
      → Occurs e s.tasks × (is_backup e ≡ true)
  existing-from s e o =
      All-at (λ e. Occurs e s.tasks × (is_backup e ≡ true)) (existing_tasks s.tasks) e
        (set_all-from names task_name (λ e. Occurs e s.tasks × (is_backup e ≡ true))
          (select is_backup s.tasks) []
          (All-of (λ e. Occurs e s.tasks × (is_backup e ≡ true)) (select is_backup s.tasks)
            (λ x there. Occurs-select is_backup x s.tasks there))
          tt)
        o

  existing-all :
      (s : State W)
      → IsSound s
      → (t : Task) → Occurs t s.tasks
      → is_backup t ≡ true
      → Occurs t (existing_tasks s.tasks)
  existing-all s sound t o backup =
      let (i, at) = Occurs-select_of is_backup t s.tasks o backup in
      find?-Occurs (λ x. str_eq x.name t.name) (existing_tasks s.tasks) t
        (find_key-set_all names task_name (select is_backup s.tasks) [] sound.named i t at)

  Steady-start : (s : State W) → IsSound s → Steady (existing_tasks s.tasks) s
  Steady-start s sound = record {
    rows = λ t e o there same.
        let equal = same_task s sound t e o (existing-from s e there).0 same in
        (ap (λ x. x.name) equal, ap (λ x. x.task_type) equal);
    fresh =
        λ e there. All-at (λ t. t.id < s.next_id) s.tasks e sound.below (existing-from s e there).0;
  }

-- `wanted` jobs of different names
desired-IsKeyed : (db : Db) → IsKeyed names wanted_name (desired db)
unfolding desired
desired-IsKeyed db = IsKeyed-set_all names wanted_name (wanted_of db db.groups) [] tt

-- a job that no group wants any more has not run
abbrev pub is_idle : {W : Type 0} → List Wanted → State W → Task → Bool
is_idle wanted s t = is_desired wanted t || not (has_run s t)

module _ {W : Type 0} (cron_accepts : String → Bool) (digit : ℕ → Bool) (db : Db)
    (s : State W) where
  -- Where the ids of the tasks are different and below the next one, and the jobs of the groups
  -- have different names: if none of the jobs that no group wants any more has run, the
  -- reconciliation returns. After it each job that a group wants, with a schedule that is valid,
  -- has a task with its schedule and its configuration, and every task of the groups is one that is
  -- wanted.
  pub sync_scheduled_tasks_lem :
      IsSound s
      → All (λ t. is_idle (desired db) s t ≡ true) (select is_backup s.tasks)
      → let (r, s') = sync_scheduled_tasks cron_accepts digit db s in
        (r ≡ ok tt)
        × All (λ w. any (is_job w) s'.tasks ≡ true) (select (is_valid digit) (desired db))
        × All (λ t. is_desired (desired db) t ≡ true) (select is_backup s'.tasks)
  unfolding sync_scheduled_tasks
  sync_scheduled_tasks_lem sound idle =
      let existing = existing_tasks s.tasks in
      let wanted = desired db in
      let mid = reconcile cron_accepts digit existing wanted s in
      let ours = existing-from s in
      let loop =
        reconcile-Reconciled cron_accepts digit existing wanted s (desired-IsKeyed db)
          (Steady-start s sound) (λ e there. (ours e there).1)
          (λ e there w o name. (ours e there).0) in
      let returned =
        delete_unwanted-returns wanted existing mid
          (IsKeyed-set_all names task_name (select is_backup s.tasks) [] tt)
          (λ d e o o' same.
            ap (λ x. x.name) (same_task s sound d e (ours d o).0 (ours e o').0 same))
          (λ e there unwanted.
            let (at, backup) = ours e there in
            (
              loop.kept e at unwanted,
              ap (λ hs. any (λ h. h.task_id == e.id) hs) loop.history
                  ∙ not_run e unwanted (
                      All-at (λ t. is_idle wanted s t ≡ true) (select is_backup s.tasks) e idle
                        (Occurs-select_of is_backup e s.tasks at backup)),
            )) in
      let cleared = delete_unwanted-Cleared wanted existing mid returned in
      let final = (delete_unwanted wanted existing mid).1 in
      (
        returned,
        All-of (λ w. any (is_job w) final.tasks ≡ true) (select (is_valid digit) wanted)
            (λ w o.
              let (at, valid) = Occurs-select (is_valid digit) w wanted o in
              let (t, made, job) = loop.made w at valid in
              Occurs-any (is_job w) t final.tasks
                (cleared.kept t made (λ e there unwanted same.
                  clash w t e at job unwanted (loop.steady.rows t e made there same).0))
                job),
        All-of (λ t. is_desired wanted t ≡ true) (select is_backup final.tasks)
            (λ t o.
              let (at, backup) = Occurs-select is_backup t final.tasks o in
              elim (loop.new t (cleared.subset t at)) [
                | inl before ↦ elim (Bool-cases (is_desired wanted t)) [
                  | inl wanted_one ↦ wanted_one
                  | inr unwanted ↦
                      absurd
                        (cleared.gone t t at (existing-all s sound t before backup) unwanted refl)
                ]
                | inr wanted_one ↦ wanted_one
              ]),
      )
    where
      not_run :
          (e : Task)
          → is_desired (desired db) e ≡ false
          → is_idle (desired db) s e ≡ true
          → has_run s e ≡ false
      not_run e unwanted h = ground arith

      clash :
          (w : Wanted) (t e : Task)
          → Occurs w (desired db)
          → is_job w t ≡ true
          → is_desired (desired db) e ≡ false
          → t.name ≡ e.name
          → ⊥
      clash w t e at job unwanted same =
          let named = job_name w t job in
          let (i, place) = at in
          let found =
            find_key-member names wanted_name (desired db) (desired-IsKeyed db) i w place in
          let name : w.name ≡ e.name = sym ((str_eq_iff t.name w.name).0 named) ∙ same in
          let known = subst (λ n. find_key names wanted_name n (desired db) ≡ some w) name found in
          absurd (ground arith)
