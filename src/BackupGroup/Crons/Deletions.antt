-- ===== src/BackupGroup/Crons/Deletions.antt =====
-- The end of `sync_scheduled_tasks`: the tasks that no group wants any more are deleted.
use nazman.Prelude.{
  ◌≡◌, refl, sym, ap, subst, ◌∙◌, inl, inr, Bool, false, not, Option, none, some, List, [], ◌∷◌,
  select, find?, any, Result, ok, err, ◌>>=◌, ◌==◌, ==_iff, ==_self, ==_ne, Bool-cases,
  find?-some-holds, arith, continue, str_eq, str_eq_iff,
}
use nazman.Prelude.Occurs.{
  Occurs, Occurs-cons, Occurs-cases, not-Occurs-nil, Occurs-select, Occurs-select_of, find?-found,
}
use nazman.Prelude.Keyed.{IsKeyed}
use nazman.Scheduler.{Task, State, Error, delete_task}
use nazman.BackupGroup.Crons.Rounds.{absent}
use nazman.BackupGroup.Crons.{Wanted, names, task_name, is_desired, delete_unwanted}

module _ {W : Type 0} where
  -- a task with a history is not deleted
  abbrev pub has_run : State W → Task → Bool
  has_run s t = any (λ h. h.task_id == t.id) s.history

  delete_task-tasks :
      (t : Task) (s : State W)
      → (delete_task t.id s).0 ≡ ok tt
      → (delete_task t.id s).1.tasks ≡ select (λ x. not (x.id == t.id)) s.tasks
  unfolding delete_task ◌>>=◌
  delete_task-tasks t s = go (find? (λ x. x.id == t.id) s.tasks) refl
    where
      go :
          (o : Option Task)
          → find? (λ x. x.id == t.id) s.tasks ≡ o
          → (delete_task t.id s).0 ≡ ok tt
          → (delete_task t.id s).1.tasks ≡ select (λ x. not (x.id == t.id)) s.tasks
      go none h = rw h (λ returned. absurd (cc))
      go (some old) h =
          let same = (==_iff old.id t.id).0 (find?-some-holds (λ x. x.id == t.id) s.tasks old h) in
          elim (Bool-cases (any (λ x. x.task_id == old.id) s.history)) [
            | inl used ↦ rw (h, used) (λ returned. absurd (cc))
            | inr unused ↦
                rw (h, unused) (λ returned. ap (λ n. select (λ x. not (x.id == n)) s.tasks) same)
          ]

  -- A task that stands in the table and has not run is deleted.
  delete_task-returns :
      (t : Task) (s : State W)
      → Occurs t s.tasks
      → has_run s t ≡ false
      → ((delete_task t.id s).0 ≡ ok tt) × ((delete_task t.id s).1.history ≡ s.history)
  unfolding delete_task ◌>>=◌
  delete_task-returns t s at unused =
      let (old, found) = find?-found (λ x. x.id == t.id) s.tasks t at (==_self t.id) in
      let same = (==_iff old.id t.id).0 (find?-some-holds (λ x. x.id == t.id) s.tasks old found) in
      let idle : any (λ h. h.task_id == old.id) s.history ≡ false =
        ap (λ n. any (λ h. h.task_id == n) s.history) same ∙ unused in
      rw (found, idle) (refl, refl)

  -- What the deletions leave, when they return.
  pub record Cleared (ws : List Wanted) (existing : List Task) (s s' : State W) : Type 0 where
    pub subset : (t : Task) → Occurs t s'.tasks → Occurs t s.tasks
    pub kept :
        (t : Task)
        → Occurs t s.tasks
        → ((e : Task) → Occurs e existing → is_desired ws e ≡ false → t.id ≡ e.id → ⊥)
        → Occurs t s'.tasks
    pub gone :
        (t e : Task)
        → Occurs t s'.tasks
        → Occurs e existing
        → is_desired ws e ≡ false
        → t.id ≡ e.id
        → ⊥

  pub delete_unwanted-Cleared :
      (ws : List Wanted) (existing : List Task) (s : State W)
      → (delete_unwanted ws existing s).0 ≡ ok tt
      → Cleared ws existing s (delete_unwanted ws existing s).1
  unfolding delete_unwanted ◌>>=◌
  delete_unwanted-Cleared ws [] s returned = record {
    subset = λ t o. o;
    kept = λ t o h. o;
    gone = λ t e o there. absurd (not-Occurs-nil e there);
  }
  delete_unwanted-Cleared ws (d ∷ ds) s returned = elim (Bool-cases (is_desired ws d)) [
    | inl wanted ↦
        let rest = delete_unwanted-Cleared ws ds s (rw wanted at returned) in
        rw wanted (record {
          subset = rest.subset;
          kept = λ t o h. rest.kept t o (λ e there. h e (Occurs-cons e d ds there));
          gone = λ t e o there h same. elim (Occurs-cases e d ds there) [
            | inl first ↦ let unwanted = ap (is_desired ws) first in absurd (cc)
            | inr later ↦ rest.gone t e o later h same
          ];
        })
    | inr unwanted ↦ rw unwanted (
        go (delete_unwanted-Cleared ws ds) (delete_task d.id s).0 refl unwanted
          (rw unwanted at returned))
  ]
    where
      go :
          ((s : State W)
            → (delete_unwanted ws ds s).0 ≡ ok tt
            → Cleared ws ds s (delete_unwanted ws ds s).1)
          → (r : Result Error Unit) → (delete_task d.id s).0 ≡ r
          → is_desired ws d ≡ false
          → (continue r (λ _. delete_unwanted ws ds) (delete_task d.id s).1).0 ≡ ok tt
          → Cleared ws (d ∷ ds) s (continue r (λ _. delete_unwanted ws ds) (delete_task d.id s).1).1
      go cleared (err e) h unwanted raised = absurd (cc)
      go cleared (ok _) h unwanted returned =
          let tasks = delete_task-tasks d s h in
          let rest = cleared (delete_task d.id s).1 returned in
          let before = λ (t : Task) (o : Occurs t (delete_task d.id s).1.tasks).
            Occurs-select (λ x. not (x.id == d.id)) t s.tasks (subst (Occurs t) tasks o) in
          record {
            subset = λ t o. (before t (rest.subset t o)).0;
            kept = λ t o h.
                rest.kept t
                  (subst (Occurs t) (sym tasks) (
                    Occurs-select_of (λ x. not (x.id == d.id)) t s.tasks o
                      (rw (==_ne t.id d.id (h d (0, refl) unwanted)) refl)))
                  (λ e there. h e (Occurs-cons e d ds there));
            gone = λ t e o there h' same. elim (Occurs-cases e d ds there) [
              | inl first ↦
                  let stays = (before t (rest.subset t o)).1 in
                  let equal = (==_iff t.id d.id).1 (same ∙ ap (λ x. x.id) (sym first)) in
                  absurd (ground arith)
              | inr later ↦ rest.gone t e o later h' same
            ];
          }

  -- The deletions return, if none of the tasks has run.
  pub delete_unwanted-returns :
      (ws : List Wanted) (existing : List Task) (s : State W)
      → IsKeyed names task_name existing
      → ((d e : Task) → Occurs d existing → Occurs e existing → d.id ≡ e.id → d.name ≡ e.name)
      → ((e : Task)
          → Occurs e existing
          → is_desired ws e ≡ false
          → Occurs e s.tasks × (has_run s e ≡ false))
      → (delete_unwanted ws existing s).0 ≡ ok tt
  unfolding delete_unwanted ◌>>=◌
  delete_unwanted-returns ws [] s keyed ids ready = refl
  delete_unwanted-returns ws (d ∷ ds) s (nothing, keyed) ids ready =
      let later = λ (e : Task) (o : Occurs e ds). Occurs-cons e d ds o in
      let ids' =
        λ (a b : Task) (o : Occurs a ds) (o' : Occurs b ds). ids a b (later a o) (later b o') in
      elim (Bool-cases (is_desired ws d)) [
        | inl wanted ↦
            rw wanted (delete_unwanted-returns ws ds s keyed ids' (λ e o. ready e (later e o)))
        | inr unwanted ↦
            let (at, unused) = ready d (0, refl) unwanted in
            let (returned, history) = delete_task-returns d s at unused in
            let tasks = delete_task-tasks d s returned in
            rw (unwanted, returned)
              (delete_unwanted-returns ws ds (delete_task d.id s).1 keyed ids' (λ e o h.
                let (there, idle) = ready e (later e o) h in
                (
                  subst (Occurs e) (sym tasks) (
                      Occurs-select_of (λ x. not (x.id == d.id)) e s.tasks there
                        (rw (==_ne e.id d.id (apart e o)) refl)),
                  ap (λ hs. any (λ x. x.task_id == e.id) hs) history ∙ idle,
                )))
      ]
    where
      apart : (e : Task) → Occurs e ds → e.id ≡ d.id → ⊥
      apart e o same =
          let name = ids e d (Occurs-cons e d ds o) (0, refl) same in
          let other = absent (λ x. str_eq x.name d.name) ds e nothing o in
          let equal = (str_eq_iff e.name d.name).1 name in absurd (cc)
