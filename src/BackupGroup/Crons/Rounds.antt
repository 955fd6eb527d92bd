-- ===== src/BackupGroup/Crons/Rounds.antt =====
-- One round of the loop of `sync_scheduled_tasks`: what the calls of the scheduler do to the tasks.
use nazman.Prelude.{
  ℕ, ◌+◌, ◌<◌, ◌≡◌, refl, sym, ap, subst, ◌∙◌, ◌⊎◌, inl, inr, String, Bool, true, false, not, ◌||◌,
  Option, none, some, List, [], ◌∷◌, ◌++◌, find?, update_where, Result, ok, err, ◌>>=◌, ◌==◌,
  ==_iff, ==_self, str_eq, str_eq_self, Bool-cases, if◌then◌else◌, find?-some-holds, arith,
}
use nazman.Prelude.Occurs.{
  Occurs, Occurs-updated, Occurs-update_where, Occurs-append, Occurs-append_left,
  Occurs-append_last, Occurs-cases, not-Occurs-nil, find?-Occurs, find?-found,
}
use nazman.Validation.{Invalid, validate_schedule}
use nazman.Scheduler.{Task, State, create_task, update_task}
use nazman.BackupGroup.Crons.{Wanted, is_backup, is_job, config_of, same_config, reconcile_found}

abbrev succeeded : Result Invalid String → Bool
succeeded (ok s) = true
succeeded (err e) = false

-- the scheduler takes the schedule of the job
abbrev pub is_valid : (ℕ → Bool) → Wanted → Bool
is_valid digit w = succeeded (validate_schedule digit w.cron)

same_config_of : (w : Wanted) → same_config (some (config_of w)) w ≡ true
same_config_of w = rw (==_self w.group_id, str_eq_self w.kind) refl

pub job_name : (w : Wanted) (t : Task) → is_job w t ≡ true → str_eq t.name w.name ≡ true
job_name w t job = ground arith

-- a key that is not found is not among the entries
pub absent :
    {A : Type 0} (p : A → Bool) (xs : List A) (x : A)
    → find? p xs ≡ none
    → Occurs x xs
    → p x ≡ false
absent p xs x nothing o = elim (Bool-cases (p x)) [
  | inl e ↦ let (y, found) = find?-found p xs x o e in absurd (cc)
  | inr e ↦ e
]

-- A row with the id of an existing task is that task's, and no new row gets that id.
pub record Steady {W : Type 0} (existing : List Task) (s : State W) : Type 0 where
  pub rows :
      (t e : Task)
      → Occurs t s.tasks
      → Occurs e existing
      → t.id ≡ e.id
      → (t.name ≡ e.name) × (t.task_type ≡ e.task_type)
  pub fresh : (e : Task) → Occurs e existing → e.id < s.next_id

module _ {W : Type 0} (cron_accepts : String → Bool) (digit : ℕ → Bool) (w : Wanted) where
  -- What a round leaves of the tasks: those of other names as they were, and a task of the job if
  -- its schedule is valid.
  pub record Round (existing : List Task) (s s' : State W) : Type 0 where
    pub steady : Steady existing s'
    pub kept : (t : Task) → Occurs t s.tasks → str_eq t.name w.name ≡ false → Occurs t s'.tasks
    pub new : (t : Task) → Occurs t s'.tasks → Occurs t s.tasks ⊎ (str_eq t.name w.name ≡ true)
    pub history : s'.history ≡ s.history
    pub made : is_valid digit w ≡ true → (t : Task) × Occurs t s'.tasks × (is_job w t ≡ true)

  unchanged :
      (existing : List Task) (s : State W)
      → Steady existing s
      → (is_valid digit w ≡ true → (t : Task) × Occurs t s.tasks × (is_job w t ≡ true))
      → Round existing s s
  unchanged existing s steady made = record {
    steady = steady;
    kept = λ t o h. o;
    new = λ t o. inl o;
    history = refl;
    made = made;
  }

  appended :
      (existing : List Task) (s s' : State W) (t : Task)
      → Steady existing s
      → s'.history ≡ s.history
      → s'.tasks ≡ s.tasks ++ t ∷ []
      → s'.next_id ≡ s.next_id + 1
      → t.id ≡ s.next_id
      → is_job w t ≡ true
      → Round existing s s'
  appended existing s s' t steady history tasks next id job = record {
    steady = record {
      rows = λ x e o there same.
          elim (Occurs-append x s.tasks (t ∷ []) (subst (Occurs x) tasks o)) [
            | inl before ↦ steady.rows x e before there same
            | inr last ↦
                let is_new = only x last in
                let below = steady.fresh e there in
                let same_id : t.id ≡ e.id = ap (λ z. z.id) is_new ∙ same in absurd (omega arith)
          ];
      fresh = λ e there. let below = steady.fresh e there in omega arith;
    };
    kept = λ x o h. subst (Occurs x) (sym tasks) (Occurs-append_left x s.tasks (t ∷ []) o);
    new = λ x o. elim (Occurs-append x s.tasks (t ∷ []) (subst (Occurs x) tasks o)) [
      | inl before ↦ inl before
      | inr last ↦ inr (subst (λ z. str_eq z.name w.name ≡ true) (only x last) (job_name w t job))
    ];
    history = history;
    made = λ h. (t, subst (Occurs t) (sym tasks) (Occurs-append_last t s.tasks), job);
  }
    where
      only : (x : Task) → Occurs x (t ∷ []) → t ≡ x
      only x o = elim (Occurs-cases x t [] o) [
        | inl same ↦ same
        | inr none_left ↦ absurd (not-Occurs-nil x none_left)
      ]

  replaced :
      (existing : List Task) (s s' : State W) (e old t : Task)
      → Steady existing s
      → Occurs e existing
      → Occurs old s.tasks
      → old.id ≡ e.id
      → s'.history ≡ s.history
      → s'.tasks ≡ update_where (λ x. x.id == t.id) (λ _. t) s.tasks
      → s'.next_id ≡ s.next_id
      → t.id ≡ old.id
      → (t.name ≡ old.name) × (t.task_type ≡ old.task_type)
      → is_job w t ≡ true
      → Round existing s s'
  replaced existing s s' e old t steady there at same_old history tasks next same_id
        (same_name, same_type) job =
      record {
        steady = record {
          rows = λ x d o in_existing same. elim (came x o) [
            | inl before ↦ steady.rows x d before in_existing same
            | inr is_new ↦
                let (name, kind) =
                  steady.rows old d at in_existing (sym same_id ∙ ap (λ z. z.id) is_new ∙ same) in
                (
                  ap (λ z. z.name) (sym is_new) ∙ same_name ∙ name,
                  ap (λ z. z.task_type) (sym is_new) ∙ same_type ∙ kind,
                )
          ];
          fresh = λ d o. subst (λ n. d.id < n) (sym next) (steady.fresh d o);
        };
        kept = λ x o other. subst (Occurs x) (sym tasks) (elim (Bool-cases (x.id == t.id)) [
          | inl same ↦ absurd (clash x o other ((==_iff x.id t.id).0 same))
          | inr apart ↦
              subst
                (λ b.
                  Occurs (if b then t else x) (update_where (λ x. x.id == t.id) (λ _. t) s.tasks))
                apart (Occurs-updated (λ x. x.id == t.id) (λ _. t) s.tasks x o)
        ]);
        new = λ x o. elim (came x o) [
          | inl before ↦ inl before
          | inr is_new ↦ inr (subst (λ z. str_eq z.name w.name ≡ true) is_new (job_name w t job))
        ];
        history = history;
        made = λ h. (
          t,
          subst (Occurs t) (sym tasks) (
              subst
                (λ b.
                  Occurs (if b then t else old) (update_where (λ x. x.id == t.id) (λ _. t) s.tasks))
                ((==_iff old.id t.id).1 (sym same_id))
                (Occurs-updated (λ x. x.id == t.id) (λ _. t) s.tasks old at)),
          job,
        );
      }
    where
      came : (x : Task) → Occurs x s'.tasks → Occurs x s.tasks ⊎ (t ≡ x)
      came x o =
          let (y, before, is) =
            Occurs-update_where (λ x. x.id == t.id) (λ _. t) s.tasks x (subst (Occurs x) tasks o) in
          pick y before (y.id == t.id) is
        where
          pick :
              (y : Task)
              → Occurs y s.tasks
              → (b : Bool) → x ≡ (if b then t else y)
              → Occurs x s.tasks ⊎ (t ≡ x)
          pick y before true is = inr (sym is)
          pick y before false is = inl (subst (λ z. Occurs z s.tasks) (sym is) before)

      clash : (x : Task) → Occurs x s.tasks → str_eq x.name w.name ≡ false → x.id ≡ t.id → ⊥
      clash x o other same =
          let mine = steady.rows x e o there (same ∙ same_id ∙ same_old) in
          let its = steady.rows old e at there same_old in
          let name : x.name ≡ t.name = mine.0 ∙ sym its.0 ∙ sym same_name in
          let named = subst (λ n. str_eq n w.name ≡ true) (sym name) (job_name w t job) in
          absurd (cc)

  created :
      (existing : List Task) (s : State W)
      → Steady existing s
      → Round existing s
          (create_task cron_accepts digit w.name "zfs_backup" w.title w.cron
            (some (config_of w))
            s).1
  unfolding create_task ◌>>=◌
  created existing s steady = go (validate_schedule digit w.cron) refl
    where
      go :
          (v : Result Invalid String)
          → validate_schedule digit w.cron ≡ v
          → Round existing s
              (create_task cron_accepts digit w.name "zfs_backup" w.title w.cron
                (some (config_of w))
                s).1
      go (err e) h = rw h (unchanged existing s steady (λ ok_cron. absurd (cc)))
      go (ok x) h = rw h (
          appended existing s _ _ steady refl refl refl refl
            (rw (str_eq_self w.name, str_eq_self w.cron, same_config_of w) refl))

  updated :
      (existing : List Task) (s : State W) (e : Task)
      → Steady existing s
      → Occurs e existing
      → Occurs e s.tasks
      → is_backup e ≡ true
      → str_eq e.name w.name ≡ true
      → Round existing s
          (update_task cron_accepts digit e.id none (some w.cron) none (some (config_of w)) s).1
  unfolding update_task ◌>>=◌
  updated existing s e steady there at backup name =
      let (old, found) = find?-found (λ t. t.id == e.id) s.tasks e at (==_self e.id) in
      let same = (==_iff old.id e.id).0 (find?-some-holds (λ t. t.id == e.id) s.tasks old found) in
      let in_tasks = find?-Occurs (λ t. t.id == e.id) s.tasks old found in
      go old found in_tasks same (steady.rows old e in_tasks there same)
        (validate_schedule digit w.cron) refl
    where
      go :
          (old : Task)
          → find? (λ t. t.id == e.id) s.tasks ≡ some old
          → Occurs old s.tasks
          → old.id ≡ e.id
          → (old.name ≡ e.name) × (old.task_type ≡ e.task_type)
          → (v : Result Invalid String) → validate_schedule digit w.cron ≡ v
          → Round existing s
              (update_task cron_accepts digit e.id none (some w.cron) none (some (config_of w)) s).1
      go old found in_tasks same same_row (err x) h =
          rw (found, h) (unchanged existing s steady (λ ok_cron. absurd (cc)))
      go old found in_tasks same (same_name, same_type) (ok x) h =
          rw (found, h)
            (replaced existing s _ e old _ steady there in_tasks same refl refl refl refl
              (refl, refl)
              (rw (same_type, backup, same_name, name, str_eq_self w.cron, same_config_of w) refl))

  -- A round reconciles the job, provided that the task of its name stands in the table.
  pub reconcile_found-Round :
      (existing : List Task) (s : State W) (found : Option Task)
      → Steady existing s
      → ((e : Task)
          → found ≡ some e
          → Occurs e existing
            × Occurs e s.tasks
            × (is_backup e ≡ true)
            × (str_eq e.name w.name ≡ true))
      → Round existing s (reconcile_found cron_accepts digit w found s)
  reconcile_found-Round existing s none steady its = created existing s steady
  reconcile_found-Round existing s (some e) steady its =
      let (there, at, backup, name) = its e refl in
      elim (Bool-cases (not (str_eq e.schedule w.cron) || not (same_config e.config w))) [
        | inl changed ↦ rw changed (updated existing s e steady there at backup name)
        | inr same ↦ rw same (unchanged existing s steady (λ h. (e, at, ground arith)))
      ]
