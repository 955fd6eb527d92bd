-- ===== src/BackupGroup/Crons/Loop.antt =====
-- The loop of `sync_scheduled_tasks` over the desired jobs.
use nazman.Prelude.{
  ℕ, ◌≡◌, refl, sym, subst, ◌∙◌, ◌⊎◌, inl, inr, String, Bool, true, false, none, List, [], ◌∷◌,
  str_eq, str_eq_iff, Bool-cases, find?-some-holds, arith,
}
use nazman.Prelude.Occurs.{Occurs, Occurs-cons, Occurs-cases, not-Occurs-nil, find?-Occurs}
use nazman.Prelude.Keyed.{find_key, IsKeyed}
use nazman.Scheduler.{Task, State}
use nazman.BackupGroup.Crons.{
  Wanted, names, task_name, wanted_name, is_backup, is_job, is_desired, reconcile, reconcile_found,
}
use nazman.BackupGroup.Crons.Rounds.{absent, Steady, is_valid, reconcile_found-Round, job_name}

str_eq_sym : (a b : String) → str_eq a b ≡ true → str_eq b a ≡ true
str_eq_sym a b h = (str_eq_iff b a).1 (sym ((str_eq_iff a b).0 h))

undesired_apart :
    (w : Wanted) (ws : List Wanted) (t : Task)
    → is_desired (w ∷ ws) t ≡ false
    → (str_eq t.name w.name ≡ false) × (is_desired ws t ≡ false)
undesired_apart w ws t h = elim (Bool-cases (str_eq w.name t.name)) [
  | inl e ↦ absurd (ground arith)
  | inr e ↦ elim (Bool-cases (str_eq t.name w.name)) [
    | inl e' ↦ let back = str_eq_sym t.name w.name e' in absurd (cc)
    | inr e' ↦ (e', ground arith)
  ]
]

desired_later :
    (w : Wanted) (ws : List Wanted) (t : Task)
    → is_desired ws t ≡ true
    → is_desired (w ∷ ws) t ≡ true
desired_later w ws t h = ground arith

desired_first :
    (w : Wanted) (ws : List Wanted) (t : Task)
    → str_eq t.name w.name ≡ true
    → is_desired (w ∷ ws) t ≡ true
desired_first w ws t h = rw (str_eq_sym t.name w.name h) refl

-- a task of the first job's name is wanted by none of the others
pub named_first :
    (w : Wanted) (ws : List Wanted) (t : Task)
    → find_key names wanted_name w.name ws ≡ none
    → str_eq t.name w.name ≡ true
    → is_desired ws t ≡ false
named_first w ws t nothing h = rw ((str_eq_iff t.name w.name).0 h, nothing) refl

module _ {W : Type 0} (cron_accepts : String → Bool) (digit : ℕ → Bool) (existing : List Task) where
  -- What the loop leaves: the tasks of names that are not desired as they were, and a task for each
  -- job whose schedule is valid.
  pub record Reconciled (ws : List Wanted) (s s' : State W) : Type 0 where
    pub steady : Steady existing s'
    pub kept : (t : Task) → Occurs t s.tasks → is_desired ws t ≡ false → Occurs t s'.tasks
    pub new : (t : Task) → Occurs t s'.tasks → Occurs t s.tasks ⊎ (is_desired ws t ≡ true)
    pub history : s'.history ≡ s.history
    pub made :
        (w : Wanted)
        → Occurs w ws
        → is_valid digit w ≡ true
        → (t : Task) × Occurs t s'.tasks × (is_job w t ≡ true)

  pub reconcile-Reconciled :
      (ws : List Wanted) (s : State W)
      → IsKeyed names wanted_name ws
      → Steady existing s
      → ((e : Task) → Occurs e existing → is_backup e ≡ true)
      → ((e : Task)
          → Occurs e existing
          → (w : Wanted) → Occurs w ws
          → str_eq e.name w.name ≡ true
          → Occurs e s.tasks)
      → Reconciled ws s (reconcile cron_accepts digit existing ws s)
  unfolding reconcile
  reconcile-Reconciled [] s keyed steady backups ready = record {
    steady = steady;
    kept = λ t o h. o;
    new = λ t o. inl o;
    history = refl;
    made = λ w o h. absurd (not-Occurs-nil w o);
  }
  reconcile-Reconciled (w ∷ ws) s (nothing, keyed) steady backups ready =
      let found = find_key names task_name w.name existing in
      let round = reconcile_found-Round cron_accepts digit w existing s found steady (λ e at.
        let there = find?-Occurs (λ t. str_eq t.name w.name) existing e at in
        let name = find?-some-holds (λ t. str_eq t.name w.name) existing e at in
        (there, ready e there w (0, refl) name, backups e there, name)) in
      let rest =
        reconcile-Reconciled ws (reconcile_found cron_accepts digit w found s) keyed round.steady
          backups
          (λ e there w' o name.
            round.kept e (ready e there w' (Occurs-cons w' w ws o) name) (other e w' o name)) in
      record {
        steady = rest.steady;
        kept = λ t o h.
            let (apart, later) = undesired_apart w ws t h in
            rest.kept t (round.kept t o apart) later;
        new = λ t o. elim (rest.new t o) [
          | inl before ↦ elim (round.new t before) [
            | inl at_first ↦ inl at_first
            | inr named ↦ inr (desired_first w ws t named)
          ]
          | inr later ↦ inr (desired_later w ws t later)
        ];
        history = rest.history ∙ round.history;
        made = λ w' o h. elim (Occurs-cases w' w ws o) [
          | inl same ↦
              let (t, at, job) = round.made (subst (λ z. is_valid digit z ≡ true) (sym same) h) in
              (
                t,
                rest.kept t at (named_first w ws t nothing (job_name w t job)),
                subst (λ z. is_job z t ≡ true) same job,
              )
          | inr there ↦ rest.made w' there h
        ];
      }
    where
      other :
          (e : Task) (w' : Wanted)
          → Occurs w' ws
          → str_eq e.name w'.name ≡ true
          → str_eq e.name w.name ≡ false
      other e w' o name = elim (Bool-cases (str_eq e.name w.name)) [
        | inl mine ↦
            let apart = absent (λ x. str_eq x.name w.name) ws w' nothing o in
            let same : w'.name ≡ w.name =
              sym ((str_eq_iff e.name w'.name).0 name) ∙ (str_eq_iff e.name w.name).0 mine in
            let equal = (str_eq_iff w'.name w.name).1 same in absurd (cc)
        | inr apart ↦ apart
      ]
