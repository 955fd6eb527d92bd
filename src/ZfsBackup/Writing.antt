-- ===== src/ZfsBackup/Writing.antt =====
-- What `backup_dataset` answers, and what the run's row then says.
use nazman.Prelude.{
  ℕ, ◌≡◌, refl, String, Option, none, some, Result, ok, err, ◌>>=◌, Bool-cases, inl, inr,
}
use nazman.BackupGroup.Rows.{BackupDisk, Run, RunStatus}
use nazman.BackupGroup.Session.{Failure}
use nazman.BackupGroup.Session.Media.{SendStatus}
use nazman.ZfsBackup.Stream.{
  Target, Job, call, set_run, row, attempt, recover, idle_again, leave, unmounted_if,
  backup_dataset, discard_unrecorded,
}
use nazman.ZfsBackup.Triples.{Triple, follow, called, wrote, read, gave, weaker_after}
use nazman.ZfsBackup.Steps.{Matches, attempted}

module _ {W : Type 0} (target : Target W) (now : ℕ) (rec : BackupDisk) where
  idle-row : (j : Job W) → (idle_again target now rec j).1.run ≡ j.run
  unfolding call
  idle-row j = elim (Bool-cases rec.unmount_after_backup) [ inl e ↦ rw e refl | inr e ↦ rw e refl ]

  undone :
      (r : Result Failure SendStatus) (u : Result Failure Unit) (status : SendStatus)
      → unmounted_if target now rec r u ≡ ok status
      → r ≡ ok status
  undone r (ok a) status h = h
  undone r (err e) status h = absurd (cc)

  -- the `finally` leaves the row, and an answer, as they are
  left_alone :
      (r : Result Failure SendStatus) (j : Job W) (status : SendStatus)
      → (leave target now rec r j).0 ≡ ok status
      → (r ≡ ok status) × ((leave target now rec r j).1.run ≡ j.run)
  left_alone (ok (SendStatus.needs_space n)) j status h = (h, refl)
  left_alone (ok SendStatus.success) j status h =
      (undone _ (idle_again target now rec j).0 status h, idle-row j)
  left_alone (ok SendStatus.skipped) j status h =
      (undone _ (idle_again target now rec j).0 status h, idle-row j)
  left_alone (ok SendStatus.failed) j status h =
      (undone _ (idle_again target now rec j).0 status h, idle-row j)
  left_alone (err e) j status h = (undone _ (idle_again target now rec j).0 status h, idle-row j)

  discarded :
      {P : Run → Type 0} (snap taken : Option String)
      → Triple P (discard_unrecorded target now rec snap taken) (λ _ r. P r)
  discarded none none = gave tt (λ r p. p)
  discarded none (some t) = gave tt (λ r p. p)
  discarded (some s) none = called _
  discarded (some s) (some t) = gave tt (λ r p. p)

  excepted : (e : Failure) → Triple (λ _. Unit) (recover target now rec (err e)) Matches
  unfolding Matches
  excepted e =
      follow (λ _ _. Unit) row _ (weaker_after (λ a r p. tt) read)
        λ r.
          follow (λ _ _. Unit) (λ j. (ok j.snap, j)) _ (record { at = λ j p a h. tt })
            λ snap.
              follow (λ _ _. Unit) (discard_unrecorded target now rec snap r.snapshot) _
                (discarded snap r.snapshot)
                λ _.
                  follow (λ _ r'. r'.status ≡ RunStatus.failed) (set_run _) _
                    (wrote _ (λ r' p. refl)) λ _. gave SendStatus.failed (λ r' p. p)

  recovered :
      (r : Result Failure SendStatus) (j : Job W) (status : SendStatus)
      → ((status' : SendStatus) → r ≡ ok status' → Matches status' j.run)
      → (recover target now rec r j).0 ≡ ok status
      → Matches status (recover target now rec r j).1.run
  recovered (ok s) j status right h = right status h
  recovered (err e) j status right h = (excepted e).at j tt status h

  -- Where `backup_dataset` returns, the run's row says what it answers. A success or a skip has a
  -- snapshot and no phase, and its stream has a base just if it is incremental. A write that was
  -- refused for lack of space keeps its snapshot for the next disk. Otherwise it has failed.
  pub backup_dataset_lem :
      (run : Run) (w : W) (status : SendStatus)
      → (backup_dataset target now rec run w).0 ≡ ok status
      → Matches status (backup_dataset target now rec run w).1.run
  unfolding backup_dataset
  backup_dataset_lem run w status h =
      let tried = attempt target now rec (record { run = run; snap = none; world = w }) in
      let after = recover target now rec tried.0 tried.1 in
      let (answered, same) = left_alone after.0 after.1 status h in
      rw same (
        recovered tried.0 tried.1 status
          (λ s e.
            (attempted target now rec).at (record { run = run; snap = none; world = w }) tt s e)
          answered)

  discards :
      ((s : String) (w : W) → (target.destroy_snapshot s w).0 ≡ ok tt)
      → (snap taken : Option String) (j : Job W)
      → (discard_unrecorded target now rec snap taken j).0 ≡ ok tt
  unfolding call
  discards gone none none j = refl
  discards gone none (some t) j = refl
  discards gone (some s) none j = gone s j.world
  discards gone (some s) (some t) j = refl

  answers :
      ((s : String) (w : W) → (target.destroy_snapshot s w).0 ≡ ok tt)
      → (r : Result Failure SendStatus) (j : Job W)
      → (status : SendStatus) × ((recover target now rec r j).0 ≡ ok status)
  unfolding row set_run ◌>>=◌
  answers gone (ok s) j = (s, refl)
  answers gone (err e) j = (SendStatus.failed, rw (discards gone j.snap j.run.snapshot j) refl)

  goes_idle :
      ((n : ℕ) (w : W) → (target.unmount n w).0 ≡ ok tt)
      → (j : Job W) → (idle_again target now rec j).0 ≡ ok tt
  unfolding call
  goes_idle quiet j = elim (Bool-cases rec.unmount_after_backup) [
    | inl e ↦ rw e (quiet rec.id j.world)
    | inr e ↦ rw e refl
  ]

  left_with :
      ((n : ℕ) (w : W) → (target.unmount n w).0 ≡ ok tt)
      → (r : Result Failure SendStatus) (j : Job W) (status : SendStatus) → r ≡ ok status
      → (leave target now rec r j).0 ≡ ok status
  left_with quiet (ok (SendStatus.needs_space n)) j status h = h
  left_with quiet (ok SendStatus.success) j status h = rw (goes_idle quiet j) h
  left_with quiet (ok SendStatus.skipped) j status h = rw (goes_idle quiet j) h
  left_with quiet (ok SendStatus.failed) j status h = rw (goes_idle quiet j) h
  left_with quiet (err e) j status h = absurd (cc)

  -- If neither an unmount nor the removal of a snapshot raises, `backup_dataset` returns, whatever
  -- else its commands do: the run then has its answer.
  pub backup_dataset-returns :
      ((n : ℕ) (w : W) → (target.unmount n w).0 ≡ ok tt)
      → ((s : String) (w : W) → (target.destroy_snapshot s w).0 ≡ ok tt)
      → (run : Run) (w : W)
      → (status : SendStatus) × ((backup_dataset target now rec run w).0 ≡ ok status)
  unfolding backup_dataset
  backup_dataset-returns quiet gone run w =
      let tried = attempt target now rec (record { run = run; snap = none; world = w }) in
      let (status, answered) = answers gone tried.0 tried.1 in
      (
        status,
        left_with quiet (recover target now rec tried.0 tried.1).0
            (recover target now rec tried.0 tried.1).1 status answered,
      )
