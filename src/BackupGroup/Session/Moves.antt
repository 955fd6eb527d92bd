-- ===== src/BackupGroup/Session/Moves.antt =====
-- What a session does to its group: the pointer to the active set, and `needs_disk`.
pub mod Rounds
use nazman.Prelude.{
  ℕ, ◌≡◌, refl, ◌≢◌, sym, ap, continue, subst, ◌∙◌, String, Option, none, some, List, [], ◌∷◌,
  length, Result, ok, err, continue_ind, ◌>>=◌, ◌>>◌, pure, gets, true, false,
}
use nazman.BackupGroup.Rows.{BackupDisk, BackupSet, Group, SessionStatus, SessionError}
use nazman.BackupGroup.Cycle.{active_set, target_sets, rotate}
use nazman.BackupGroup.Session.{Ctx, Failure}
use nazman.BackupGroup.Session.Media.{Media, Act}
use nazman.BackupGroup.Session.Writes.{Tally, nothing_yet}
use nazman.BackupGroup.Session.Execute.{verdict, Written, write_sets}
use nazman.BackupGroup.Session.Finish.{
  finish, after_writes, notify_finished, after_sets, on_sets, execute_session, note_copies,
  mark_used, capture, rotate_group,
}
use nazman.BackupGroup.Session.Steady.{Keeps-mark_used, Keeps-write_sets}
use nazman.BackupGroup.Session.Ends.{Keeps-note_copies, verdict-IsFinal, verdict-IsUnblocked}

-- the row of a group that was rotated after a session
abbrev past : ℕ → List BackupSet → BackupSet → List BackupSet → Group → Group
past now sets bset targets g = record ((rotate g sets bset (length targets)).0) {
  needs_disk = false;
  last_session_at = some now;
}

-- The group's row after a session with a status, from the row that had its active set chosen.
pub group_after : SessionStatus → ℕ → List BackupSet → BackupSet → List BackupSet → Group → Group
group_after SessionStatus.needs_disk now sets bset targets g = record g { needs_disk = true }
group_after SessionStatus.success now sets bset targets g = past now sets bset targets g
group_after SessionStatus.partial now sets bset targets g = past now sets bset targets g
group_after SessionStatus.failed now sets bset targets g = g
group_after SessionStatus.running now sets bset targets g = g

module _ {W : Type 0} (media : Media W) (now : ℕ) (sets : List BackupSet) (bset : BackupSet)
    (targets : List BackupSet) (g : Group) where
  -- the row after the call; an exception leaves it with the active set chosen
  pub IsMoved : Result Failure SessionStatus × Ctx W → Type 0
  IsMoved (ok status, c) = c.group ≡ group_after status now sets bset targets g
  IsMoved (err e, c) = c.group ≡ g

  record Moves (m : Act W SessionStatus) : Type 0 where
    at : (c : Ctx W) → c.group ≡ g → IsMoved (m c)

  Moves-bind :
      {A : Type 0} (m : Act W A) (f : A → Act W SessionStatus)
      → ((c : Ctx W) → (m c).1.group ≡ c.group)
      → ((a : A) → Moves (f a))
      → Moves (m >>= f)
  unfolding ◌>>=◌ IsMoved
  Moves-bind m f km mf = record {
    at = λ c here.
        continue_ind IsMoved (m c).0 f (m c).1 (λ e _. km c ∙ here)
          (λ a _. (mf a).at (m c).1 (km c ∙ here));
  }

  -- `_finish`, and the alert after it
  abbrev ending : SessionStatus → Tally → Option ℕ → Act W SessionStatus
  ending status t r = do
    finish media now status none t
    notify_finished media now bset status r
    pure status

  told :
      (status : SessionStatus) (t : Tally) (rotated_to : Option ℕ) (c : Ctx W)
      → c.group ≡ group_after status now sets bset targets g
      → IsMoved (ending status t rotated_to c)
  unfolding finish ◌>>=◌ IsMoved group_after
  told SessionStatus.running t rotated_to c here = here
  told SessionStatus.success t rotated_to c here = here
  told SessionStatus.partial t rotated_to c here = here
  told SessionStatus.failed t rotated_to c here = here
  told SessionStatus.needs_disk t rotated_to c here = here

  -- the rotation, between the marks and the end
  written :
      (status : SessionStatus) (t : Tally) (recs : List BackupDisk) (c : Ctx W)
      → c.group ≡ g
      → ((r : Option ℕ) (c' : Ctx W)
          → c'.group ≡ past now sets bset targets g
          → IsMoved (ending status t r c'))
      → IsMoved (
          ((mark_used media now targets >>= λ _.
          rotate_group media now sets bset targets >>= λ r. capture media now recs >>= λ _. pure r)
              >>= ending status t)
            c)
  unfolding ◌>>=◌ IsMoved
  written status t recs c here ends =
      let marked = mark_used media now targets c in
      let same = (Keeps-mark_used media now targets).same_group c ∙ here in
      continue_ind (λ x. IsMoved (continue x.0 (ending status t) x.1)) marked.0 _ marked.1
        (λ e _. same) (λ _ _. ends _ _ (ap (past now sets bset targets) same))

  -- what follows the writes: the group is rotated, unless nothing was written
  Moves-after_writes :
      (status : SessionStatus) (t : Tally) (recs : List BackupDisk)
      → status ≢ SessionStatus.running
      → status ≢ SessionStatus.needs_disk
      → Moves (after_writes media now status sets bset targets recs >>= ending status t)
  unfolding ◌>>=◌ IsMoved group_after
  Moves-after_writes SessionStatus.failed t recs f n = record {
    at = λ c here. told SessionStatus.failed t none c here;
  }
  Moves-after_writes SessionStatus.success t recs f n = record {
    at = λ c here. written SessionStatus.success t recs c here (told SessionStatus.success t);
  }
  Moves-after_writes SessionStatus.partial t recs f n = record {
    at = λ c here. written SessionStatus.partial t recs c here (told SessionStatus.partial t);
  }
  Moves-after_writes SessionStatus.running t recs f n = absurd (f refl)
  Moves-after_writes SessionStatus.needs_disk t recs f n = absurd (n refl)

  Moves-after_sets :
      (w : Written) (stopped : Option (BackupSet × SessionError × Option String))
      → Moves (after_sets media now sets bset targets w stopped)
  unfolding ◌>>=◌ IsMoved group_after finish
  Moves-after_sets w none =
      Moves-after_writes (verdict w.tally) w.tally w.recs (verdict-IsFinal w.tally)
        (verdict-IsUnblocked w.tally)
  Moves-after_sets w (some (cur, error, dataset)) = record {
    at = λ c here. ap {A = Group} (λ g'. record g' { needs_disk = true }) here;
  }

  -- the session once its active set is chosen
  Moves-targets : Moves (do
    note_copies media now targets
    datasets ← gets (λ c. c.datasets)
    w ← write_sets media now targets datasets nothing_yet []
    after_sets media now sets bset targets w w.stopped)
  Moves-targets =
      Moves-bind (note_copies media now targets) _ (Keeps-note_copies media now targets).same_group
        λ _.
          Moves-bind (gets (λ c. c.datasets)) _ (λ c. refl)
            λ datasets.
              Moves-bind (write_sets media now targets datasets nothing_yet []) _
                (Keeps-write_sets media now targets datasets nothing_yet []).same_group
                λ w. Moves-after_sets w w.stopped

module _ {W : Type 0} (media : Media W) (now : ℕ) where
  -- A group that has sets keeps its active set after a session that failed, and after one that a
  -- set blocked, which also raises `needs_disk`. After a session that succeeded, in whole or in
  -- part, the group is rotated past the sets that were written and `needs_disk` is cleared. Where
  -- a call raised, the group only has its active set chosen.
  pub execute_session-moves :
      (c : Ctx W) (first : BackupSet) (rest : List BackupSet)
      → c.sets ≡ first ∷ rest
      → let (g, bset) = active_set c.group first rest in
        IsMoved media now
          (first ∷ rest)
          bset
          (target_sets g (first ∷ rest) bset)
          g
          (execute_session media now c)
  unfolding execute_session ◌>>=◌
  execute_session-moves c first rest sets =
      let (g, bset) = active_set c.group first rest in
      let targets = target_sets g (first ∷ rest) bset in
      subst (IsMoved media now (first ∷ rest) bset targets g)
        (ap (λ ss. on_sets media now ss c) (sym sets))
        ((Moves-targets media now (first ∷ rest) bset targets g).at _ refl)
