-- ===== src/BackupGroup/Session/Ends.antt =====
-- How a session's row is left: closed when the run returns, open when a call raised.
use nazman.Prelude.{
  ℕ, ◌≡◌, refl, ◌≢◌, subst, String, Option, none, some, List, [], ◌∷◌, Result, ok, err,
  continue_ind, ◌>>=◌, arith, pure, gets,
}
use nazman.BackupGroup.Rows.{
  BackupDisk, BackupSet, Session, SessionStatus, SessionError, no_backup_sets,
}
use nazman.BackupGroup.Cycle.{active_set, target_sets}
use nazman.BackupGroup.Session.{Ctx, Failure}
use nazman.BackupGroup.Session.Media.{Media, Act, with_session, with_group, alert}
use nazman.BackupGroup.Session.Writes.{Tally, nothing_yet}
use nazman.BackupGroup.Session.Execute.{verdict, Written, write_sets}
use nazman.BackupGroup.Session.Finish.{
  finish, after_writes, notify_finished, after_sets, on_sets, execute_session, note_copies,
  mark_used, capture, rotate_group,
}
use nazman.BackupGroup.Session.Keeps.{Keeps, Keeps-pure, Keeps-note}
use nazman.BackupGroup.Session.Steady.{Keeps-mark_used, Keeps-write_sets}

-- a row that holds the status that was returned, the time, and no phase
pub record IsClosed (status : SessionStatus) (now : ℕ) (s : Session) : Type 0 where
  pub held : s.status ≡ status
  pub dated : s.completed_at ≡ some now
  pub no_phase : s.phase ≡ none
  pub not_running : status ≢ SessionStatus.running

pub IsLeft : {W : Type 0} → SessionStatus → ℕ → Result Failure SessionStatus × Ctx W → Type 0
IsLeft old now (ok status, c) = IsClosed status now c.session
IsLeft old now (err e, c) = c.session.status ≡ old

record Ends {W : Type 0} (now : ℕ) (m : Act W SessionStatus) : Type 0 where
  at : (c : Ctx W) → IsLeft c.session.status now (m c)

module _ {W : Type 0} (now : ℕ) where
  Ends-bind :
      {A : Type 0} (m : Act W A) (f : A → Act W SessionStatus)
      → ((c : Ctx W) → (m c).1.session.status ≡ c.session.status)
      → ((a : A) → Ends now (f a))
      → Ends now (m >>= f)
  unfolding ◌>>=◌ IsLeft
  Ends-bind m f km ef = record {
    at = λ c.
        continue_ind (IsLeft c.session.status now) (m c).0 f (m c).1 (λ e _. km c)
          (λ a _. subst (λ old. IsLeft old now (f a (m c).1)) (km c) ((ef a).at (m c).1));
  }

-- what the tally decides is an end, and not the one that a blocked set has
pub verdict-IsFinal : (t : Tally) → verdict t ≢ SessionStatus.running
verdict-IsFinal t = ground arith

pub verdict-IsUnblocked : (t : Tally) → verdict t ≢ SessionStatus.needs_disk
verdict-IsUnblocked t = ground arith

module _ {W : Type 0} (media : Media W) (now : ℕ) where
  Ends-finish :
      (status : SessionStatus) (error : Option SessionError) (t : Tally)
      → status ≢ SessionStatus.running
      → Ends now (finish media now status error t)
  unfolding finish ◌>>=◌ IsLeft
  Ends-finish status error t final = record {
    at = λ c. record { held = refl; dated = refl; no_phase = refl; not_running = final };
  }

  -- the alert after `_finish` leaves the row as it is
  Ends-told :
      (bset : BackupSet) (status : SessionStatus) (t : Tally) (rotated_to : Option ℕ)
      → status ≢ SessionStatus.running
      → Ends now (
          finish media now status none t >>= λ _.
          notify_finished media now bset status rotated_to >>= λ _. pure status)
  unfolding finish ◌>>=◌ IsLeft
  Ends-told bset status t rotated_to final = record { at = λ c. go status final c }
    where
      go :
          (status : SessionStatus)
          → status ≢ SessionStatus.running
          → (c : Ctx W)
          → IsLeft c.session.status now (
              (finish media now status none t >>= λ _.
              notify_finished media now bset status rotated_to >>= λ _. pure status)
                c)
      go SessionStatus.running f c = record {
        held = refl;
        dated = refl;
        no_phase = refl;
        not_running = f;
      }
      go SessionStatus.success f c = record {
        held = refl;
        dated = refl;
        no_phase = refl;
        not_running = f;
      }
      go SessionStatus.partial f c = record {
        held = refl;
        dated = refl;
        no_phase = refl;
        not_running = f;
      }
      go SessionStatus.failed f c = record {
        held = refl;
        dated = refl;
        no_phase = refl;
        not_running = f;
      }
      go SessionStatus.needs_disk f c = record {
        held = refl;
        dated = refl;
        no_phase = refl;
        not_running = f;
      }

  SameStatus : {A : Type 0} → Act W A → Type 0
  SameStatus m = (c : Ctx W) → (m c).1.session.status ≡ c.session.status

  after_writes_keeps :
      (status : SessionStatus) (sets : List BackupSet) (bset : BackupSet) (targets : List BackupSet)
      (recs : List BackupDisk)
      → SameStatus (after_writes media now status sets bset targets recs)
  unfolding SameStatus ◌>>=◌
  after_writes_keeps status sets bset targets recs = go status
    where
      written : SameStatus (
          mark_used media now targets >>= λ _.
          rotate_group media now sets bset targets >>= λ rotated_to.
          capture media now recs >>= λ _. pure rotated_to)
      written c =
          continue_ind (λ r. r.1.session.status ≡ c.session.status)
            (mark_used media now targets c).0 _ (mark_used media now targets c).1
            (λ e _. (Keeps-mark_used media now targets).at c)
            (λ a _. (Keeps-mark_used media now targets).at c)

      go :
          (status : SessionStatus)
          → SameStatus (after_writes media now status sets bset targets recs)
      go SessionStatus.failed = λ c. refl
      go SessionStatus.running = written
      go SessionStatus.success = written
      go SessionStatus.partial = written
      go SessionStatus.needs_disk = written

  Ends-after_sets :
      (sets : List BackupSet) (bset : BackupSet) (targets : List BackupSet) (w : Written)
      (stopped : Option (BackupSet × SessionError × Option String))
      → Ends now (after_sets media now sets bset targets w stopped)
  unfolding SameStatus
  Ends-after_sets sets bset targets w none =
      let status = verdict w.tally in
      Ends-bind now (after_writes media now status sets bset targets w.recs) _
        (after_writes_keeps status sets bset targets w.recs)
        λ rotated_to. Ends-told bset status w.tally rotated_to (verdict-IsFinal w.tally)
  Ends-after_sets sets bset targets w (some (cur, error, dataset)) =
      Ends-bind now (with_group _) _ (λ c. refl)
        λ _.
          Ends-bind now (gets (λ c. c.group)) _ (λ c. refl)
            λ group.
              Ends-bind now (alert _) _ (λ c. refl)
                λ _. Ends-finish SessionStatus.needs_disk (some error) w.tally (λ same. absurd (cc))

  pub Keeps-note_copies : (sets : List BackupSet) → Keeps (note_copies media now sets)
  Keeps-note_copies [] = Keeps-pure tt
  Keeps-note_copies (a ∷ []) = Keeps-pure tt
  Keeps-note_copies (a ∷ b ∷ rest) = Keeps-note _

  Ends-on_sets : (sets : List BackupSet) → Ends now (on_sets media now sets)
  Ends-on_sets [] =
      Ends-finish SessionStatus.failed (some no_backup_sets) nothing_yet (λ same. absurd (cc))
  Ends-on_sets (first ∷ rest) =
      Ends-bind now (gets (λ c. active_set c.group first rest)) _ (λ c. refl)
        λ chosen.
          let sets = first ∷ rest in
          let targets = target_sets chosen.0 sets chosen.1 in
          Ends-bind now (with_group _) _ (λ c. refl)
            λ _.
              Ends-bind now (with_session _) _ (λ c. refl)
                λ _.
                  Ends-bind now (note_copies media now targets) _ (Keeps-note_copies targets).at
                    λ _.
                      Ends-bind now (gets (λ c. c.datasets)) _ (λ c. refl)
                        λ datasets.
                          Ends-bind now (write_sets media now targets datasets nothing_yet []) _
                            (Keeps-write_sets media now targets datasets nothing_yet []).at
                            λ w. Ends-after_sets sets chosen.1 targets w w.stopped

  -- A session that returns has closed its row: the row holds the status that is returned, which
  -- is not `running`, the time of the end, and no phase. A session that raises has not touched
  -- the status, so a row that was running still is.
  pub execute_session_lem : (c : Ctx W) → IsLeft c.session.status now (execute_session media now c)
  unfolding execute_session
  execute_session_lem c = (Ends-bind now (gets (λ c. c.sets)) _ (λ c. refl) Ends-on_sets).at c
