-- ===== src/ZfsBackup/Triples.antt =====
-- What a call of `backup_dataset` leaves of the run's row, for every value that it returns.
use nazman.Prelude.{◌≡◌, subst, String, Result, ok, continue_ind, pure, ◌>>=◌}
use nazman.BackupGroup.Rows.{Run}
use nazman.BackupGroup.Session.{Failure}
use nazman.ZfsBackup.Stream.{Job, Act, call, set_run, set_snap, row, asks}

-- From a row that satisfies `P`, every value that the call returns is right for the row it leaves.
pub record Triple {W A : Type 0} (P : Run → Type 0) (m : Act W A) (Q : A → Run → Type 0)
    : Type 0 where
  pub at : (j : Job W) → P j.run → (a : A) → (m j).0 ≡ ok a → Q a (m j).1.run

module _ {W : Type 0} where
  pub follow :
      {A B : Type 0} {P : Run → Type 0} {Q : B → Run → Type 0} (R : A → Run → Type 0) (m : Act W A)
      (f : A → Act W B)
      → Triple P m R
      → ((a : A) → Triple (R a) (f a) Q)
      → Triple P (m >>= f) Q
  unfolding ◌>>=◌
  follow {Q = Q} R m f first rest = record {
    at = λ j p.
        continue_ind (λ r. (b : _) → r.0 ≡ ok b → Q b r.1.run) (m j).0 f (m j).1
          (λ e _ b h. absurd (cc)) (λ a went. (rest a).at (m j).1 (first.at j p a went));
  }

  pub called :
      {A : Type 0} {P : Run → Type 0} (f : W → Result Failure A × W)
      → Triple P (call f) (λ _ r. P r)
  unfolding call
  called f = record { at = λ j p a h. p }

  pub asked : {A : Type 0} {P : Run → Type 0} (f : W → A) → Triple P (asks f) (λ _ r. P r)
  unfolding asks
  asked f = record { at = λ j p a h. p }

  pub named : {P : Run → Type 0} (s : String) → Triple {W = W} P (set_snap s) (λ _ r. P r)
  unfolding set_snap
  named s = record { at = λ j p a h. p }

  pub wrote :
      {P : Run → Type 0} {Q : Unit → Run → Type 0} (f : Run → Run)
      → ((r : Run) → P r → Q tt (f r))
      → Triple {W = W} P (set_run f) Q
  unfolding set_run
  wrote f h = record { at = λ j p a _. h j.run p }

  pub read : {P : Run → Type 0} → Triple {W = W} P row (λ a r. (a ≡ r) × P r)
  unfolding row
  read = record { at = λ j p a h. (cc, p) }

  pub gave :
      {A : Type 0} {P : Run → Type 0} {Q : A → Run → Type 0} (a : A)
      → ((r : Run) → P r → Q a r)
      → Triple {W = W} P (pure a) Q
  gave {Q = Q} a h = record { at = λ j p b e. subst (λ b. Q b j.run) (cc) (h j.run p) }

  pub weaker :
      {A : Type 0} {P P' : Run → Type 0} {Q : A → Run → Type 0} {m : Act W A}
      → ((r : Run) → P r → P' r)
      → Triple P' m Q
      → Triple P m Q
  weaker h t = record { at = λ j p. t.at j (h j.run p) }

  pub weaker_after :
      {A : Type 0} {P : Run → Type 0} {Q Q' : A → Run → Type 0} {m : Act W A}
      → ((a : A) (r : Run) → Q a r → Q' a r)
      → Triple P m Q
      → Triple P m Q'
  weaker_after {m = m} h t = record { at = λ j p a e. h a (m j).1.run (t.at j p a e) }
