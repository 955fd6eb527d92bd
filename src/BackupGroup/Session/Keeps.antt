-- ===== src/BackupGroup/Session/Keeps.antt =====
-- The calls of a session that leave the status of its row, and its group, alone.
use nazman.Prelude.{
  ℕ, ◌≡◌, refl, ◌∙◌, Bool, true, false, Result, continue_ind, ◌>>=◌, pure, gets, if◌then◌else◌,
}
use nazman.BackupGroup.Rows.{BackupSet, Session, Run, Note}
use nazman.BackupGroup.Session.{Ctx, Failure, Alert}
use nazman.BackupGroup.Session.Media.{Act, lift, ask, with_session, with_set, with_run, note, alert}

-- The status of the session's row and the group's row are the same after the call, whether it returns or raises.
pub record Keeps {W A : Type 0} (m : Act W A) : Type 0 where
  pub at : (c : Ctx W) → (m c).1.session.status ≡ c.session.status
  pub same_group : (c : Ctx W) → (m c).1.group ≡ c.group

module _ {W : Type 0} where
  pub Keeps-bind :
      {A B : Type 0} (m : Act W A) (f : A → Act W B)
      → Keeps m
      → ((a : A) → Keeps (f a))
      → Keeps (m >>= f)
  unfolding ◌>>=◌
  Keeps-bind m f km kf = record {
    at = λ c.
        continue_ind (λ r. r.1.session.status ≡ c.session.status) (m c).0 f (m c).1 (λ e _. km.at c)
          (λ a _. (kf a).at (m c).1 ∙ km.at c);
    same_group = λ c.
        continue_ind (λ r. r.1.group ≡ c.group) (m c).0 f (m c).1 (λ e _. km.same_group c)
          (λ a _. (kf a).same_group (m c).1 ∙ km.same_group c);
  }

  pub Keeps-if :
      {A : Type 0} (b : Bool) (m n : Act W A) → Keeps m → Keeps n → Keeps (if b then m else n)
  Keeps-if true m n km kn = km
  Keeps-if false m n km kn = kn

  pub Keeps-pure : {A : Type 0} (a : A) → Keeps {W = W} (pure a)
  Keeps-pure a = record { at = λ c. refl; same_group = λ c. refl }

  pub Keeps-gets : {A : Type 0} (f : Ctx W → A) → Keeps (gets f)
  Keeps-gets f = record { at = λ c. refl; same_group = λ c. refl }

  pub Keeps-ask : {A : Type 0} (f : W → A × W) → Keeps (ask f)
  Keeps-ask f = record { at = λ c. refl; same_group = λ c. refl }

  pub Keeps-lift : {A : Type 0} (f : W → Result Failure A × W) → Keeps (lift f)
  Keeps-lift f = record { at = λ c. refl; same_group = λ c. refl }

  pub Keeps-set : (n : ℕ) (f : BackupSet → BackupSet) → Keeps {W = W} (with_set n f)
  Keeps-set n f = record { at = λ c. refl; same_group = λ c. refl }

  pub Keeps-run : (n : ℕ) (f : Run → Run) → Keeps {W = W} (with_run n f)
  Keeps-run n f = record { at = λ c. refl; same_group = λ c. refl }

  pub Keeps-note : (n : Note) → Keeps {W = W} (note n)
  Keeps-note n = record { at = λ c. refl; same_group = λ c. refl }

  pub Keeps-alert : (a : Alert) → Keeps {W = W} (alert a)
  Keeps-alert a = record { at = λ c. refl; same_group = λ c. refl }

  -- a change of the session's own row that does not touch the status
  pub Keeps-session :
      (f : Session → Session)
      → ((s : Session) → (f s).status ≡ s.status)
      → Keeps {W = W} (with_session f)
  Keeps-session f h = record { at = λ c. h c.session; same_group = λ c. refl }
