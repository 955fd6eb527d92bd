-- ===== src/Prelude/Effects.antt =====
-- Methods that change state and may raise. What was written before a raise stays written, so the
-- state comes back beside the exception too.
use mathlib.Core.Path.{◌≡◌, refl}
use mathlib.Core.Bool.{Bool, true, false}
use mathlib.Core.Option.{Option, none, some}

module _ {ℓ} where
  pub data Result (E : Type ℓ) (A : Type ℓ) : Type ℓ where
    ok : A → Result E A
    err : E → Result E A

abbrev pub Exec {ℓ} : Type ℓ → Type ℓ → Type ℓ → Type ℓ
Exec S E A = S → Result E A × S

module _ {ℓ} {S E A : Type ℓ} where
  abbrev pub pure : A → Exec S E A
  pure a s = (ok a, s)

  abbrev pub raise : E → Exec S E A
  raise e s = (err e, s)

  abbrev pub gets : (S → A) → Exec S E A
  gets f s = (ok (f s), s)

module _ {ℓ} {S E : Type ℓ} where
  abbrev pub modify : (S → S) → Exec S E Unit
  modify f s = (ok tt, f s)

module _ {ℓ} {S E A B : Type ℓ} where
  abbrev pub continue : Result E A → (A → Exec S E B) → Exec S E B
  continue (ok a) f s = f a s
  continue (err e) f s = (err e, s)

  infixl 10 ◌>>=◌ ◌>>◌
  unfoldable pub ◌>>=◌ : Exec S E A → (A → Exec S E B) → Exec S E B
  ◌>>=◌ m f s = let (r, s') = m s in continue r f s'

  abbrev pub ◌>>◌ : Exec S E A → Exec S E B → Exec S E B
  m >> n = m >>= λ _. n

-- `x = query.first()`, `if not x: raise e`
abbrev pub or_raise {ℓ} : {A S E : Type ℓ} → Option A → E → Exec S E A
or_raise none e = raise e
or_raise (some a) e = pure a

-- `if b: raise e`
abbrev pub guard_not {ℓ} : {S E : Type ℓ} → Bool → E → Exec S E Unit
guard_not true e = raise e
guard_not false e = pure tt

-- Case analysis on the first step of a method, for a predicate on its outcome.
module _ {ℓ κ} {S E B : Type ℓ} (Q : Result E B × S → Type κ) where
  pub or_raise_ind :
      {A : Type ℓ} (o : Option A) (e : E) (f : A → Exec S E B) (s : S)
      → (o ≡ none → Q (err e, s))
      → ((a : A) → o ≡ some a → Q (f a s))
      → Q ((or_raise o e >>= f) s)
  unfolding ◌>>=◌
  or_raise_ind none e f s missing found = missing refl
  or_raise_ind (some a) e f s missing found = found a refl

  pub guard_not_ind :
      (b : Bool) (e : E) (f : Unit → Exec S E B) (s : S)
      → (b ≡ true → Q (err e, s))
      → (b ≡ false → Q (f tt s))
      → Q ((guard_not b e >>= f) s)
  unfolding ◌>>=◌
  guard_not_ind true e f s refused allowed = refused refl
  guard_not_ind false e f s refused allowed = allowed refl

-- Case analysis on a call whose own case analysis is known.
pub continue_ind {ℓ κ} :
    {S E A B : Type ℓ} (Q : Result E B × S → Type κ) (r : Result E A) (f : A → Exec S E B) (s : S)
    → ((e : E) → r ≡ err e → Q (err e, s))
    → ((a : A) → r ≡ ok a → Q (f a s))
    → Q (continue r f s)
continue_ind Q (ok a) f s refused went = went a refl
continue_ind Q (err e) f s refused went = refused e refl
