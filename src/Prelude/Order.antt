-- ===== src/Prelude/Order.antt =====
-- Stable sorting by a Boolean test, as Python's `sort` and SQL's ORDER BY do it.
use mathlib.Core.List.Perm
use mathlib.Core.Path.{◌≡◌}
use mathlib.Core.Logic.{inl, inr}
use mathlib.Core.Bool.{Bool, true, false}
use mathlib.Core.List.{List, [], ◌∷◌, Perm}
use nazman.Prelude.Tests.{if◌then◌else◌, Bool-cases}
use nazman.Prelude.Lists.{All}

module _ {ℓ} {A : Type ℓ} (le : A → A → Bool) where
  -- before the first element that `x` does not pass
  unfoldable pub insert : A → List A → List A
  insert x [] = x ∷ []
  insert x (y ∷ ys) = let rest = y ∷ insert x ys in if le x y then x ∷ y ∷ ys else rest

  unfoldable pub sort : List A → List A
  unfolding insert
  sort [] = []
  sort (x ∷ xs) = insert x (sort xs)

  abbrev pub IsSorted : List A → Type 0
  IsSorted [] = Unit
  IsSorted (x ∷ xs) = All (λ y. le x y ≡ true) xs × IsSorted xs

  insert-perm : (x : A) (ys : List A) → Perm (insert x ys) (x ∷ ys)
  unfolding insert
  insert-perm x [] = Perm.rfl
  insert-perm x (y ∷ ys) = elim (Bool-cases (le x y)) [
    | inl e ↦ rw e Perm.rfl
    | inr e ↦ rw e (Perm.trans (Perm.cons y (insert-perm x ys)) (Perm.swap x y ys))
  ]

  -- Sorting only moves elements.
  pub sort-perm : (xs : List A) → Perm (sort xs) xs
  unfolding sort
  sort-perm [] = Perm.rfl
  sort-perm (x ∷ xs) = Perm.trans (insert-perm x (sort xs)) (Perm.cons x (sort-perm xs))

All-insert {ℓ κ} :
    {A : Type ℓ} (le : A → A → Bool) (P : A → Type κ) (x : A) (xs : List A)
    → P x
    → All P xs
    → All P (insert le x xs)
unfolding insert
All-insert le P x [] p all = (p, tt)
All-insert le P x (y ∷ ys) p (q, all) = elim (Bool-cases (le x y)) [
  | inl e ↦ rw e (p, (q, all))
  | inr e ↦ rw e (q, All-insert le P x ys p all)
]

pub All-imp {ℓ κ} :
    {A : Type ℓ} (P Q : A → Type κ) → ((x : A) → P x → Q x) → (xs : List A) → All P xs → All Q xs
All-imp P Q f [] all = tt
All-imp P Q f (x ∷ xs) (p, all) = (f x p, All-imp P Q f xs all)

-- A test that is total and transitive sorts.
module _ {ℓ} {A : Type ℓ} (le : A → A → Bool) (total : (x y : A) → le x y ≡ false → le y x ≡ true)
    (trans : (x y z : A) → le x y ≡ true → le y z ≡ true → le x z ≡ true) where
  IsSorted-insert : (x : A) (xs : List A) → IsSorted le xs → IsSorted le (insert le x xs)
  unfolding insert
  IsSorted-insert x [] s = (tt, tt)
  IsSorted-insert x (y ∷ ys) (first, s) = elim (Bool-cases (le x y)) [
    | inl e ↦ rw e (
      (e, All-imp (λ z. le y z ≡ true) (λ z. le x z ≡ true) (λ z h. trans x y z e h) ys first),
      (first, s),
    )
    | inr e ↦
        rw e (All-insert le (λ z. le y z ≡ true) x ys (total x y e) first, IsSorted-insert x ys s)
  ]

  pub sort-IsSorted : (xs : List A) → IsSorted le (sort le xs)
  unfolding sort
  sort-IsSorted [] = tt
  sort-IsSorted (x ∷ xs) = IsSorted-insert x (sort le xs) (sort-IsSorted xs)
