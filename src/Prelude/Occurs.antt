-- ===== src/Prelude/Occurs.antt =====
-- Where an element stands in a list, through the operations that the tables are built from.
use nazman.Prelude.Tests.{if◌then◌else◌, Bool-cases}
use nazman.Prelude.Lists.{All, get_elem?, find?, select, update_where, any, last?, drop}
use nazman.Prelude.Order.{sort, insert}
use Prim.Native.Nat.{ℕ, zero, suc}
use mathlib.Core.Path.{◌≡◌, refl, ap, subst}
use mathlib.Core.Bool.{Bool, true}
use mathlib.Core.Logic.{◌⊎◌, inl, inr}
use mathlib.Core.Option.{some}
use mathlib.Core.List.{List, [], ◌∷◌, ◌++◌, map}
use native.Mathlib.Omega.{arith}

module _ {ℓ} {A : Type ℓ} where
  -- the element stands somewhere in the list
  abbrev pub Occurs : A → List A → Type ℓ
  Occurs x xs = (i : ℕ) × (get_elem? xs i ≡ some x)

  pub Occurs-cons : (x y : A) (xs : List A) → Occurs x xs → Occurs x (y ∷ xs)
  Occurs-cons x y xs (i, at) = (suc i, at)

  pub Occurs-cases : (x y : A) (xs : List A) → Occurs x (y ∷ xs) → (y ≡ x) ⊎ Occurs x xs
  Occurs-cases x y xs (zero, at) = inl (cc)
  Occurs-cases x y xs (suc i, at) = inr (i, at)

  pub not-Occurs-nil : (x : A) → Occurs x [] → ⊥
  not-Occurs-nil x (i, at) = cc

  pub Occurs-select :
      (p : A → Bool) (x : A) (xs : List A) → Occurs x (select p xs) → Occurs x xs × (p x ≡ true)
  Occurs-select p x [] o = absurd (not-Occurs-nil x o)
  Occurs-select p x (y ∷ xs) o = elim (Bool-cases (p y)) [
    | inl e ↦ elim (Occurs-cases x y (select p xs) (rw e at o)) [
      | inl same ↦ ((0, ap some same), rw (← same) e)
      | inr later ↦
          let (there, holds) = Occurs-select p x xs later in (Occurs-cons x y xs there, holds)
    ]
    | inr e ↦
        let (there, holds) = Occurs-select p x xs (rw e at o) in (Occurs-cons x y xs there, holds)
  ]

  pub Occurs-select_of :
      (p : A → Bool) (x : A) (xs : List A) → Occurs x xs → p x ≡ true → Occurs x (select p xs)
  Occurs-select_of p x [] o h = absurd (not-Occurs-nil x o)
  Occurs-select_of p x (y ∷ xs) o h = elim (Occurs-cases x y xs o) [
    | inl same ↦ (0, ground arith)
    | inr later ↦
        let (i, at) = Occurs-select_of p x xs later h in (if p y then suc i else i, ground arith)
  ]

  pub Occurs-insert :
      (le : A → A → Bool) (x y : A) (ys : List A)
      → Occurs x (insert le y ys)
      → (y ≡ x) ⊎ Occurs x ys
  unfolding insert
  Occurs-insert le x y [] o = Occurs-cases x y [] o
  Occurs-insert le x y (z ∷ zs) o = elim (Bool-cases (le y z)) [
    | inl e ↦ Occurs-cases x y (z ∷ zs) (rw e at o)
    | inr e ↦ elim (Occurs-cases x z (insert le y zs) (rw e at o)) [
      | inl same ↦ inr (0, ap some same)
      | inr later ↦ elim (Occurs-insert le x y zs later) [
        | inl same ↦ inl same
        | inr there ↦ inr (Occurs-cons x z zs there)
      ]
    ]
  ]

  pub Occurs-sort : (le : A → A → Bool) (x : A) (xs : List A) → Occurs x (sort le xs) → Occurs x xs
  unfolding sort
  Occurs-sort le x [] o = o
  Occurs-sort le x (y ∷ ys) o = elim (Occurs-insert le x y (sort le ys) o) [
    | inl same ↦ (0, ap some same)
    | inr later ↦ Occurs-cons x y ys (Occurs-sort le x ys later)
  ]

  pub find?-Occurs : (p : A → Bool) (xs : List A) (x : A) → find? p xs ≡ some x → Occurs x xs
  find?-Occurs p [] x h = absurd (cc)
  find?-Occurs p (y ∷ xs) x h = elim (Bool-cases (p y)) [
    | inl e ↦ (0, ground arith)
    | inr e ↦ let (i, at) = find?-Occurs p xs x (ground arith) in (suc i, at)
  ]

  pub find?-found :
      (p : A → Bool) (xs : List A) (x : A)
      → Occurs x xs
      → p x ≡ true
      → (y : A) × (find? p xs ≡ some y)
  find?-found p [] x o t = absurd (not-Occurs-nil x o)
  find?-found p (y ∷ xs) x (zero, at) t = (y, ground arith)
  find?-found p (y ∷ xs) x (suc i, at) t =
      let (z, found) = find?-found p xs x (i, at) t in (if p y then y else z, ground arith)

  -- A test that `f` does not change finds the image of what it found.
  pub find?-map :
      (p : A → Bool) (f : A → A) (xs : List A)
      → ((x : A) → p (f x) ≡ p x)
      → (x : A) → find? p xs ≡ some x
      → find? p (map f xs) ≡ some (f x)
  find?-map p f [] same x h = absurd (cc)
  find?-map p f (y ∷ xs) same x h = elim (Bool-cases (p y)) [
    | inl e ↦ rw (same y) (ground arith)
    | inr e ↦ let rest = find?-map p f xs same x (ground arith) in rw (same y) (ground arith)
  ]

  pub Occurs-update_where :
      (p : A → Bool) (f : A → A) (xs : List A) (y : A)
      → Occurs y (update_where p f xs)
      → (x : A) × Occurs x xs × (y ≡ (if p x then f x else x))
  Occurs-update_where p f [] y o = absurd (not-Occurs-nil y o)
  Occurs-update_where p f (x ∷ xs) y (zero, at) = (x, (0, refl), cc)
  Occurs-update_where p f (x ∷ xs) y (suc i, at) =
      let (z, there, same) = Occurs-update_where p f xs y (i, at) in
      (z, Occurs-cons z x xs there, same)

  pub Occurs-updated :
      (p : A → Bool) (f : A → A) (xs : List A) (x : A)
      → Occurs x xs
      → Occurs (if p x then f x else x) (update_where p f xs)
  Occurs-updated p f [] x o = absurd (not-Occurs-nil x o)
  Occurs-updated p f (y ∷ ys) x o = elim (Occurs-cases x y ys o) [
    | inl same ↦ (0, rw same refl)
    | inr there ↦ Occurs-cons _ _ (update_where p f ys) (Occurs-updated p f ys x there)
  ]

  pub Occurs-append : (x : A) (xs ys : List A) → Occurs x (xs ++ ys) → Occurs x xs ⊎ Occurs x ys
  Occurs-append x [] ys o = inr o
  Occurs-append x (y ∷ xs) ys o = elim (Occurs-cases x y (xs ++ ys) o) [
    | inl same ↦ inl (0, ap some same)
    | inr later ↦ elim (Occurs-append x xs ys later) [
      | inl l ↦ inl (Occurs-cons x y xs l)
      | inr r ↦ inr r
    ]
  ]

  pub Occurs-append_left : (x : A) (xs ys : List A) → Occurs x xs → Occurs x (xs ++ ys)
  Occurs-append_left x [] ys o = absurd (not-Occurs-nil x o)
  Occurs-append_left x (y ∷ xs) ys (zero, at) = (0, at)
  Occurs-append_left x (y ∷ xs) ys (suc i, at) =
      Occurs-cons x y (xs ++ ys) (Occurs-append_left x xs ys (i, at))

  pub Occurs-append_last : (x : A) (xs : List A) → Occurs x (xs ++ x ∷ [])
  Occurs-append_last x [] = (0, refl)
  Occurs-append_last x (y ∷ xs) = Occurs-cons x y (xs ++ x ∷ []) (Occurs-append_last x xs)

pub Occurs-map {ℓ κ} :
    {A : Type ℓ} {B : Type κ} (f : A → B) (x : A) (xs : List A)
    → Occurs x xs
    → Occurs (f x) (map f xs)
Occurs-map f x [] o = absurd (not-Occurs-nil x o)
Occurs-map f x (y ∷ xs) (zero, at) = (0, ap some (cc))
Occurs-map f x (y ∷ xs) (suc i, at) = Occurs-cons (f x) (f y) (map f xs) (Occurs-map f x xs (i, at))

module _ {ℓ} {A : Type ℓ} (p : A → Bool) where
  pub any-Occurs : (xs : List A) → any p xs ≡ true → (x : A) × Occurs x xs × (p x ≡ true)
  any-Occurs [] h = absurd (cc)
  any-Occurs (x ∷ xs) h = elim (Bool-cases (p x)) [
    | inl e ↦ (x, (0, refl), e)
    | inr e ↦
        let (y, there, holds_y) = any-Occurs xs (ground arith) in
        (y, Occurs-cons y x xs there, holds_y)
  ]

  pub Occurs-any : (x : A) (xs : List A) → Occurs x xs → p x ≡ true → any p xs ≡ true
  Occurs-any x [] (i, at) h = absurd (cc)
  Occurs-any x (y ∷ ys) (zero, at) h = ground arith
  Occurs-any x (y ∷ ys) (suc i, at) h = ground (arith, Occurs-any x ys (i, at) h)

pub Occurs-unmap {ℓ κ} :
    {A : Type ℓ} {B : Type κ} (f : A → B) (y : B) (xs : List A)
    → Occurs y (map f xs)
    → (x : A) × Occurs x xs × (f x ≡ y)
Occurs-unmap f y [] o = absurd (not-Occurs-nil y o)
Occurs-unmap f y (x ∷ xs) (zero, at) = (x, (0, refl), cc)
Occurs-unmap f y (x ∷ xs) (suc i, at) =
    let (z, there, same) = Occurs-unmap f y xs (i, at) in (z, Occurs-cons z x xs there, same)

module _ {ℓ} {A : Type ℓ} where
  pub last?-Occurs : (xs : List A) (x : A) → last? xs ≡ some x → Occurs x xs
  last?-Occurs [] x h = absurd (cc)
  last?-Occurs (y ∷ []) x h = (0, h)
  last?-Occurs (y ∷ z ∷ zs) x h = Occurs-cons x y (z ∷ zs) (last?-Occurs (z ∷ zs) x h)

  insert-Occurs_here : (le : A → A → Bool) (x : A) (xs : List A) → Occurs x (insert le x xs)
  unfolding insert
  insert-Occurs_here le x [] = (0, refl)
  insert-Occurs_here le x (y ∷ ys) = elim (Bool-cases (le x y)) [
    | inl e ↦ rw e in_front
    | inr e ↦ rw e (Occurs-cons x y (insert le x ys) (insert-Occurs_here le x ys))
  ]
    where
      in_front : Occurs x (x ∷ y ∷ ys)
      in_front = (0, refl)

  insert-Occurs :
      (le : A → A → Bool) (x z : A) (xs : List A) → Occurs z xs → Occurs z (insert le x xs)
  unfolding insert
  insert-Occurs le x z [] o = absurd (not-Occurs-nil z o)
  insert-Occurs le x z (y ∷ ys) o = elim (Bool-cases (le x y)) [
    | inl e ↦ rw e (Occurs-cons z x (y ∷ ys) o)
    | inr e ↦ rw e (elim (Occurs-cases z y ys o) [
      | inl same ↦ (0, ap some same)
      | inr later ↦ Occurs-cons z y (insert le x ys) (insert-Occurs le x z ys later)
    ])
  ]

  pub sort-Occurs : (le : A → A → Bool) (x : A) (xs : List A) → Occurs x xs → Occurs x (sort le xs)
  unfolding sort
  sort-Occurs le x [] o = o
  sort-Occurs le x (y ∷ ys) o = elim (Occurs-cases x y ys o) [
    | inl same ↦ rw same (insert-Occurs_here le x (sort le ys))
    | inr later ↦ insert-Occurs le y x (sort le ys) (sort-Occurs le x ys later)
  ]

pub Occurs-drop {ℓ} :
    {A : Type ℓ} (n : ℕ) (x : A) (xs : List A) → Occurs x (drop n xs) → Occurs x xs
Occurs-drop zero x xs o = o
Occurs-drop (suc n) x [] o = o
Occurs-drop (suc n) x (y ∷ ys) o = Occurs-cons x y ys (Occurs-drop n x ys o)

module _ {ℓ κ} {A : Type ℓ} (P : A → Type κ) where
  pub All-of : (xs : List A) → ((x : A) → Occurs x xs → P x) → All P xs
  All-of [] each = tt
  All-of (x ∷ xs) each = (each x (0, refl), All-of xs (λ y o. each y (Occurs-cons y x xs o)))

  pub All-at : (xs : List A) (x : A) → All P xs → Occurs x xs → P x
  All-at [] x all o = absurd (not-Occurs-nil x o)
  All-at (y ∷ ys) x (p, all) o = elim (Occurs-cases x y ys o) [
    | inl same ↦ subst P same p
    | inr there ↦ All-at ys x all there
  ]
