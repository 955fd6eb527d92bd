-- ===== src/Prelude/Keyed.antt =====
-- Lists of entries with a key, the way the program keeps them: an entry replaces the one with its
-- key, and the list is sorted again.
use Prim.Native.Nat.{ℕ, zero, suc}
use nazman.Prelude.Tests.{if◌then◌else◌, Bool-cases}
use nazman.Prelude.Lists.{All, get_elem?, find?, select, update_first, of_found}
use nazman.Prelude.Order.{insert, sort}
use mathlib.Core.Path.{◌≡◌, refl, ◌∙◌, ap, subst}
use mathlib.Core.Logic.{◌↔◌, inl, inr}
use mathlib.Core.Bool.{Bool, true, not}
use mathlib.Core.Option.{Option, none, some}
use mathlib.Core.List.{List, [], ◌∷◌, ◌++◌}
use native.Mathlib.Omega.{arith}

-- A test of keys that decides their equality.
pub record Keys {ℓ} (K : Type ℓ) : Type ℓ where
  pub same : K → K → Bool
  pub same_iff : (a b : K) → (same a b ≡ true) ↔ (a ≡ b)

module _ {ℓ} {K A : Type ℓ} (keys : Keys K) (key : A → K) where
  abbrev pub has_key : K → A → Bool
  has_key k x = keys.same (key x) k

  abbrev pub find_key : K → List A → Option A
  find_key k xs = find? (has_key k) xs

  -- `entries[:] = [e for e in entries if key(e) != k]`
  abbrev pub without_key : K → List A → List A
  without_key k xs = select (λ x. not (has_key k x)) xs

  abbrev pub replace_key : A → List A → List A
  replace_key x xs = without_key (key x) xs ++ x ∷ []

  -- `entries[key(x)] = x`, for a dictionary in the order of its first insertions
  abbrev pub set_key : A → List A → List A
  set_key x [] = x ∷ []
  set_key x (y ∷ ys) = if has_key (key x) y then x ∷ ys else y ∷ set_key x ys

  abbrev pub set_all : List A → List A → List A
  set_all [] d = d
  set_all (x ∷ xs) d = set_all xs (set_key x d)

  -- no key stands twice
  abbrev pub IsKeyed : List A → Type ℓ
  IsKeyed [] = Unit
  IsKeyed (x ∷ xs) = (find_key (key x) xs ≡ none) × IsKeyed xs

  pub same_self : (k : K) → keys.same k k ≡ true
  same_self k = (keys.same_iff k k).1 refl

  pub find_key-without_key :
      (k j : K) (xs : List A)
      → find_key j (without_key k xs) ≡ (if keys.same k j then none else find_key j xs)
  find_key-without_key k j [] = elim (Bool-cases (keys.same k j)) [ inl e ↦ rw e | inr e ↦ rw e ]
  find_key-without_key k j (x ∷ xs) = ground (
    arith,
    find_key-without_key k j xs,
    keys.same_iff (key x) k,
    keys.same_iff (key x) j,
    keys.same_iff k j,
  )

  pub find_key-append_last :
      (x : A) (j : K) (xs : List A)
      → find_key (key x) xs ≡ none
      → find_key j (xs ++ x ∷ []) ≡ (if keys.same (key x) j then some x else find_key j xs)
  find_key-append_last x j [] h = refl
  find_key-append_last x j (y ∷ ys) h = ground (
    arith,
    find_key-append_last x j ys,
    keys.same_iff (key y) j,
    keys.same_iff (key y) (key x),
    keys.same_iff (key x) j,
  )

  pub find_key-insert :
      (le : A → A → Bool) (x : A) (j : K) (xs : List A)
      → find_key (key x) xs ≡ none
      → find_key j (insert le x xs) ≡ (if keys.same (key x) j then some x else find_key j xs)
  unfolding insert
  find_key-insert le x j [] h = refl
  find_key-insert le x j (y ∷ ys) h = ground (
    arith,
    find_key-insert le x j ys,
    keys.same_iff (key y) j,
    keys.same_iff (key y) (key x),
    keys.same_iff (key x) j,
  )

  IsKeyed-insert :
      (le : A → A → Bool) (x : A) (xs : List A)
      → find_key (key x) xs ≡ none
      → IsKeyed xs
      → IsKeyed (insert le x xs)
  unfolding insert
  IsKeyed-insert le x [] h k = (refl, tt)
  IsKeyed-insert le x (y ∷ ys) h k = ground (
    arith,
    IsKeyed-insert le x ys,
    find_key-insert le x (key y) ys,
    keys.same_iff (key y) (key x),
    keys.same_iff (key x) (key y),
  )

  -- Sorting keeps the keys apart, and finds what was found.
  pub find_key-sort :
      (le : A → A → Bool) (j : K) (xs : List A)
      → IsKeyed xs
      → find_key j (sort le xs) ≡ find_key j xs
  unfolding sort
  find_key-sort le j [] k = refl
  find_key-sort le j (x ∷ xs) (h, k) =
      find_key-insert le x j (sort le xs) (find_key-sort le (key x) xs k ∙ h)
      ∙ rw (find_key-sort le j xs k) refl

  pub IsKeyed-sort : (le : A → A → Bool) (xs : List A) → IsKeyed xs → IsKeyed (sort le xs)
  unfolding sort
  IsKeyed-sort le [] k = tt
  IsKeyed-sort le (x ∷ xs) (h, k) =
      IsKeyed-insert le x (sort le xs) (find_key-sort le (key x) xs k ∙ h) (IsKeyed-sort le xs k)

  IsKeyed-without_key : (k : K) (xs : List A) → IsKeyed xs → IsKeyed (without_key k xs)
  IsKeyed-without_key k [] h = tt
  IsKeyed-without_key k (x ∷ xs) (h, t) = ground (
    arith,
    IsKeyed-without_key k xs,
    find_key-without_key k (key x) xs,
    keys.same_iff (key x) k,
    keys.same_iff k (key x),
  )

  pub IsKeyed-append_last :
      (x : A) (xs : List A) → find_key (key x) xs ≡ none → IsKeyed xs → IsKeyed (xs ++ x ∷ [])
  IsKeyed-append_last x [] h k = (refl, tt)
  IsKeyed-append_last x (y ∷ ys) h (h', k) = ground (
    arith,
    IsKeyed-append_last x ys,
    find_key-append_last x (key y) ys,
    keys.same_iff (key y) (key x),
    keys.same_iff (key x) (key y),
  )

  gone : (x : A) (xs : List A) → find_key (key x) (without_key (key x) xs) ≡ none
  gone x xs = find_key-without_key (key x) (key x) xs ∙ rw (same_self (key x)) refl

  pub IsKeyed-replace_key : (x : A) (xs : List A) → IsKeyed xs → IsKeyed (replace_key x xs)
  IsKeyed-replace_key x xs k =
      IsKeyed-append_last x (without_key (key x) xs) (gone x xs) (IsKeyed-without_key (key x) xs k)

  pub find_key-replace_key :
      (x : A) (j : K) (xs : List A)
      → find_key j (replace_key x xs) ≡ (if keys.same (key x) j then some x else find_key j xs)
  find_key-replace_key x j xs =
      find_key-append_last x j (without_key (key x) xs) (gone x xs)
      ∙ rw (find_key-without_key (key x) j xs)
          (elim (Bool-cases (keys.same (key x) j)) [ inl e ↦ rw e refl | inr e ↦ rw e refl ])

  -- A change of the entry with a key that keeps its key.
  module _ (k : K) (f : A → A) (same_key : (x : A) → key (f x) ≡ key x) where
    pub find_key-update_first :
        (j : K) (xs : List A)
        → find_key j (update_first (has_key k) f xs)
          ≡ (if keys.same k j then of_found f (find_key j xs) else find_key j xs)
    find_key-update_first j [] = elim (Bool-cases (keys.same k j)) [ inl e ↦ rw e | inr e ↦ rw e ]
    find_key-update_first j (x ∷ xs) = ground (
      arith,
      find_key-update_first j xs,
      same_key x,
      keys.same_iff (key x) k,
      keys.same_iff (key x) j,
      keys.same_iff k j,
    )

    pub IsKeyed-update_first : (xs : List A) → IsKeyed xs → IsKeyed (update_first (has_key k) f xs)
    IsKeyed-update_first [] h = tt
    IsKeyed-update_first (x ∷ xs) (h, t) =
        ground (arith, IsKeyed-update_first xs, find_key-update_first (key x) xs, same_key x)

  find_key-set_key :
      (x : A) (j : K) (xs : List A)
      → find_key j (set_key x xs) ≡ (if keys.same (key x) j then some x else find_key j xs)
  find_key-set_key x j [] = refl
  find_key-set_key x j (y ∷ ys) = ground (
    arith,
    find_key-set_key x j ys,
    keys.same_iff (key y) (key x),
    keys.same_iff (key y) j,
    keys.same_iff (key x) j,
  )

  IsKeyed-set_key : (x : A) (xs : List A) → IsKeyed xs → IsKeyed (set_key x xs)
  IsKeyed-set_key x [] h = (refl, tt)
  IsKeyed-set_key x (y ∷ ys) (h, k) = ground (
    arith,
    IsKeyed-set_key x ys k,
    find_key-set_key x (key y) ys,
    h,
    k,
    keys.same_iff (key y) (key x),
    keys.same_iff (key x) (key y),
    λ (same : key y ≡ key x). subst (λ n. find_key n ys ≡ none) same h,
  )

  pub IsKeyed-set_all : (xs d : List A) → IsKeyed d → IsKeyed (set_all xs d)
  IsKeyed-set_all [] d k = k
  IsKeyed-set_all (x ∷ xs) d k = IsKeyed-set_all xs (set_key x d) (IsKeyed-set_key x d k)

  find_key-absent :
      (j : K) (xs d : List A) → find_key j xs ≡ none → find_key j (set_all xs d) ≡ find_key j d
  find_key-absent j [] d h = refl
  find_key-absent j (x ∷ xs) d h =
      ground
        (arith, find_key-absent j xs (set_key x d), find_key-set_key x j d, keys.same_iff (key x) j)

  -- Entries with different keys are all found in the dictionary.
  pub find_key-set_all :
      (xs d : List A)
      → IsKeyed xs
      → (i : ℕ) (x : A) → get_elem? xs i ≡ some x
      → find_key (key x) (set_all xs d) ≡ some x
  find_key-set_all [] d k i x h = absurd (cc)
  find_key-set_all (y ∷ ys) d (h, k) zero x at =
      let same : y ≡ x = cc in
      find_key-absent (key x) ys (set_key y d) (subst (λ z. find_key (key z) ys ≡ none) same h)
      ∙ find_key-set_key y (key x) d
      ∙ rw ((keys.same_iff (key y) (key x)).1 (ap key same), same) refl
  find_key-set_all (y ∷ ys) d (h, k) (suc i) x at = find_key-set_all ys (set_key y d) k i x at

  -- Every entry of the dictionary comes from the entries that were put in.
  pub set_all-from {κ} :
      (P : A → Type κ) (xs d : List A) → All P xs → All P d → All P (set_all xs d)
  set_all-from P [] d px pd = pd
  set_all-from P (x ∷ xs) d (p, px) pd = set_all-from P xs (set_key x d) px (put d pd)
    where
      put : (d : List A) → All P d → All P (set_key x d)
      put [] pd = (p, tt)
      put (y ∷ ys) (q, pd) = elim (Bool-cases (has_key (key x) y)) [
        | inl e ↦ rw e (p, pd)
        | inr e ↦ rw e (q, put ys pd)
      ]

  pub find_key-member :
      (xs : List A)
      → IsKeyed xs
      → (i : ℕ) (x : A) → get_elem? xs i ≡ some x
      → find_key (key x) xs ≡ some x
  find_key-member [] k i x at = absurd (cc)
  find_key-member (y ∷ ys) (h, k) zero x at =
      let same : y ≡ x = cc in rw (same, same_self (key x)) refl
  find_key-member (y ∷ ys) (h, k) (suc i) x at = elim (Bool-cases (has_key (key x) y)) [
    | inl e ↦
        let same : key y ≡ key x = (keys.same_iff (key y) (key x)).0 e in
        let later = find_key-member ys k i x at in absurd (cc)
    | inr e ↦ rw e (find_key-member ys k i x at)
  ]
