-- ===== src/BackupGroup/Cycle/Rotation.antt =====
-- Which sets a session writes, and where the next one starts.
use native.Mathlib.Nat.{mod-lt, mod-eq-sub-mod, add-mod-mod, mod-eq_of_lt}
use native.Mathlib.Decide.{dec_lt}
use nazman.Prelude.{
  ◌⊎◌, any, Bool, ℕ, zero, suc, ◌+◌, ◌-◌, ◌%◌, ◌≤◌, ◌<◌, ◌≡◌, refl, sym, ap, ◌∙◌, some, List, [],
  ◌∷◌, length, get_elem?, get_elem?-some-lt, arith, if◌then◌else◌, ◌==◌, true, false, Bool-cases,
  Option-cases, ==_iff, ==_self, inl, inr,
}
use nazman.BackupGroup.Rows.{Group, BackupSet}
use nazman.BackupGroup.Cycle.{
  index_of, get_or, or_one, or_zero, copies_of, window, target_sets, rotate,
}

-- No two sets of the cycle have the same id: it is the table's primary key.
abbrev pub IsCycle : List BackupSet → Type 0
IsCycle sets =
    (i j : ℕ) (x y : BackupSet)
    → get_elem? sets i ≡ some x
    → get_elem? sets j ≡ some y
    → x.id ≡ y.id
    → i ≡ j

get_or-get_elem? {ℓ} :
    {A : Type ℓ} (xs : List A) (i : ℕ) (d : A)
    → i < length xs
    → get_elem? xs i ≡ some (get_or xs i d)
get_or-get_elem? [] i d h = elim h [ ]
get_or-get_elem? (x ∷ xs) zero d h = refl
get_or-get_elem? (x ∷ xs) (suc i) d h = get_or-get_elem? xs i d (omega arith)

pub get_or-eq {ℓ} :
    {A : Type ℓ} (xs : List A) (i : ℕ) (d x : A) → get_elem? xs i ≡ some x → get_or xs i d ≡ x
get_or-eq [] i d x h = absurd (cc)
get_or-eq (y ∷ xs) zero d x h = cc
get_or-eq (y ∷ xs) (suc i) d x h = get_or-eq xs i d x h

pub copies_of-pos : (c n : ℕ) → 0 < copies_of c n
unfolding copies_of
copies_of-pos c n = omega arith

pub copies_of-le : (c n : ℕ) → 0 < n → copies_of c n ≤ n
unfolding copies_of
copies_of-le c n h = omega arith

length-window :
    (d : BackupSet) (sets : List BackupSet) (start i k : ℕ) → length (window d sets start i k) ≡ k
unfolding window
length-window d sets start i zero = refl
length-window d sets start i (suc k) = ap suc (length-window d sets start (suc i) k)

get_elem?-window :
    (d : BackupSet) (sets : List BackupSet) (start i k j : ℕ)
    → 0 < length sets
    → j < k
    → get_elem? (window d sets start i k) j ≡ get_elem? sets ((start + (i + j)) % length sets)
unfolding window
get_elem?-window d sets start i zero j n h = elim h [ ]
get_elem?-window d sets start i (suc k) zero n h =
    sym (get_or-get_elem? sets ((start + i) % length sets) d (mod-lt (start + i) n))
    ∙ ap (λ (t : ℕ). get_elem? sets (t % length sets)) (omega arith)
get_elem?-window d sets start i (suc k) (suc j) n h =
    get_elem?-window d sets start (suc i) k j n (omega arith)
    ∙ ap (λ (t : ℕ). get_elem? sets (t % length sets)) (omega arith)

index_of-some :
    (n : ℕ) (sets : List BackupSet) (i : ℕ)
    → index_of n sets ≡ some i
    → (x : BackupSet) × (get_elem? sets i ≡ some x) × (x.id ≡ n)
unfolding index_of
index_of-some n [] i h = absurd (cc)
index_of-some n (s ∷ ss) i h = elim (Bool-cases (s.id == n)) [
  | inl e ↦ let z : i ≡ 0 = ground arith in (s, rw z, (==_iff s.id n).0 e)
  | inr e ↦ elim (Option-cases (index_of n ss)) [
    | inl gone ↦ ground arith
    | inr (k, found) ↦
        let (x, at, same) = index_of-some n ss k found in
        let z : i ≡ suc k = ground arith in (x, rw z at, same)
  ]
]

index_of-found :
    (sets : List BackupSet) (j : ℕ) (x : BackupSet)
    → get_elem? sets j ≡ some x
    → (i : ℕ) × (index_of x.id sets ≡ some i)
unfolding index_of
index_of-found [] j x h = absurd (cc)
index_of-found (s ∷ ss) zero x h = (0, ground (arith, ==_self x.id))
index_of-found (s ∷ ss) (suc j) x h =
    let (k, found) = index_of-found ss j x h in (if s.id == x.id then 0 else suc k, ground arith)

-- The position of a set in the cycle is the one at which it stands.
pub index_of_at :
    (sets : List BackupSet) (j : ℕ) (x : BackupSet)
    → IsCycle sets
    → get_elem? sets j ≡ some x
    → index_of x.id sets ≡ some j
index_of_at sets j x distinct h =
    let (i, e) = index_of-found sets j x h in
    let (y, at, same) = index_of-some x.id sets i e in e ∙ ap some (distinct i j y x at h same)

-- Less than a whole round apart, two steps round the cycle end at different places.
mod_injective : (a i j n : ℕ) → a < n → i < n → j < n → (a + i) % n ≡ (a + j) % n → i ≡ j
mod_injective a i j n ha hi hj e = omega (arith, wrapped a i n ha hi, wrapped a j n ha hj)
  where
    wrapped :
        (a i n : ℕ)
        → a < n
        → i < n
        → ((a + i) % n ≡ a + i) × (a + i < n) ⊎ ((a + i) % n + n ≡ a + i)
    wrapped a i n ha hi = elim (dec_lt (a + i) n) [
      | yes p ↦ inl (mod-eq_of_lt p, p)
      | no p ↦ inr (
          omega (
            arith,
            mod-eq-sub-mod {n = a + i} {m = n} (omega arith),
            mod-eq_of_lt {n = a + i - n} {m = n} (omega arith),
          ))
    ]

or_one_pos : (k : ℕ) → 0 < k → or_one k ≡ k
or_one_pos zero h = elim h [ ]
or_one_pos (suc k) h = refl

module _ (group : Group) (sets : List BackupSet) (active : BackupSet) (at : ℕ)
    (distinct : IsCycle sets) (standing : get_elem? sets at ≡ some active) where
  nonempty : 0 < length sets
  nonempty = omega (arith, get_elem?-some-lt sets at standing)

  start_at : or_zero (index_of active.id sets) ≡ at
  start_at = ap or_zero (index_of_at sets at active distinct standing)

  -- how many sets there are, and where they stand
  pub placed_targets :
      (length (target_sets group sets active) ≡ copies_of group.copies (length sets))
      × ((i : ℕ)
          → i < length (target_sets group sets active)
          → get_elem? (target_sets group sets active) i ≡ get_elem? sets ((at + i) % length sets))
  unfolding target_sets
  placed_targets =
      let start = or_zero (index_of active.id sets) in
      let k = copies_of group.copies (length sets) in
      let count = length-window active sets start 0 k in
      (
        count,
        λ i h.
            get_elem?-window active sets start 0 k i nonempty (rw count at h)
            ∙ ap (λ (t : ℕ). get_elem? sets (t % length sets)) (omega (arith, start_at)),
      )

  -- The sets of one session are all different, for a cycle of sets with different ids in which
  -- the active one stands.
  pub target_sets_distinct :
      (i j : ℕ) (x y : BackupSet)
      → get_elem? (target_sets group sets active) i ≡ some x
      → get_elem? (target_sets group sets active) j ≡ some y
      → x.id ≡ y.id
      → i ≡ j
  target_sets_distinct i j x y hi hj same =
      let n = length sets in
      let (count, placed) = placed_targets in
      let fits = copies_of-le group.copies n nonempty in
      let li = get_elem?-some-lt (target_sets group sets active) i hi in
      let lj = get_elem?-some-lt (target_sets group sets active) j hj in
      let a = get_elem?-some-lt sets at standing in
      mod_injective at i j n a (omega arith) (omega arith) (
        distinct ((at + i) % n) ((at + j) % n) x y (sym (placed i li) ∙ hi) (sym (placed j lj) ∙ hj)
          same)

  -- After a session on `k` sets the group points at the set that follows the last one written.
  pub rotate_lem :
      (x : BackupSet)
      → get_elem? sets ((at + length (target_sets group sets active)) % length sets) ≡ some x
      → rotate group sets active (length (target_sets group sets active))
        ≡ (record group { active_set_id = some x.id }, some x.id)
  unfolding rotate
  rotate_lem x h =
      let n = length sets in
      let k = length (target_sets group sets active) in
      let (count, _) = placed_targets in
      let one = or_one_pos k (omega (arith, copies_of-pos group.copies n)) in
      let where_to : (at + or_one k % n) % n ≡ (at + k) % n =
        ap (λ (t : ℕ). (at + t % n) % n) one ∙ add-mod-mod at k n in
      let found : get_or sets ((at + or_one k % n) % n) active ≡ x =
        get_or-eq sets ((at + or_one k % n) % n) active x (ap (get_elem? sets) where_to ∙ h) in
      rw (index_of_at sets at active distinct standing, rotate) (rw found refl)

absent {ℓ} :
    {A : Type ℓ} (xs : List A) (i : ℕ) (x : A)
    → get_elem? xs i ≡ some x
    → (p : A → Bool) → any p xs ≡ false
    → p x ≡ true
    → ⊥
absent [] i x h p out t = cc
absent (y ∷ xs) zero x h p out t = ground arith
absent (y ∷ xs) (suc i) x h p out t = absent xs i x h p (ground arith) t

-- How a concrete cycle is seen to have distinct ids.
pub IsCycle-nil : IsCycle []
IsCycle-nil i j x y hi hj same = absurd (cc)

pub IsCycle-cons :
    (s : BackupSet) (ss : List BackupSet)
    → any (λ t. t.id == s.id) ss ≡ false
    → IsCycle ss
    → IsCycle (s ∷ ss)
IsCycle-cons s ss new rest zero zero x y hi hj same = refl
IsCycle-cons s ss new rest zero (suc j) x y hi hj same =
    absurd
      (absent ss j y hj (λ (t : BackupSet). t.id == s.id) new (ground (arith, ==_iff y.id s.id)))
IsCycle-cons s ss new rest (suc i) zero x y hi hj same =
    absurd
      (absent ss i x hi (λ (t : BackupSet). t.id == s.id) new (ground (arith, ==_iff x.id s.id)))
IsCycle-cons s ss new rest (suc i) (suc j) x y hi hj same = ap suc (rest i j x y hi hj same)
