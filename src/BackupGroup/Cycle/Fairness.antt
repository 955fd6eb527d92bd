-- ===== src/BackupGroup/Cycle/Fairness.antt =====
-- Where the pointer of a group stands in the cycle of its sets.
use mathlib.Core.Path.{◌≡⟨◌⟩◌, ◌∎}
use native.Mathlib.Nat.{add-mod-mod, mod-lt, mod-add-mod, mod-eq_of_lt, add-mod_right, div-add-mod'}
use nazman.Prelude.{
  ℕ, zero, suc, ◌+◌, ◌-◌, ◌*◌, ◌/◌, ◌%◌, ◌<◌, ◌≡◌, refl, sym, ap, ◌∙◌, Bool, true, Option, some,
  List, [], ◌∷◌, length, get_elem?, get_elem?-lt, find?, find?-some-holds, arith, if◌then◌else◌,
  holds, Bool-cases, Option-cases, ==_iff, ==_self, inl, inr,
}
use nazman.BackupGroup.Rows.{Group, BackupSet}
use nazman.BackupGroup.Cycle.{copies_of, target_sets, active_set, rotate}
use nazman.BackupGroup.Cycle.Rotation.{IsCycle, placed_targets, rotate_lem}

-- The group after a session whose writes all went through.
abbrev pub after_session : BackupSet → List BackupSet → Group → Group
after_session first rest group =
    let (group', bset) = active_set group first rest in
    (rotate group' (first ∷ rest) bset (length (target_sets group' (first ∷ rest) bset))).0

-- The sets that the next session writes.
abbrev pub next_targets : BackupSet → List BackupSet → Group → List BackupSet
next_targets first rest group =
    let (group', bset) = active_set group first rest in target_sets group' (first ∷ rest) bset

-- The group, once its pointer has been repaired, points at the set that stands at `at`.
pub record PointsAt (first : BackupSet) (rest : List BackupSet) (copies at : ℕ) (group : Group)
    : Type 0 where
  pub bset : BackupSet
  pub standing : get_elem? (first ∷ rest) at ≡ some bset
  pub active : (active_set group first rest).1 ≡ bset
  pub kept : (active_set group first rest).0.copies ≡ copies

find?-at {ℓ} :
    {A : Type ℓ} (p : A → Bool) (xs : List A) (x : A)
    → find? p xs ≡ some x
    → (i : ℕ) × (get_elem? xs i ≡ some x)
find?-at p [] x h = absurd (cc)
find?-at p (y ∷ xs) x h = elim (Bool-cases (p y)) [
  | inl e ↦ (0, ground arith)
  | inr e ↦ let (i, at) = find?-at p xs x (ground arith) in (suc i, at)
]

find?-found {ℓ} :
    {A : Type ℓ} (p : A → Bool) (xs : List A) (i : ℕ) (x : A)
    → get_elem? xs i ≡ some x
    → p x ≡ true
    → (y : A) × (find? p xs ≡ some y)
find?-found p [] i x h t = absurd (cc)
find?-found p (y ∷ xs) zero x h t = (y, ground arith)
find?-found p (y ∷ xs) (suc i) x h t =
    let (z, found) = find?-found p xs i x h t in (if p y then y else z, ground arith)

-- `d` steps from `at` lead to `t`, also when they are taken as whole windows and a remainder.
pub reaches :
    (at t d c n : ℕ)
    → at < n
    → t < n
    → d ≡ (t + n - at) % n
    → ((at + d / c * c) % n + d % c) % n ≡ t
reaches at t d c n ha ht e =
    ((at + d / c * c) % n + d % c) % n
    ≡⟨ mod-add-mod (at + d / c * c) n (d % c) ⟩ (at + d / c * c + d % c) % n
    ≡⟨ ap (λ (m : ℕ). m % n) (omega (arith, div-add-mod' d c)) ⟩ (at + d) % n
    ≡⟨ ap (λ (m : ℕ). (at + m) % n) e ∙ add-mod-mod at (t + n - at) n ⟩ (at + (t + n - at)) % n
    ≡⟨ ap (λ (m : ℕ). m % n) (omega arith) ⟩ (t + n) % n
    ≡⟨ add-mod_right t n ∙ mod-eq_of_lt ht ⟩ t ∎

module _ (first : BackupSet) (rest : List BackupSet) (distinct : IsCycle (first ∷ rest)) where
  abbrev sets : List BackupSet
  sets = first ∷ rest

  pub active_set_at : (group : Group) → (at : ℕ) × PointsAt first rest group.copies at group
  unfolding active_set
  active_set_at group = elim (Option-cases (find? (λ s. holds group.active_set_id s.id) sets)) [
    | inl e ↦ (
      0,
      record {
        bset = first;
        standing = refl;
        active = rw (e, active_set);
        kept = rw (e, active_set);
      },
    )
    | inr (b, e) ↦
        let (i, at) = find?-at (λ s. holds group.active_set_id s.id) sets b e in
        (
          i,
          record {
            bset = b;
            standing = at;
            active = rw (e, active_set);
            kept = rw (e, active_set);
          },
        )
  ]

  active_set_of_pointer :
      (group : Group) (at : ℕ) (x : BackupSet)
      → get_elem? sets at ≡ some x
      → group.active_set_id ≡ some x.id
      → active_set group first rest ≡ (group, x)
  unfolding active_set
  active_set_of_pointer group at x standing points =
      let p = λ (s : BackupSet). holds group.active_set_id s.id in
      let (y, found) = find?-found p sets at x standing (rw points (==_self x.id)) in
      let (i, there) = find?-at p sets y found in
      let same : x.id ≡ y.id =
        (==_iff x.id y.id).0 (rw points at (find?-some-holds p sets y found)) in
      let place : i ≡ at = distinct i at y x there standing (sym same) in
      let y_is_x : y ≡ x = let met = rw place at there in cc in
      rw (found, active_set) (ap (λ (s : BackupSet). (group, s)) y_is_x)

  pub PointsAt-after_session :
      (group : Group) (copies at : ℕ)
      → PointsAt first rest copies at group
      → PointsAt first rest copies
          ((at + copies_of copies (length sets)) % length sets)
          (after_session first rest group)
  PointsAt-after_session group copies at p =
      let n = length sets in
      let g = (active_set group first rest).0 in
      let b = p.bset in
      let k = length (target_sets g sets b) in
      let (count, _) = placed_targets g sets b at distinct p.standing in
      let steps : k ≡ copies_of copies n = count ∙ ap (λ (c : ℕ). copies_of c n) p.kept in
      let (x, found) = get_elem?-lt sets ((at + k) % n) (mod-lt (at + k) (omega arith)) in
      let on = λ (s : BackupSet). (rotate g sets s (length (target_sets g sets s))).0 in
      let moved : after_session first rest group ≡ record g { active_set_id = some x.id } =
        ap on p.active
        ∙ ap (λ (r : Group × Option ℕ). r.0) (rotate_lem g sets b at distinct p.standing x found) in
      let there : get_elem? sets ((at + copies_of copies n) % n) ≡ some x =
        ap (λ (t : ℕ). get_elem? sets ((at + t) % n)) (sym steps) ∙ found in
      let points =
        active_set_of_pointer (record g { active_set_id = some x.id })
          ((at + copies_of copies n) % n) x there refl in
      rw moved (record {
        bset = x;
        standing = there;
        active = ap (λ (r : Group × BackupSet). r.1) points;
        kept = ap (λ (r : Group × BackupSet). r.0.copies) points ∙ p.kept;
      })

  -- the other columns of the row do not count
  pub PointsAt-touched :
      (group group' : Group) (copies at : ℕ)
      → group'.active_set_id ≡ group.active_set_id
      → group'.copies ≡ group.copies
      → PointsAt first rest copies at group
      → PointsAt first rest copies at group'
  unfolding active_set
  PointsAt-touched group group' copies at same kept p =
      let lookup = λ (i : Option ℕ). find? (λ (s : BackupSet). holds i s.id) sets in
      elim (Option-cases (find? (λ s. holds group.active_set_id s.id) sets)) [
        | inl e ↦
            let e' = ap lookup same ∙ e in
            record {
              bset = p.bset;
              standing = p.standing;
              active = rw (e', active_set) (rw (e, active_set) at p.active);
              kept = rw (e', active_set) (kept ∙ (rw (e, active_set) at p.kept));
            }
        | inr (b, e) ↦
            let e' = ap lookup same ∙ e in
            record {
              bset = p.bset;
              standing = p.standing;
              active = rw (e', active_set) (rw (e, active_set) at p.active);
              kept = rw (e', active_set) (kept ∙ (rw (e, active_set) at p.kept));
            }
      ]

  -- nor does it matter whether the active set was chosen before
  pub PointsAt-chosen :
      (group : Group) (copies at : ℕ)
      → PointsAt first rest copies at group
      → PointsAt first rest copies at (active_set group first rest).0
  unfolding active_set
  PointsAt-chosen group copies at p =
      elim (Option-cases (find? (λ s. holds group.active_set_id s.id) sets)) [
        | inl e ↦
            let here : first ≡ p.bset = rw (e, active_set) at p.active in
            let points =
              active_set_of_pointer (record group { active_set_id = some first.id }) 0 first refl
                refl in
            let made : PointsAt first rest copies at
                (record group { active_set_id = some first.id }) =
              record {
                bset = p.bset;
                standing = p.standing;
                active = ap (λ (r : Group × BackupSet). r.1) points ∙ here;
                kept =
                    ap (λ (r : Group × BackupSet). r.0.copies) points
                    ∙ (rw (e, active_set) at p.kept);
              } in
            rw (e, active_set) made
        | inr (b, e) ↦ rw (e, active_set) p
      ]

  -- where a window holds the set that stands at `t`
  pub next_targets_at :
      (group : Group) (copies at i t : ℕ) (s : BackupSet)
      → PointsAt first rest copies at group
      → i < copies_of copies (length sets)
      → (at + i) % length sets ≡ t
      → get_elem? sets t ≡ some s
      → get_elem? (next_targets first rest group) i ≡ some s
  next_targets_at group copies at i t s p inside at_t standing =
      let g = (active_set group first rest).0 in
      let (count, placed) = placed_targets g sets p.bset at distinct p.standing in
      let enough : i < length (target_sets g sets p.bset) =
        rw (count ∙ ap (λ (m : ℕ). copies_of m (length sets)) p.kept) inside in
      ap (λ (b : BackupSet). get_elem? (target_sets g sets b) i) p.active
      ∙ placed i enough
      ∙ ap (get_elem? sets) at_t
      ∙ standing
