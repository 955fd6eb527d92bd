-- ===== src/BackupGroup/Sets/Renumber.antt =====
-- What `_renumber` does to the positions of a group's sets.
use nazman.Prelude.{
  ℕ, zero, suc, ◌+◌, ◌≡◌, refl, sym, ap, ◌∙◌, Option, some, List, [], ◌∷◌, get_elem?, find?,
  find?-some-holds, select, arith, ◌==◌, ==_iff, ==_self, Option-cases, inl, inr, Result, ok, err,
  ◌⊎◌, ◌≢◌, Bool-cases, ==_false_ne, ◌>>=◌, guard_not, modify, Bool, true, false,
}
use nazman.Prelude.Order.{sort}
use nazman.Prelude.Occurs.{Occurs-sort, Occurs-select, find?-Occurs, find?-found, find?-map}
use nazman.BackupGroup.Rows.{Db, BackupSet}
use nazman.BackupGroup.Cycle.Rotation.{IsCycle}
use nazman.BackupGroup.Sets.{
  by_position_and_id, by_id, renumber_order, numbered, written, renumbered, moved, collides,
  renumber,
}
use nazman.BackupGroup.Sets.Collisions.{IsAscending, IsAscending-free}
use nazman.BackupGroup.Tables.{Act, Error, integrity_error}

-- The row of a set, by its id.
abbrev pub set_row : Db → ℕ → Option BackupSet
set_row db set_id = find? (λ s. s.id == set_id) db.sets

pub written-id : (rows : List BackupSet) (s : BackupSet) → (written rows s).id ≡ s.id
written-id rows s = elim (Option-cases (find? (λ r. r.id == s.id) rows)) [
  | inl e ↦ rw (e, written)
  | inr (r, e) ↦
      rw (e, written) ((==_iff r.id s.id).0 (find?-some-holds (λ r. r.id == s.id) rows r e))
]

get_elem?-numbered :
    (index : ℕ) (rows : List BackupSet) (i : ℕ) (s : BackupSet)
    → get_elem? rows i ≡ some s
    → get_elem? (numbered index rows) i ≡ some (record s { position = index + i })
unfolding numbered
get_elem?-numbered index [] i s h = absurd (cc)
get_elem?-numbered index (r ∷ rows) zero s h =
    let first : r ≡ s = cc in
    rw first (ap (λ (n : ℕ). some (record s { position = n })) (omega arith))
get_elem?-numbered index (r ∷ rows) (suc i) s h =
    get_elem?-numbered (suc index) rows i s h
    ∙ ap (λ (n : ℕ). some (record s { position = n })) (omega arith)

pub get_elem?-of_numbered :
    (index : ℕ) (rows : List BackupSet) (i : ℕ) (r : BackupSet)
    → get_elem? (numbered index rows) i ≡ some r
    → (s : BackupSet) × (get_elem? rows i ≡ some s) × (s.id ≡ r.id) × (s.group_id ≡ r.group_id)
unfolding numbered
get_elem?-of_numbered index [] i s h = absurd (cc)
get_elem?-of_numbered index (r ∷ rows) zero s h = (r, refl, cc, cc)
get_elem?-of_numbered index (r ∷ rows) (suc i) s h = get_elem?-of_numbered (suc index) rows i s h

-- which row is written, if any is
moved-cases :
    (index : ℕ) (rows : List BackupSet)
    → (moved index rows ≡ [])
      ⊎ ((j : ℕ) × (x : BackupSet) × (get_elem? rows j ≡ some x) × (x.position ≢ index + j))
unfolding moved
moved-cases index [] = inl refl
moved-cases index (r ∷ rows) = elim (Bool-cases (r.position == index)) [
  | inl e ↦ elim (moved-cases (suc index) rows) [
    | inl still ↦ inl (rw e still)
    | inr (j, x, at, other) ↦ inr (suc j, x, at, λ same. other (omega (arith, same)))
  ]
  | inr e ↦ inr (0, r, refl, λ same. ==_false_ne r.position index e (omega (arith, same)))
]

module _ (group_id : ℕ) (db : Db) where
  abbrev order : List BackupSet
  order = renumber_order group_id db

  -- the row that `_renumber` writes for a set with the id of the one at place `i`
  written-order :
      (i : ℕ) (s y : BackupSet)
      → IsCycle order
      → get_elem? order i ≡ some s
      → y.id ≡ s.id
      → written (numbered 0 order) y ≡ record s { position = i }
  written-order i s y distinct at same =
      let rows = numbered 0 order in
      let new : BackupSet = record s { position = i } in
      let place : get_elem? rows i ≡ some new =
        get_elem?-numbered 0 order i s at
        ∙ ap (λ (n : ℕ). some (record s { position = n })) (omega arith) in
      let test = λ (r : BackupSet). r.id == y.id in
      let (r, found) = find?-found test rows new (i, place) ((==_iff s.id y.id).1 (sym same)) in
      let (j, there) = find?-Occurs test rows r found in
      let (s', at', id', _) = get_elem?-of_numbered 0 order j r there in
      let r_id = (==_iff r.id y.id).0 (find?-some-holds test rows r found) in
      let j_is_i : j ≡ i = distinct j i s' s at' at (id' ∙ r_id ∙ same) in
      let r_is_new : r ≡ new = let met = rw j_is_i at there in cc in rw (found, written) r_is_new

  renumbered-set_row :
      (i : ℕ) (s : BackupSet)
      → IsCycle order
      → get_elem? order i ≡ some s
      → set_row (renumbered group_id db) s.id ≡ some (record s { position = i })
  unfolding renumbered
  renumbered-set_row i s distinct at =
      let rows = numbered 0 order in
      let in_group = λ (b : BackupSet). b.group_id == group_id in
      let test = λ (b : BackupSet). b.id == s.id in
      let listed = Occurs-sort by_position_and_id s (select in_group db.sets) (i, at) in
      let stored = (Occurs-select in_group s db.sets listed).0 in
      let (y, found) = find?-found test db.sets s stored (==_self s.id) in
      let y_id = (==_iff y.id s.id).0 (find?-some-holds test db.sets y found) in
      find?-map test (written rows) db.sets (λ b. ap (λ (n : ℕ). n == s.id) (written-id rows b)) y
        found
      ∙ ap some (written-order i s y distinct at y_id)

  -- Either the set that stands at place `i` of the group's old order gets position `i` and keeps
  -- the rest of its row, so that the positions are the numbers below the number of sets in the old
  -- order, or the database refuses an update and nothing is written. It does not refuse where every
  -- set has the position of its place already, nor where the ids of the sets ascend with their
  -- positions, which are all different. The sets have different ids.
  pub renumber_lem :
      (i : ℕ) (s : BackupSet)
      → IsCycle order
      → get_elem? order i ≡ some s
      → ((renumber group_id db).0 ≡ ok tt)
          × (set_row (renumber group_id db).1 s.id ≡ some (record s { position = i }))
        ⊎ ((renumber group_id db).0 ≡ err integrity_error)
          × ((renumber group_id db).1 ≡ db)
          × ((j : ℕ) × (x : BackupSet) × (get_elem? order j ≡ some x) × (x.position ≢ j))
          × (¬ IsAscending order)
  unfolding renumber ◌>>=◌ sort collides
  renumber_lem i s distinct at = elim (moved-cases 0 order) [
    | inl still ↦ rw still (inl (refl, renumbered-set_row i s distinct at))
    | inr (j, x, there, other) ↦
        go (collides (sort by_id (moved 0 (renumber_order group_id db))) db.sets) refl
          (j, x, there, λ same. other (omega (arith, same)))
  ]
    where
      go :
          (b : Bool)
          → collides (sort by_id (moved 0 (renumber_order group_id db))) db.sets ≡ b
          → ((j : ℕ) × (x : BackupSet) × (get_elem? order j ≡ some x) × (x.position ≢ j))
          → ((guard_not b integrity_error >>= λ _. modify (renumbered group_id)) db).0 ≡ ok tt
              × (set_row
                    ((guard_not b integrity_error >>= λ _. modify (renumbered group_id)) db).1
                    s.id
                  ≡ some (record s { position = i }))
            ⊎ (((guard_not b integrity_error >>= λ _. modify (renumbered group_id)) db).0
                ≡ err integrity_error)
              × (((guard_not b integrity_error >>= λ _. modify (renumbered group_id)) db).1 ≡ db)
              × ((j : ℕ) × (x : BackupSet) × (get_elem? order j ≡ some x) × (x.position ≢ j))
              × (¬ IsAscending order)
      go false e moves = inl (refl, renumbered-set_row i s distinct at)
      go true e moves =
          inr (refl, refl, moves, λ up. let free = IsAscending-free group_id db up in cc)

-- Case analysis on a call of `_renumber`.
pub renumber_ind {κ} :
    {B : Type 0} (Q : Result Error B × Db → Type κ) (group_id : ℕ) (f : Unit → Act B) (db : Db)
    → Q (err integrity_error, db)
    → Q (f tt (renumbered group_id db))
    → Q ((renumber group_id >>= f) db)
unfolding renumber ◌>>=◌
renumber_ind {B = B} Q group_id f db refused went =
    go (collides (sort by_id (moved 0 (renumber_order group_id db))) db.sets)
  where
    go :
        (b : Bool)
        → Q (((guard_not b integrity_error >>= λ _. modify (renumbered group_id)) >>= f) db)
    go false = went
    go true = refused
