-- ===== src/BackupGroup/Sets/Collisions.antt =====
-- Where the updates of `_renumber` do not collide.
use nazman.Prelude.{
  ℕ, suc, ◌≡◌, ◌≢◌, ◌<◌, ◌≤◌, ◌⊎◌, refl, sym, ap, ◌∙◌, Bool, true, false, not, ◌&&◌, List, [], ◌∷◌,
  select, update_where, leb, ◌==◌, ==_iff, ==_false_ne, Bool-cases, inl, inr, arith,
}
use nazman.Prelude.Order.{insert, sort}
use nazman.Prelude.Occurs.{
  Occurs, Occurs-cons, Occurs-cases, not-Occurs-nil, Occurs-sort, sort-Occurs, Occurs-select,
  Occurs-select_of, Occurs-update_where, any-Occurs,
}
use nazman.BackupGroup.Rows.{Db, BackupSet}
use nazman.BackupGroup.Sets.{by_position_and_id, by_id, renumber_order, moved, is_taken, collides}

-- The positions of the sets are all different and ascend, and their ids with them.
abbrev pub IsAscending : List BackupSet → Type 0
IsAscending [] = Unit
IsAscending (x ∷ xs) =
    ((y : BackupSet) → Occurs y xs → (x.position < y.position) × (leb x.id y.id ≡ true))
    × IsAscending xs

Occurs-moved :
    (index : ℕ) (rows : List BackupSet) (y : BackupSet)
    → Occurs y (moved index rows)
    → (x : BackupSet) × Occurs x rows × (x.id ≡ y.id)
unfolding moved
Occurs-moved index [] y o = absurd (not-Occurs-nil y o)
Occurs-moved index (s ∷ ss) y o = elim (Bool-cases (s.position == index)) [
  | inl e ↦
      let (x, there, same) = Occurs-moved (suc index) ss y (rw e at o) in
      (x, Occurs-cons x s ss there, same)
  | inr e ↦
      elim (Occurs-cases y (record s { position = index }) (moved (suc index) ss) (rw e at o)) [
        | inl first ↦ (s, (0, refl), ap (λ (b : BackupSet). b.id) first)
        | inr later ↦
            let (x, there, same) = Occurs-moved (suc index) ss y later in
            (x, Occurs-cons x s ss there, same)
      ]
]

insert-first :
    (x : BackupSet) (ys : List BackupSet)
    → ((y : BackupSet) → Occurs y ys → leb x.id y.id ≡ true)
    → insert by_id x ys ≡ x ∷ ys
unfolding insert
insert-first x [] h = refl
insert-first x (y ∷ ys) h = rw (h y (0, refl)) refl

-- the rows are written in the order of their positions
sort-moved :
    (index : ℕ) (rows : List BackupSet)
    → IsAscending rows
    → sort by_id (moved index rows) ≡ moved index rows
unfolding sort moved
sort-moved index [] up = refl
sort-moved index (s ∷ ss) (first, up) = elim (Bool-cases (s.position == index)) [
  | inl e ↦ rw e (sort-moved (suc index) ss up)
  | inr e ↦
      let s' : BackupSet = record s { position = index } in
      let whole : insert by_id s' (sort by_id (moved (suc index) ss)) ≡ s' ∷ moved (suc index) ss =
        ap (insert by_id s') (sort-moved (suc index) ss up)
        ∙ insert-first s' (moved (suc index) ss) λ y o.
          let (x, there, same) = Occurs-moved (suc index) ss y o in
          rw same at ((first x there).1) in
      rw e whole
]

three_of : (a b c : Bool) → (a && b && not c) ≡ true → (a ≡ true) × (b ≡ true) × (c ≡ false)
three_of true true false h = (refl, refl, refl)
three_of true true true h = absurd (cc)
three_of true false c h = absurd (cc)
three_of false b c h = absurd (cc)

module _ (group_id : ℕ) where
  -- A row of the group has its final position, or it is one of those to come, as it was.
  abbrev IsSettled : ℕ → List BackupSet → BackupSet → Type 0
  IsSettled index tail r =
      (r.position < index)
      ⊎ ((o : BackupSet) × Occurs o tail × (r.id ≡ o.id) × (r.position ≡ o.position))

  abbrev AllSettled : ℕ → List BackupSet → List BackupSet → Type 0
  AllSettled index tail rows =
      (r : BackupSet) → Occurs r rows → r.group_id ≡ group_id → IsSettled index tail r

  abbrev AllFrom : ℕ → List BackupSet → Type 0
  AllFrom index tail =
      (o : BackupSet) → Occurs o tail → (index ≤ o.position) × (o.group_id ≡ group_id)

  step :
      (index : ℕ) (s : BackupSet) (ss : List BackupSet) (r : BackupSet)
      → r.id ≢ s.id ⊎ (s.position ≡ index)
      → IsSettled index (s ∷ ss) r
      → IsSettled (suc index) ss r
  step index s ss r other (inl lt) = inl (omega arith)
  step index s ss r other (inr (o, at, same, place)) = elim (Occurs-cases o s ss at) [
    | inr later ↦ inr (o, later, same, place)
    | inl first ↦ elim other [
      | inl differs ↦ absurd (differs (same ∙ sym (ap (λ (b : BackupSet). b.id) first)))
      | inr still ↦
          let here : r.position ≡ index =
            place ∙ sym (ap (λ (b : BackupSet). b.position) first) ∙ still in
          inl (omega (arith, here))
    ]
  ]

  -- the position to be written is free
  not_taken :
      (index : ℕ) (s : BackupSet) (ss rows : List BackupSet)
      → IsAscending (s ∷ ss)
      → AllFrom index (s ∷ ss)
      → AllSettled index (s ∷ ss) rows
      → is_taken (record s { position = index }) rows ≡ false
  not_taken index s ss rows (first, up) low settled =
      elim (Bool-cases (is_taken (record s { position = index }) rows)) [
        | inr e ↦ e
        | inl e ↦
            let (r, there, clash) =
              any-Occurs
                (λ (r : BackupSet).
                  r.group_id == s.group_id && r.position == index && not (r.id == s.id))
                rows e in
            let (group, place, other) =
              three_of (r.group_id == s.group_id) (r.position == index) (r.id == s.id) clash in
            let (from, owned) = low s (0, refl) in
            let here = (==_iff r.position index).0 place in
            let at = (==_iff r.group_id s.group_id).0 group ∙ owned in
            elim (settled r there at) [
              | inl lt ↦ absurd (omega (arith, here))
              | inr (o, stands, same, at_o) ↦ elim (Occurs-cases o s ss stands) [
                | inl head ↦
                    absurd
                      (==_false_ne r.id s.id other (same ∙ sym (ap (λ (b : BackupSet). b.id) head)))
                | inr later ↦ absurd (omega (arith, (first o later).0, here, at_o))
              ]
            ]
      ]

  collides-ascending :
      (index : ℕ) (tail rows : List BackupSet)
      → IsAscending tail
      → AllFrom index tail
      → AllSettled index tail rows
      → collides (moved index tail) rows ≡ false
  unfolding collides moved
  collides-ascending index [] rows up low settled = refl
  collides-ascending index (s ∷ ss) rows (first, up) low settled =
      let (from, owned) = low s (0, refl) in
      let higher : AllFrom (suc index) ss =
        λ o at. (omega (arith, (first o at).0), (low o (Occurs-cons o s ss at)).1) in
      elim (Bool-cases (s.position == index)) [
        | inl e ↦
            let still = (==_iff s.position index).0 e in
            rw e (
              collides-ascending (suc index) ss rows up higher
                λ r there at. step index s ss r (inr still) (settled r there at))
        | inr e ↦
            let free = not_taken index s ss rows (first, up) low settled in
            let is_s = λ (r : BackupSet). r.id == s.id in
            let put = λ (r : BackupSet). record r { position = index } in
            let rest : collides (moved (suc index) ss) (update_where is_s put rows) ≡ false =
              collides-ascending (suc index) ss (update_where is_s put rows) up higher λ r there at.
                let (x, stands, same) = Occurs-update_where is_s put rows r there in
                elim (Bool-cases (is_s x)) [
                  | inl mine ↦
                      let new : r ≡ put x = rw mine at same in
                      let here = ap (λ (b : BackupSet). b.position) new in inl (omega (arith, here))
                  | inr other ↦
                      let old : r ≡ x = rw other at same in
                      let at' : x.group_id ≡ group_id =
                        ap (λ (b : BackupSet). b.group_id) (sym old) ∙ at in
                      rw old (
                        step index s ss x (inl (==_false_ne x.id s.id other))
                          (settled x stands at'))
                ] in
            rw (e, free) rest
      ]

  -- Where the ids ascend with the positions, no update of `_renumber` collides.
  pub IsAscending-free :
      (db : Db)
      → IsAscending (renumber_order group_id db)
      → collides (sort by_id (moved 0 (renumber_order group_id db))) db.sets ≡ false
  unfolding renumber_order
  IsAscending-free db up =
      let in_group = λ (b : BackupSet). b.group_id == group_id in
      let order = renumber_order group_id db in
      ap (λ rows. collides rows db.sets) (sort-moved 0 order up)
      ∙ collides-ascending 0 order db.sets up
          (λ o at.
            let (_, owned) =
              Occurs-select in_group o db.sets
                (Occurs-sort by_position_and_id o (select in_group db.sets) at) in
            (omega arith, (==_iff o.group_id group_id).0 owned))
          λ r there at. inr (
            r,
            sort-Occurs by_position_and_id r (select in_group db.sets)
                (Occurs-select_of in_group r db.sets there ((==_iff r.group_id group_id).1 at)),
            refl,
            refl,
          )
