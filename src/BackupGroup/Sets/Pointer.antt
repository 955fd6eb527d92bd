-- ===== src/BackupGroup/Sets/Pointer.antt =====
-- "It is kept honest by BackupGroupService, which never leaves it pointing at a removed row"
-- (nazman/models/backup_zfs.py, of `active_set_id`).
use nazman.Prelude.{
  ℕ, ◌≡◌, ◌≢◌, refl, sym, ap, ◌∙◌, Bool, false, not, some, List, [], ◌∷◌, get_elem?, find?,
  find?-some-holds, select, arith, ◌==◌, ==_iff, ==_ne, ==_false_ne, Option-cases, Bool-cases, inl,
  inr, or_raise_ind, guard_not_ind, err, Result, Option,
}
use nazman.Prelude.Occurs.{
  Occurs, Occurs-sort, Occurs-select, Occurs-select_of, Occurs-update_where, Occurs-map,
  find?-Occurs,
}
use nazman.BackupGroup.Rows.{Db, Group, BackupSet}
use nazman.BackupGroup.Cycle.Rotation.{IsCycle}
use nazman.BackupGroup.Tables.{
  Error, get_group, get_set, group_sets, by_position, is_session_running, group_not_found,
  set_not_found, session_running, integrity_error, update_group,
}
use nazman.BackupGroup.Sets.{
  by_position_and_id, renumber_order, numbered, written, renumbered, drop_set, repaired, first_id,
  delete_set,
}
use nazman.BackupGroup.Sets.Renumber.{written-id, get_elem?-of_numbered, renumber_ind}

-- A set with id `a` belongs to group `g`.
pub record Owns (sets : List BackupSet) (g a : ℕ) : Type 0 where
  pub bset : BackupSet
  pub listed : Occurs bset sets
  pub named : bset.id ≡ a
  pub owned : bset.group_id ≡ g

-- Every group that points at a set points at one of its own.
abbrev pub IsHonest : Db → Type 0
IsHonest db =
    (g : Group) (a : ℕ) → Occurs g db.groups → g.active_set_id ≡ some a → Owns db.sets g.id a

-- The id is a primary key: it determines the row.
abbrev pub IsKeyed : List BackupSet → Type 0
IsKeyed sets = (s t : BackupSet) → Occurs s sets → Occurs t sets → s.id ≡ t.id → s ≡ t

pub IsCycle-IsKeyed : (sets : List BackupSet) → IsCycle sets → IsKeyed sets
IsCycle-IsKeyed sets cycle s t (i, at) (j, there) same =
    let place = cycle i j s t at there same in
    let met : get_elem? sets i ≡ some t = rw place there in cc

module _ (group_id : ℕ) (db : Db) (keyed : IsKeyed db.sets) where
  abbrev rows : List BackupSet
  rows = numbered 0 (renumber_order group_id db)

  written-group_id : (s : BackupSet) → Occurs s db.sets → (written rows s).group_id ≡ s.group_id
  unfolding renumber_order
  written-group_id s listed = elim (Option-cases (find? (λ r. r.id == s.id) rows)) [
    | inl e ↦ rw (e, written)
    | inr (r, e) ↦
        let (j, there) = find?-Occurs (λ (r : BackupSet). r.id == s.id) rows r e in
        let (t, at, id', group') = get_elem?-of_numbered 0 (renumber_order group_id db) j r there in
        let r_id =
          (==_iff r.id s.id).0 (find?-some-holds (λ (r : BackupSet). r.id == s.id) rows r e) in
        let in_group = λ (b : BackupSet). b.group_id == group_id in
        let stored =
          (Occurs-select in_group t db.sets
            (Occurs-sort by_position_and_id t (select in_group db.sets) (j, at))).0 in
        rw (e, written)
          (sym group' ∙ ap (λ (b : BackupSet). b.group_id) (keyed t s stored listed (id' ∙ r_id)))
  ]

  Owns-renumbered : (g a : ℕ) → Owns db.sets g a → Owns (renumbered group_id db).sets g a
  unfolding renumbered
  Owns-renumbered g a o = record {
    bset = written rows o.bset;
    listed = Occurs-map (written rows) o.bset db.sets o.listed;
    named = written-id rows o.bset ∙ o.named;
    owned = written-group_id o.bset o.listed ∙ o.owned;
  }

first_id-Occurs :
    (sets : List BackupSet) (a : ℕ)
    → first_id sets ≡ some a
    → (s : BackupSet) × Occurs s sets × (s.id ≡ a)
first_id-Occurs [] a h = absurd (cc)
first_id-Occurs (s ∷ ss) a h = (s, (0, refl), cc)

module _ (set_id : ℕ) (db : Db) (keyed : IsKeyed db.sets) (honest : IsHonest db) where
  abbrev kept : BackupSet → Bool
  kept s = not (s.id == set_id)

  Owns-drop : (g a : ℕ) → Owns db.sets g a → a ≢ set_id → Owns (drop_set set_id db).sets g a
  Owns-drop g a o other = record {
    bset = o.bset;
    listed =
        Occurs-select_of kept o.bset db.sets o.listed
          (rw (==_ne o.bset.id set_id (λ e. other (sym o.named ∙ e))));
    named = o.named;
    owned = o.owned;
  }

  IsKeyed-drop : IsKeyed (drop_set set_id db).sets
  IsKeyed-drop s t hs ht =
      keyed s t (Occurs-select kept s db.sets hs).0 (Occurs-select kept t db.sets ht).0

  module _ (bset : BackupSet) (found : find? (λ s. s.id == set_id) db.sets ≡ some bset) where
    abbrev left : Db
    left = renumbered bset.group_id (drop_set set_id db)

    Owns-left : (g a : ℕ) → Owns db.sets g a → a ≢ set_id → Owns left.sets g a
    Owns-left g a o other =
        Owns-renumbered bset.group_id (drop_set set_id db) IsKeyed-drop g a (Owns-drop g a o other)

    -- a set of the group that is left, as the new target of its pointer
    Owns-first :
        (a : ℕ) → first_id (group_sets bset.group_id left) ≡ some a → Owns left.sets bset.group_id a
    unfolding group_sets
    Owns-first a h =
        let in_group = λ (s : BackupSet). s.group_id == bset.group_id in
        let (s, first, named) = first_id-Occurs (group_sets bset.group_id left) a h in
        let (listed, owned) =
          Occurs-select in_group s left.sets
            (Occurs-sort by_position s (select in_group left.sets) first) in
        record {
          bset = s;
          listed = listed;
          named = named;
          owned = (==_iff s.group_id bset.group_id).0 owned;
        }

    Owns-repaired :
        (g : Group) (a : ℕ)
        → Occurs g db.groups
        → g.id ≡ bset.group_id
        → repaired set_id (group_sets bset.group_id left) g.active_set_id ≡ some a
        → Owns left.sets bset.group_id a
    Owns-repaired g a listed same h = elim (Option-cases g.active_set_id) [
      | inl e ↦ Owns-first a (rw e at h)
      | inr (b, e) ↦ elim (Bool-cases (b == set_id)) [
        | inl gone ↦ Owns-first a (ground arith)
        | inr stays ↦
            let b_is_a : b ≡ a = ground arith in
            let other : a ≢ set_id = λ (q : a ≡ set_id). ground arith in
            rw same at (Owns-left g.id a (honest g a listed (rw b_is_a at e)) other)
      ]
    ]

    -- a group other than the set's own pointed elsewhere
    Owns-other :
        (g : Group) (a : ℕ)
        → Occurs g db.groups
        → g.id ≢ bset.group_id
        → g.active_set_id ≡ some a
        → Owns left.sets g.id a
    Owns-other g a listed other h =
        let o = honest g a listed h in
        Owns-left g.id a o λ gone.
          let stored = find?-Occurs (λ (s : BackupSet). s.id == set_id) db.sets bset found in
          let b_id =
            (==_iff bset.id set_id).0
              (find?-some-holds (λ (s : BackupSet). s.id == set_id) db.sets bset found) in
          let same = keyed o.bset bset o.listed stored (o.named ∙ gone ∙ sym b_id) in
          other (sym o.owned ∙ ap (λ (s : BackupSet). s.group_id) same)

    -- the groups once the pointer of the set's own group is repaired
    after_repair :
        (group' : Group)
        → find? (λ g. g.id == bset.group_id) db.groups ≡ some group'
        → IsHonest (
            update_group group'.id
              (λ g. record g {
                active_set_id =
                    repaired set_id (group_sets bset.group_id left) group'.active_set_id;
                needs_disk = false;
              })
              left)
    unfolding renumbered
    after_repair group' known' g a listed h =
        let own = λ (x : Group). x.id == group'.id in
        let in_group = λ (x : Group). x.id == bset.group_id in
        let group_id =
          (==_iff group'.id bset.group_id).0 (find?-some-holds in_group db.groups group' known') in
        let active = repaired set_id (group_sets bset.group_id left) group'.active_set_id in
        let (x, there, same) =
          Occurs-update_where own (λ y. record y { active_set_id = active; needs_disk = false })
            db.groups g listed in
        elim (Bool-cases (own x)) [
          | inl mine ↦
              let new = rw mine at same in
              let g_id = ap (λ (y : Group). y.id) new ∙ (==_iff x.id group'.id).0 mine ∙ group_id in
              rw g_id (
                Owns-repaired group' a (find?-Occurs in_group db.groups group' known') group_id
                  (ap (λ (y : Group). y.active_set_id) (sym new) ∙ h))
          | inr other ↦
              let old : g ≡ x = rw other at same in
              rw old (
                Owns-other x a there (λ e. absurd (omega (arith, ==_false_ne x.id group'.id other)))
                  (ap (λ (y : Group). y.active_set_id) (sym old) ∙ h))
        ]

  -- the invariant of the pointers is kept, whether the call succeeds or is refused
  delete_set-IsHonest :
      (delete_set set_id db).0 ≢ err integrity_error → IsHonest (delete_set set_id db).1
  unfolding delete_set get_set get_group
  delete_set-IsHonest =
      let Q = λ (r : Result Error (Option ℕ) × Db). r.0 ≢ err integrity_error → IsHonest r.1 in
      or_raise_ind Q (find? (λ s. s.id == set_id) db.sets) (set_not_found set_id) _ db
        (λ _ _. honest)
        λ bset found.
          guard_not_ind Q (is_session_running bset.group_id db) session_running _ db (λ _ _. honest)
            λ idle.
              or_raise_ind Q (find? (λ g. g.id == bset.group_id) db.groups)
                (group_not_found bset.group_id) _ db (λ _ _. honest)
                λ group known.
                  renumber_ind Q bset.group_id _ (drop_set set_id db) (λ met. absurd (met refl))
                    (or_raise_ind Q (find? (λ g. g.id == bset.group_id) db.groups)
                      (group_not_found bset.group_id) _ (left bset found) (λ e. absurd (cc))
                      λ group' known' _. after_repair bset found group' known')

  -- Where every group points at one of its own sets, it still does after `delete_set`, whether the
  -- set was deleted or the call was refused at its start: no group is left with a pointer at a set
  -- that is gone. It is supposed that the call does not raise on the uniqueness of the positions,
  -- as it may when it renumbers the sets that are left, and that the ids of the sets are all
  -- different.
  pub delete_set_lem :
      (delete_set set_id db).0 ≢ err integrity_error
      → (g : Group) (a : ℕ) → Occurs g (delete_set set_id db).1.groups
      → g.active_set_id ≡ some a
      → Owns (delete_set set_id db).1.sets g.id a
  delete_set_lem = delete_set-IsHonest
