-- ===== src/ZfsBackup/Doomed.antt =====
-- What the pruning gives to `zfs destroy`: no anchor, and none of the newest two.
use native.Mathlib.Decide.{dec_lt}
use nazman.Prelude.{
  zero, suc, ◌+◌, ◌-◌, ◌<◌, ◌≤◌, length, drop, get_elem?, arith, ℕ, ◌≡◌, ◌≢◌, refl, String, Bool,
  true, false, ◌&&◌, ◌||◌, Option, some, List, [], ◌∷◌, str_eq, str_eq_iff, Bool-cases, inl, inr,
}
use nazman.Prelude.Occurs.{Occurs, Occurs-any}
use nazman.BackupGroup.Rows.{Run, RunStatus}
use nazman.ZfsBackup.Anchors.{
  Pool, is_backup_of, list_backup_snapshots, is_among, succeeded, names_it, refers_to,
  is_referenced, doomed, newest_two,
}
use nazman.ZfsBackup.Pruning.{Occurs-is_among, unnamed, doomed_lem, printed}

neither : (a b c : Bool) → (a || b || c) ≡ false → (a ≡ false) × (b ≡ false) × (c ≡ false)
neither false false false e = (refl, refl, refl)
neither true b c e = absurd (cc)
neither false true c e = absurd (cc)
neither false false true e = absurd (cc)

get_elem?-drop :
    (k : ℕ) (xs : List String) (i : ℕ)
    → k ≤ i
    → (s : String) → get_elem? xs i ≡ some s
    → Occurs s (drop k xs)
get_elem?-drop zero xs i h s at = (i, at)
get_elem?-drop (suc k) [] i h s at = absurd (cc)
get_elem?-drop (suc k) (x ∷ xs) zero h s at = elim h [ ]
get_elem?-drop (suc k) (x ∷ xs) (suc i) h s at = get_elem?-drop k xs i (omega arith) s at

-- what is not among the newest two has two after it
before_last_two :
    (snaps : List String) (i : ℕ) (s : String)
    → is_among (newest_two snaps) s ≡ false
    → get_elem? snaps i ≡ some s
    → i + 2 < length snaps
before_last_two snaps i s old at = elim (dec_lt (i + 2) (length snaps)) [
  | yes p ↦ p
  | no p ↦
      let last : is_among (newest_two snaps) s ≡ true =
        Occurs-is_among (newest_two snaps) s
          (get_elem?-drop (length snaps - 2) snaps i (omega arith) s at) in
      absurd (cc)
]

not_by :
    (dataset_name : String) (runs : List Run) (s : String) (r : Run)
    → is_referenced dataset_name runs s ≡ false
    → Occurs r runs
    → r.dataset_name ≡ dataset_name
    → r.status ≡ RunStatus.success
    → (r.snapshot ≢ some s) × (r.base_snapshot ≢ some s) × (r.full_anchor ≢ some s)
unfolding is_referenced
not_by dataset_name runs s r unused there its done = elim (Bool-cases (refers_to s r)) [
  | inl e ↦
      let met =
        Occurs-any (λ (x : Run). str_eq x.dataset_name dataset_name && succeeded x && refers_to s x)
          r runs there (rw ((str_eq_iff r.dataset_name dataset_name).1 its, done) e) in
      absurd (cc)
  | inr e ↦
      let (a, b, c) =
        neither (names_it s r.snapshot) (names_it s r.base_snapshot) (names_it s r.full_anchor) e in
      (unnamed s r.snapshot a, unnamed s r.base_snapshot b, unnamed s r.full_anchor c)
]

-- A snapshot that the pruning gives to `zfs destroy -r` is a `backup-` snapshot of the dataset.
-- It is neither the one just written nor the full anchor to keep, at least two snapshots are
-- listed after each place at which it is listed, and no successful run of the dataset has it as
-- its snapshot, its base or its full anchor.
pub prune_old_anchors_lem :
    {W : Type 0} (pool : Pool W) (dataset_name keep : String) (keep_full : Option String)
    (runs : List Run) (w : W) (s : String)
    → Occurs s (doomed dataset_name keep keep_full runs (list_backup_snapshots pool dataset_name w))
    → (i : ℕ) → get_elem? (list_backup_snapshots pool dataset_name w) i ≡ some s
    → (r : Run) → Occurs r runs
    → r.dataset_name ≡ dataset_name
    → r.status ≡ RunStatus.success
    → (is_backup_of dataset_name s ≡ true)
      × (s ≢ keep)
      × (keep_full ≢ some s)
      × (i + 2 < length (list_backup_snapshots pool dataset_name w))
      × (r.snapshot ≢ some s)
      × (r.base_snapshot ≢ some s)
      × (r.full_anchor ≢ some s)
unfolding list_backup_snapshots
prune_old_anchors_lem pool dataset_name keep keep_full runs w s doom i at r stored its done =
    let (there, other, old, not_full, unused) =
      doomed_lem dataset_name keep keep_full runs (list_backup_snapshots pool dataset_name w) s
        doom in
    let (_, _, _, _, _, e) = printed dataset_name s (pool.snapshots dataset_name w) there in
    let (a, b, c) = not_by dataset_name runs s r unused stored its done in
    (
      e,
      other,
      not_full,
      before_last_two (list_backup_snapshots pool dataset_name w) i s old at,
      a,
      b,
      c,
    )
