-- ===== src/ZfsBackup/Pruning.antt =====
-- Pruning leaves every chain its anchor.
use nazman.Prelude.{
  ℕ, ◌≡◌, ◌≢◌, refl, sym, ◌∙◌, String, Bool, true, false, not, ◌&&◌, ◌||◌, Option, none, some, List,
  [], ◌∷◌, map, select, last?, str_eq, str_eq_iff, str_eq_self, strip, holds, is_some, Bool-cases,
  Option-cases, inl, inr,
}
use nazman.Prelude.Occurs.{
  Occurs, Occurs-select, Occurs-select_of, Occurs-sort, sort-Occurs, Occurs-unmap, Occurs-map,
  any-Occurs, Occurs-any, last?-Occurs, Occurs-cons,
}
use nazman.BackupGroup.Rows.{Run}
use nazman.ZfsBackup.Anchors.{
  Pool, is_backup_of, named_backups, list_backup_snapshots, set_anchor, if_listed, is_among,
  runs_in_set, succeeded, snapshot_of, names_it, refers_to, is_referenced, is_exempt, doomed,
  destroy_all, prune_old_anchors, newest_two,
}

pub is_among-Occurs : (names : List String) (s : String) → is_among names s ≡ true → Occurs s names
is_among-Occurs names s h =
    let (t, there, same) = any-Occurs (λ t. str_eq t s) names h in
    rw ((str_eq_iff t s).0 same) at there

pub Occurs-is_among : (names : List String) (s : String) → Occurs s names → is_among names s ≡ true
Occurs-is_among names s o = Occurs-any (λ t. str_eq t s) s names o (str_eq_self s)

-- `zfs list` prints the line for the dataset
abbrev pub Prints : {W : Type 0} → Pool W → String → String → W → Type 0
Prints pool dataset_name line w =
    (lines : List String) × (pool.snapshots dataset_name w ≡ some lines) × Occurs line lines

refers : (a b c d : Bool) → (a && b && c) ≡ true → d ≡ true → (a && c && d) ≡ true
refers true true true d e h = h
refers true true false d e h = absurd (cc)
refers true false c d e h = absurd (cc)
refers false b c d e h = absurd (cc)

none_of :
    (a b c d : Bool)
    → not ((a || b || c) || d) ≡ true
    → (a ≡ false) × (b ≡ false) × (c ≡ false) × (d ≡ false)
none_of false false false false e = (refl, refl, refl, refl)
none_of true b c d e = absurd (cc)
none_of false true c d e = absurd (cc)
none_of false false true d e = absurd (cc)
none_of false false false true e = absurd (cc)

pub unnamed : (s : String) (o : Option String) → names_it s o ≡ false → o ≢ some s
unnamed s o h same = let met : names_it s o ≡ true = rw same (str_eq_self s) in absurd (cc)

-- what the loop destroys is none of the snapshots that it exempts or that a run refers to
pub doomed_lem :
    (dataset_name keep : String) (keep_full : Option String) (runs : List Run) (snaps : List String)
    (s : String)
    → Occurs s (doomed dataset_name keep keep_full runs snaps)
    → Occurs s snaps
      × (s ≢ keep)
      × (is_among (newest_two snaps) s ≡ false)
      × (keep_full ≢ some s)
      × (is_referenced dataset_name runs s ≡ false)
unfolding doomed is_exempt
doomed_lem dataset_name keep keep_full runs snaps s o =
    let kept =
      λ (t : String). not (is_exempt keep keep_full snaps t || is_referenced dataset_name runs t) in
    let (there, e) = Occurs-select kept s snaps o in
    let (other, old, not_full, unused) =
      none_of (str_eq keep s) (is_among (newest_two snaps) s) (names_it s keep_full)
        (is_referenced dataset_name runs s) e in
    let differs : s ≢ keep = λ same. absurd (let met = (str_eq_iff keep s).1 (sym same) in cc) in
    (there, differs, old, unnamed s keep_full not_full, unused)

-- a listed backup is printed, up to the blanks around it, and the other way round
pub printed :
    (dataset_name s : String) (lines : Option (List String))
    → Occurs s (named_backups dataset_name lines)
    → (ls : List String) × (line : String) × (lines ≡ some ls)
      × Occurs line ls
      × (strip line ≡ s)
      × (is_backup_of dataset_name s ≡ true)
unfolding named_backups
printed dataset_name s none (i, at) = absurd (cc)
printed dataset_name s (some ls) o =
    let (there, e) =
      Occurs-select (is_backup_of dataset_name) s (map strip ls)
        (Occurs-sort _ s (select (is_backup_of dataset_name) (map strip ls)) o) in
    let (line, stands, same) = Occurs-unmap strip s ls there in (ls, line, refl, stands, same, e)

listed :
    (dataset_name line : String) (ls : List String)
    → Occurs line ls
    → is_backup_of dataset_name (strip line) ≡ true
    → Occurs (strip line) (named_backups dataset_name (some ls))
unfolding named_backups
listed dataset_name line ls o e =
    sort-Occurs _ (strip line) (select (is_backup_of dataset_name) (map strip ls)) (
      Occurs-select_of (is_backup_of dataset_name) (strip line) (map strip ls)
        (Occurs-map strip line ls o) e)

-- the base, if it is there, and that it is
listed_if :
    (snaps : List String) (o : Option String) (s : String)
    → if_listed snaps o ≡ some s
    → (o ≡ some s) × (str_eq s "" ≡ false) × Occurs s snaps
listed_if snaps none s h = absurd (cc)
listed_if snaps (some t) s h = elim (Bool-cases (str_eq t "")) [
  | inl e ↦ absurd (let h' = rw e at h in cc)
  | inr e ↦ elim (Bool-cases (is_among snaps t)) [
    | inl there ↦
        let h' : some t ≡ some s = rw (e, there) at h in
        let same : t ≡ s = cc in (h', rw same at e, rw same at (is_among-Occurs snaps t there))
    | inr absent ↦ absurd (let h' = rw (e, absent) at h in cc)
  ]
]

listed_then :
    (snaps : List String) (s : String)
    → str_eq s "" ≡ false
    → Occurs s snaps
    → if_listed snaps (some s) ≡ some s
listed_then snaps s named o = rw (named, Occurs-is_among snaps s o) refl

-- the base is the snapshot of a successful run, which refers to it
newest-is_referenced :
    (dataset_name : String) (set_id : ℕ) (runs : List Run) (s : String)
    → snapshot_of (last? (select (λ r. is_some r.snapshot) (runs_in_set dataset_name set_id runs)))
      ≡ some s
    → is_referenced dataset_name runs s ≡ true
unfolding is_referenced
newest-is_referenced dataset_name set_id runs s h =
    let in_set = runs_in_set dataset_name set_id runs in
    elim (Option-cases (last? (select (λ r. is_some r.snapshot) in_set))) [
      | inl e ↦ absurd (let h' = rw e at h in cc)
      | inr (r, e) ↦
          let h' : r.snapshot ≡ some s = rw e at h in
          let (there, _) =
            Occurs-select (λ (r : Run). is_some r.snapshot) r in_set
              (last?-Occurs (select (λ r. is_some r.snapshot) in_set) r e) in
          let (stored, its) =
            Occurs-select
              (λ (r : Run).
                str_eq r.dataset_name dataset_name && holds r.backup_set_id set_id && succeeded r)
              r runs there in
          Occurs-any
            (λ (r : Run). str_eq r.dataset_name dataset_name && succeeded r && refers_to s r) r runs
            stored
            (refers (str_eq r.dataset_name dataset_name) (holds r.backup_set_id set_id)
              (succeeded r) (refers_to s r) its (rw (h', str_eq_self s) refl))
    ]

module _ {W : Type 0} (pool : Pool W) (dataset_name : String)
    (only_it : (line s : String) (w : W)
      → is_backup_of dataset_name s ≡ true
      → is_backup_of dataset_name (strip line) ≡ true
      → strip line ≢ s
      → Prints pool dataset_name line w
      → Prints pool dataset_name line (pool.destroy s w)) where
  destroyed :
      (line : String) (names : List String) (w : W)
      → is_backup_of dataset_name (strip line) ≡ true
      → ((s : String) → Occurs s names → (is_backup_of dataset_name s ≡ true) × (strip line ≢ s))
      → Prints pool dataset_name line w
      → Prints pool dataset_name line (destroy_all pool names w)
  unfolding destroy_all
  destroyed line [] w own others p = p
  destroyed line (s ∷ ss) w own others p =
      let (its, other) = others s (0, refl) in
      destroyed line ss (pool.destroy s w) own (λ t o. others t (Occurs-cons t s ss o))
        (only_it line s w its own other p)

  -- a backup that a run of the dataset refers to is listed after the pruning, if it was before
  pub kept_listed :
      (keep : String) (keep_full : Option String) (runs : List Run) (w : W) (s : String)
      → is_referenced dataset_name runs s ≡ true
      → Occurs s (list_backup_snapshots pool dataset_name w)
      → Occurs s (
          list_backup_snapshots pool dataset_name
            (prune_old_anchors pool dataset_name keep keep_full runs w))
  unfolding list_backup_snapshots prune_old_anchors
  kept_listed keep keep_full runs w s used o =
      let (ls, line, prints, stands, same, e) =
        printed dataset_name s (pool.snapshots dataset_name w) o in
      let names =
        doomed dataset_name keep keep_full runs (list_backup_snapshots pool dataset_name w) in
      let (ls', prints', stands') =
        destroyed line names w (rw same e)
          (λ t doom.
            let (there, _, _, _, unused) =
              doomed_lem dataset_name keep keep_full runs
                (list_backup_snapshots pool dataset_name w) t doom in
            let (_, _, _, _, _, its) =
              printed dataset_name t (pool.snapshots dataset_name w) there in
            let differs : strip line ≢ t = λ is_t.
              let met : is_referenced dataset_name runs t ≡ true = rw (sym is_t ∙ same) used in
              absurd (cc) in
            (its, differs))
          (ls, prints, stands) in
      rw prints' (rw (sym same) (listed dataset_name line ls' stands' (rw same e)))

  -- The snapshot that the next incremental of a set builds on is still its base after a pruning,
  -- whichever of the sets of the dataset the pruning was for. It is supposed of `zfs destroy -r`,
  -- which also removes the snapshots of that name below the dataset, that it leaves the lines of
  -- the other `backup-` snapshots of the same dataset in the listing.
  pub prune_old_anchors-set_anchor :
      (keep : String) (keep_full : Option String) (backup_set_id : Option ℕ) (runs : List Run)
      (w : W) (s : String)
      → set_anchor pool dataset_name backup_set_id runs w ≡ some s
      → set_anchor pool dataset_name backup_set_id runs
          (prune_old_anchors pool dataset_name keep keep_full runs w)
        ≡ some s
  unfolding set_anchor
  prune_old_anchors-set_anchor keep keep_full none runs w s h = absurd (cc)
  prune_old_anchors-set_anchor keep keep_full (some set_id) runs w s h =
      let newest =
        snapshot_of
          (last? (select (λ r. is_some r.snapshot) (runs_in_set dataset_name set_id runs))) in
      let (is_newest, named, here) =
        listed_if (list_backup_snapshots pool dataset_name w) newest s h in
      let later =
        kept_listed keep keep_full runs w s
          (newest-is_referenced dataset_name set_id runs s is_newest) here in
      rw is_newest (
        listed_then
          (list_backup_snapshots pool dataset_name
            (prune_old_anchors pool dataset_name keep keep_full runs w))
          s named later)
