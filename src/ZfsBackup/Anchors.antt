-- ===== src/ZfsBackup/Anchors.antt =====
-- The anchors of a backup chain: `set_anchor`, `chain_full_anchor`, `_list_backup_snapshots` and
-- `_prune_old_anchors`. The pool is a parameter: what `zfs list` prints and what `zfs destroy`
-- does to it.
use nazman.Prelude.{
  ℕ, String, Bool, true, false, not, ◌&&◌, ◌||◌, Option, none, some, List, [], ◌∷◌, map, select,
  any, last?, head?, length, drop, ◌-◌, ◌==◌, holds, str_eq, strip, if◌then◌else◌, is_some,
}
use Prim.Native.String.{[] as empty_text, ◌∷◌ as ◌∷s◌, compare}
use Prim.Native.Char.{code}
use text.Mathlib.Text.{is_le, starts_with}
use nazman.Prelude.Order.{sort}
use nazman.BackupGroup.Rows.{Run, RunStatus, BackupType}

-- The snapshots of a pool. `snapshots` is the output of `zfs list -t snapshot` for a dataset, in
-- lines, and nothing where the command fails.
pub record Pool (W : Type 0) : Type 0 where
  pub snapshots : String → W → Option (List String)
  pub destroy : String → W → W

abbrev put_back : {A : Type 0} → (String → String) → Option (String × A) → Option (String × A)
put_back f none = none
put_back f (some (before, after)) = some (f before, after)

-- `line.split("@", 1)`, nothing where there is no `@`
unfoldable pub split_at_sign : String → Option (String × String)
split_at_sign empty_text = none
split_at_sign (c ∷s s) =
    let rest = split_at_sign s in if code c == 64 then some ("", s) else put_back (λ t. c ∷s t) rest

-- a line that names a `backup-` snapshot of the dataset itself
unfoldable pub is_backup_of : String → String → Bool
unfolding split_at_sign
is_backup_of dataset_name line = elim (split_at_sign line) [
  | none ↦ false
  | some (ds, snap) ↦ str_eq ds dataset_name && starts_with snap "backup-"
]

abbrev text_le : String → String → Bool
text_le s t = is_le (compare s t)

unfoldable pub named_backups : String → Option (List String) → List String
unfolding is_backup_of
named_backups dataset_name none = []
named_backups dataset_name (some lines) =
    sort text_le (select (is_backup_of dataset_name) (map strip lines))

abbrev pub succeeded : Run → Bool
succeeded r = elim r.status [ RunStatus.success ↦ true | _ ↦ false ]

abbrev pub is_full : Run → Bool
is_full r = elim r.backup_type [ BackupType.full ↦ true | BackupType.incremental ↦ false ]

-- the successful runs of a dataset in a set, in the order of their ids
abbrev pub runs_in_set : String → ℕ → List Run → List Run
runs_in_set dataset_name set_id runs =
    select (λ r. str_eq r.dataset_name dataset_name && holds r.backup_set_id set_id && succeeded r)
      runs

abbrev pub is_among : List String → String → Bool
is_among names s = any (λ t. str_eq t s) names

-- the snapshot, if it is named and still listed
abbrev pub if_listed : List String → Option String → Option String
if_listed snaps none = none
if_listed snaps (some s) = if not (str_eq s "") && is_among snaps s then some s else none

abbrev pub snapshot_of : Option Run → Option String
snapshot_of none = none
snapshot_of (some r) = r.snapshot

unfoldable pub chain_full_anchor : String → Option ℕ → List Run → Option String
chain_full_anchor dataset_name none runs = none
chain_full_anchor dataset_name (some set_id) runs =
    snapshot_of (head? (select is_full (runs_in_set dataset_name set_id runs)))

abbrev pub names_it : String → Option String → Bool
names_it s none = false
names_it s (some t) = str_eq t s

-- a snapshot that a successful run of the dataset refers to
abbrev pub refers_to : String → Run → Bool
refers_to s r = names_it s r.snapshot || names_it s r.base_snapshot || names_it s r.full_anchor

unfoldable pub is_referenced : String → List Run → String → Bool
is_referenced dataset_name runs s =
    any (λ r. str_eq r.dataset_name dataset_name && succeeded r && refers_to s r) runs

-- `snaps[-2:]`
abbrev pub newest_two : List String → List String
newest_two snaps = drop (length snaps - 2) snaps

unfoldable pub is_exempt : String → Option String → List String → String → Bool
is_exempt keep keep_full snaps s =
    str_eq keep s || is_among (newest_two snaps) s || names_it s keep_full

-- what the loop destroys, in order
unfoldable pub doomed : String → String → Option String → List Run → List String → List String
unfolding is_referenced is_exempt
doomed dataset_name keep keep_full runs snaps =
    select (λ s. not (is_exempt keep keep_full snaps s || is_referenced dataset_name runs s)) snaps

module _ {W : Type 0} (pool : Pool W) where
  unfoldable pub list_backup_snapshots : String → W → List String
  unfolding named_backups
  list_backup_snapshots dataset_name w = named_backups dataset_name (pool.snapshots dataset_name w)

  unfoldable pub set_anchor : String → Option ℕ → List Run → W → Option String
  unfolding list_backup_snapshots
  set_anchor dataset_name none runs w = none
  set_anchor dataset_name (some set_id) runs w = if_listed (list_backup_snapshots dataset_name w) (
      snapshot_of (last? (select (λ r. is_some r.snapshot) (runs_in_set dataset_name set_id runs))))

  unfoldable pub destroy_all : List String → W → W
  destroy_all [] w = w
  destroy_all (s ∷ ss) w = destroy_all ss (pool.destroy s w)

  unfoldable pub prune_old_anchors : String → String → Option String → List Run → W → W
  unfolding doomed destroy_all list_backup_snapshots
  prune_old_anchors dataset_name keep keep_full runs w =
      destroy_all (doomed dataset_name keep keep_full runs (list_backup_snapshots dataset_name w)) w
