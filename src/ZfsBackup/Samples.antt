-- ===== src/ZfsBackup/Samples.antt =====
-- A pool with four backups of one dataset, and a disk that takes every stream.
use text.Mathlib.Text.{starts_with}
use Prim.Native.String.{◌++◌ as ◌++s◌}
use nazman.Prelude.{
  ◌+◌, ◌<◌, length, ◌&&◌, ◌||◌, ℕ, ◌≡◌, ◌≢◌, refl, String, Bool, true, false, not, Option, none,
  some, List, [], ◌∷◌, select, str_eq, str_eq_iff, strip, Result, ok, err, is_some, arith,
  Bool-cases, inl, inr,
}
use nazman.Prelude.Occurs.{Occurs, Occurs-select_of}
use nazman.BackupGroup.Rows.{BackupDisk, Run, RunStatus, full, incremental}
use nazman.BackupGroup.Session.{Failure}
use nazman.BackupGroup.Session.Media.{SendStatus}
use nazman.ZfsBackup.Anchors.{
  Pool, set_anchor, prune_old_anchors, doomed, is_backup_of, split_at_sign, list_backup_snapshots,
}
use nazman.ZfsBackup.Pruning.{Prints, prune_old_anchors-set_anchor}
use nazman.ZfsBackup.Doomed.{prune_old_anchors_lem}
use nazman.ZfsBackup.Stream.{Target, backup_dataset}
use nazman.ZfsBackup.Writing.{backup_dataset_lem, backup_dataset-returns}
use nazman.ZfsBackup.Steps.{Matches}

-- `zfs destroy -r`: the snapshot, and those of the same name of the datasets below
abbrev goes_with : Option (String × String) → Option (String × String) → Bool
goes_with none t = false
goes_with (some (ds, snap)) none = false
goes_with (some (ds, snap)) (some (ds', snap')) = str_eq snap snap' && starts_with ds' (ds ++s "/")

-- the pool is the list of all its snapshots, which are listed whatever dataset is asked for
abbrev sample_pool : Pool (List String)
sample_pool = record {
  snapshots = λ dataset_name w. some w;
  destroy = λ s w.
      select
        (λ t. not (str_eq (strip t) s || goes_with (split_at_sign s) (split_at_sign (strip t)))) w;
}

apart : (a b : String) → a ≢ b → str_eq a b ≡ false
apart a b h = elim (Bool-cases (str_eq a b)) [
  | inl e ↦ absurd (h ((str_eq_iff a b).0 e))
  | inr e ↦ e
]

both : (a b : Bool) → (a && b) ≡ true → a ≡ true
both true b h = refl
both false b h = absurd (cc)

and_false : (a : Bool) → (a && false) ≡ false
and_false true = refl
and_false false = refl

-- snapshots of one dataset do not go with one another
stays :
    (o p : Option (String × String))
    → elim o [ none ↦ false | some (ds, snap) ↦ str_eq ds "tank/a" && starts_with snap "backup-" ]
      ≡ true
    → elim p [ none ↦ false | some (ds, snap) ↦ str_eq ds "tank/a" && starts_with snap "backup-" ]
      ≡ true
    → goes_with o p ≡ false
stays none p h k = refl
stays (some (ds, snap)) none h k = refl
stays (some (ds, snap)) (some (ds', snap')) h k =
    rw
      (
        (str_eq_iff ds "tank/a").0 (both (str_eq ds "tank/a") (starts_with snap "backup-") h),
        (str_eq_iff ds' "tank/a").0 (both (str_eq ds' "tank/a") (starts_with snap' "backup-") k),
      )
      (and_false (str_eq snap snap'))

sample_pool-only_it :
    (line s : String) (w : List String)
    → is_backup_of "tank/a" s ≡ true
    → is_backup_of "tank/a" (strip line) ≡ true
    → strip line ≢ s
    → Prints sample_pool "tank/a" line w
    → Prints sample_pool "tank/a" line (sample_pool.destroy s w)
unfolding is_backup_of
sample_pool-only_it line s w its own other (lines, prints, there) =
    let removed =
      λ (t : String). str_eq (strip t) s || goes_with (split_at_sign s) (split_at_sign (strip t)) in
    let here : Occurs line w = let same : lines ≡ w = cc in rw same at there in
    (
      select (λ t. not (removed t)) w,
      refl,
      Occurs-select_of (λ t. not (removed t)) line w here
          (rw
            (
              apart (strip line) s other,
              stays (split_at_sign s) (split_at_sign (strip line)) its own,
            )
            refl),
    )

abbrev four_backups : List String
four_backups =
    "tank/a@backup-1" ∷ "tank/a@backup-2" ∷ "tank/a@mine" ∷ "tank/a@backup-3" ∷ "tank/a@backup-4"
    ∷ "tank/a/b@backup-2" ∷ "tank/a/b@mine" ∷ []

abbrev run_of : ℕ → ℕ → String → Run
run_of n set_id snap = record {
  id = n;
  session_id = some 1;
  group_id = some 1;
  backup_set_id = some set_id;
  dataset_name = "tank/a";
  backup_disk_id = 20;
  backup_type = full;
  promoted_from = none;
  snapshot = some snap;
  base_snapshot = none;
  full_anchor = none;
  size_bytes = 5;
  phase = none;
  status = RunStatus.success;
  error = none;
  completed_at = some 3;
}

abbrev two_runs : List Run
two_runs = run_of 1 2 "tank/a@backup-1" ∷ run_of 2 3 "tank/a@backup-4" ∷ []

-- A pruning after the write of `backup-4` destroys the second backup, and that of the same
-- name below.
pruned :
    prune_old_anchors sample_pool "tank/a" "tank/a@backup-4"
      (some "tank/a@backup-4")
      two_runs
      four_backups
    ≡ "tank/a@backup-1" ∷ "tank/a@mine" ∷ "tank/a@backup-3" ∷ "tank/a@backup-4" ∷ "tank/a/b@mine"
      ∷ []
unfolding prune_old_anchors nazman.Prelude.Order.sort strip
pruned = refl

prune_old_anchors-set_anchor_example :
    set_anchor sample_pool "tank/a" (some 2) two_runs (
      prune_old_anchors sample_pool "tank/a" "tank/a@backup-4"
        (some "tank/a@backup-4")
        two_runs
        four_backups)
    ≡ some "tank/a@backup-1"
unfolding set_anchor nazman.Prelude.Order.sort strip
prune_old_anchors-set_anchor_example =
    prune_old_anchors-set_anchor sample_pool "tank/a" sample_pool-only_it "tank/a@backup-4"
      (some "tank/a@backup-4") (some 2) two_runs four_backups "tank/a@backup-1" refl

prune_old_anchors_example :
    (is_backup_of "tank/a" "tank/a@backup-2" ≡ true)
    × (◌≢◌ {A = String} "tank/a@backup-2" "tank/a@backup-4")
    × (◌≢◌ {A = Option String} (some "tank/a@backup-4") (some "tank/a@backup-2"))
    × (1 + 2 < length (list_backup_snapshots sample_pool "tank/a" four_backups))
    × (◌≢◌ {A = Option String} (some "tank/a@backup-1") (some "tank/a@backup-2"))
    × (◌≢◌ {A = Option String} none (some "tank/a@backup-2"))
    × (◌≢◌ {A = Option String} none (some "tank/a@backup-2"))
unfolding doomed list_backup_snapshots nazman.Prelude.Order.sort strip
prune_old_anchors_example =
    prune_old_anchors_lem sample_pool "tank/a" "tank/a@backup-4" (some "tank/a@backup-4") two_runs
      four_backups "tank/a@backup-2" (0, refl) 1 refl (run_of 1 2 "tank/a@backup-1") (0, refl) refl
      refl

abbrev fine : {A : Type 0} → A → ℕ → Result Failure A × ℕ
fine a calls = (ok a, calls)

-- the world counts nothing; every command succeeds, and the base of the set is gone
abbrev sample_target : Target ℕ
sample_target = record {
  mount = λ n. fine tt;
  set_anchor = λ name set_id. fine none;
  chain_full_anchor = λ name set_id w. none;
  snapshot_exists = λ s. fine true;
  new_name = λ name w. "tank/a@backup-5";
  take_snapshot = λ s. fine tt;
  has_changes = λ a b w. (true, w);
  destroy_snapshot = λ s. fine tt;
  make_dir = λ s. fine tt;
  estimate_needed = λ s. fine 100;
  estimate_incremental_size = λ s set_id. fine 10;
  check_capacity = λ n needed. fine true;
  send = λ base snap. fine (some 42);
  unlink_stream = λ s. fine tt;
  prune_old_anchors = λ name keep. fine tt;
  record_manifest = λ n r. fine tt;
  unmount = λ n. fine tt;
}

abbrev backup_disk : BackupDisk
backup_disk = record {
  id = 20;
  backup_set_id = some 2;
  label = none;
  fs_uuid = "0000";
  unmount_after_backup = true;
}

abbrev asked_incremental : Run
asked_incremental = record (run_of 3 2 "") {
  backup_type = incremental;
  snapshot = none;
  status = RunStatus.running;
  completed_at = none;
}

-- With no base the incremental becomes a full.
sent_as_full :
    (backup_dataset sample_target 8 backup_disk asked_incremental 0).1.run.backup_type ≡ full
unfolding backup_dataset nazman.ZfsBackup.Stream.set_run nazman.ZfsBackup.Stream.call
    nazman.ZfsBackup.Stream.row nazman.ZfsBackup.Stream.asks nazman.ZfsBackup.Stream.set_snap
sent_as_full = refl

backup_dataset_example :
    Matches SendStatus.success
      (backup_dataset sample_target 8 backup_disk asked_incremental 0).1.run
unfolding backup_dataset nazman.ZfsBackup.Stream.set_run nazman.ZfsBackup.Stream.call
    nazman.ZfsBackup.Stream.row nazman.ZfsBackup.Stream.asks nazman.ZfsBackup.Stream.set_snap
backup_dataset_example =
    backup_dataset_lem sample_target 8 backup_disk asked_incremental 0 SendStatus.success refl

backup_dataset-returns_example :
    (status : SendStatus) × ((backup_dataset sample_target 8 backup_disk asked_incremental 0).0
      ≡ ok status)
backup_dataset-returns_example =
    backup_dataset-returns sample_target 8 backup_disk (λ n w. refl) (λ s w. refl) asked_incremental
      0
