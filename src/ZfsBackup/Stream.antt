-- ===== src/ZfsBackup/Stream.antt =====
-- `backup_dataset`: one dataset's stream to a mounted backup disk. The columns that only describe
-- the stream (its file, its checksum, the estimates) are left out of the run's row; a text of an
-- error is a constructor.
use nazman.Prelude.{
  ℕ, String, Bool, true, false, Option, none, some, Result, ok, err, Exec, pure, ◌>>=◌, ◌>>◌,
  if◌then◌else◌,
}
use nazman.BackupGroup.Rows.{
  BackupDisk, Run, RunStatus, Phase, BackupType, full, incremental, snapshotting, sending, pruning,
  insufficient_space, send_failed, interrupted,
}
use nazman.BackupGroup.Session.{Failure}
use nazman.BackupGroup.Session.Media.{SendStatus}

-- What the method calls: each may raise, but for the comparison of two snapshots.
pub record Target (W : Type 0) : Type 0 where
  pub mount : ℕ → W → Result Failure Unit × W
  pub set_anchor : String → Option ℕ → W → Result Failure (Option String) × W
  pub chain_full_anchor : String → Option ℕ → W → Option String
  pub snapshot_exists : String → W → Result Failure Bool × W
  -- the name with the time in it
  pub new_name : String → W → String
  pub take_snapshot : String → W → Result Failure Unit × W
  pub has_changes : String → String → W → Bool × W
  pub destroy_snapshot : String → W → Result Failure Unit × W
  pub make_dir : String → W → Result Failure Unit × W
  pub estimate_needed : String → W → Result Failure ℕ × W
  pub estimate_incremental_size : String → Option ℕ → W → Result Failure ℕ × W
  pub check_capacity : ℕ → ℕ → W → Result Failure Bool × W
  -- the size of the file that was written, or nothing where the pipeline failed
  pub send : Option String → String → W → Result Failure (Option ℕ) × W
  pub unlink_stream : String → W → Result Failure Unit × W
  pub prune_old_anchors : String → String → W → Result Failure Unit × W
  pub record_manifest : ℕ → Run → W → Result Failure Unit × W
  pub unmount : ℕ → W → Result Failure Unit × W

-- the run's row, the local variable `snap`, and the rest
pub record Job (W : Type 0) : Type 0 where
  pub run : Run
  pub snap : Option String
  pub world : W

abbrev pub Act : Type 0 → Type 0 → Type 0
Act W A = Exec (Job W) Failure A

module _ {W : Type 0} where
  unfoldable pub call : {A : Type 0} → (W → Result Failure A × W) → Act W A
  call f j = let (r, w) = f j.world in (r, record j { world = w })

  unfoldable pub set_run : (Run → Run) → Act W Unit
  set_run f j = (ok tt, record j { run = f j.run })

  unfoldable pub set_snap : String → Act W Unit
  set_snap s j = (ok tt, record j { snap = some s })

  unfoldable pub row : Act W Run
  row j = (ok j.run, j)

  unfoldable pub asks : {A : Type 0} → (W → A) → Act W A
  asks f j = (ok (f j.world), j)

abbrev pub promoted : Run → Run
promoted r = record r { promoted_from = some incremental; backup_type = full }

abbrev pub mark_skipped : Option String → Option String → ℕ → Run → Run
mark_skipped base anchor now r = record r {
  status = RunStatus.skipped;
  error = none;
  base_snapshot = base;
  full_anchor = anchor;
  phase = none;
  completed_at = some now;
}

abbrev pub mark_full_disk : Run → Run
mark_full_disk r = record r { status = RunStatus.failed; error = some insufficient_space }

abbrev pub mark_failed : Run → Run
mark_failed r = record r { status = RunStatus.failed; error = some send_failed }

abbrev pub mark_sent : Option String → Option String → ℕ → ℕ → Run → Run
mark_sent base anchor size now r = record r {
  size_bytes = size;
  base_snapshot = base;
  full_anchor = anchor;
  status = RunStatus.success;
  phase = none;
  completed_at = some now;
}

abbrev pub with_phase : Option Phase → Run → Run
with_phase p r = record r { phase = p }

-- The base, the start of the chain and the type that the stream will have.
pub record Plan : Type 0 where
  pub kind : BackupType
  pub base : Option String
  pub anchor : Option String

module _ {W : Type 0} (target : Target W) (now : ℕ) (rec : BackupDisk) where
  abbrev pub plan_on : Run → Option String → Act W Plan
  plan_on r none = do set_run promoted; pure (record { kind = full; base = none; anchor = none })
  plan_on r (some base) = do
    anchor ← asks (target.chain_full_anchor r.dataset_name r.backup_set_id)
    pure (record { kind = incremental; base = some base; anchor = anchor })

  abbrev pub plan_for : Run → BackupType → Act W Plan
  plan_for r full = pure (record { kind = full; base = none; anchor = none })
  plan_for r incremental = do
    base ← call (target.set_anchor r.dataset_name r.backup_set_id)
    plan_on r base

  -- a new snapshot, recorded once it is taken
  unfoldable pub take : Run → Act W String
  take r = do
    name ← asks (target.new_name r.dataset_name)
    set_snap name
    call (target.take_snapshot name)
    set_run (λ r'. record r' { snapshot = some name })
    pure name

  -- the snapshot of an earlier attempt that still exists, else a new one
  abbrev pub snapshot_after : Run → String → Bool → Act W String
  snapshot_after r s true = pure s
  snapshot_after r s false = take r

  abbrev pub snapshot_of_run : Run → Option String → Act W String
  snapshot_of_run r none = take r
  snapshot_of_run r (some s) = do
    set_snap s
    exists ← call (target.snapshot_exists s)
    snapshot_after r s exists

  unfoldable pub sent_with : Run → Plan → String → Option ℕ → Act W SendStatus
  sent_with r plan snap none = do
    call (target.unlink_stream snap)
    call (target.destroy_snapshot snap)
    set_run mark_failed
    pure SendStatus.failed
  sent_with r plan snap (some size) = do
    set_run (mark_sent plan.base plan.anchor size now)
    set_run (with_phase (some pruning))
    call (target.prune_old_anchors r.dataset_name snap)
    set_run (with_phase none)
    done ← row
    call (target.record_manifest rec.id done)
    pure SendStatus.success

  abbrev pub estimate : Run → BackupType → Act W ℕ
  estimate r full = call (target.estimate_needed r.dataset_name)
  estimate r incremental = call (target.estimate_incremental_size r.dataset_name r.backup_set_id)

  abbrev pub send_if : Run → Plan → String → ℕ → Bool → Act W SendStatus
  send_if r plan snap needed false = do set_run mark_full_disk; pure (SendStatus.needs_space needed)
  send_if r plan snap needed true = do
    set_run (with_phase (some sending))
    size ← call (target.send plan.base snap)
    sent_with r plan snap size

  unfoldable pub write_stream : Run → Plan → String → Act W SendStatus
  unfolding sent_with
  write_stream r plan snap = do
    call (target.make_dir r.dataset_name)
    needed ← estimate r plan.kind
    fits ← call (target.check_capacity rec.id needed)
    send_if r plan snap needed fits

  abbrev pub write_changed : Run → Plan → String → Bool → Act W SendStatus
  write_changed r plan snap true = write_stream r plan snap
  write_changed r plan snap false = do
    set_run (mark_skipped plan.base plan.anchor now)
    call (target.destroy_snapshot snap)
    pure SendStatus.skipped

  abbrev pub compare_with : Run → Plan → String → Option String → Act W SendStatus
  compare_with r plan snap none = write_stream r plan snap
  compare_with r plan snap (some base) = do
    changed ← call (λ w. let (b, w') = target.has_changes base snap w in (ok b, w'))
    write_changed r plan snap changed

  -- the body of the `try`
  unfoldable pub attempt : Act W SendStatus
  unfolding write_stream take
  attempt = do
    set_run (with_phase (some snapshotting))
    call (target.mount rec.id)
    r ← row
    plan ← plan_for r r.backup_type
    snap ← snapshot_of_run r r.snapshot
    compare_with r plan snap plan.base

  -- `if snap and not run.snapshot: await self._discard_snapshot(snap)`
  abbrev pub discard_unrecorded : Option String → Option String → Act W Unit
  discard_unrecorded (some s) none = call (target.destroy_snapshot s)
  discard_unrecorded _ _ = pure tt

  -- the `except`
  abbrev pub recover : Result Failure SendStatus → Act W SendStatus
  recover (ok status) = pure status
  recover (err e) = do
    r ← row
    snap ← λ j. (ok j.snap, j)
    discard_unrecorded snap r.snapshot
    set_run (λ r'. record r' {
      status = RunStatus.failed;
      error = some interrupted;
      completed_at = some now;
    })
    pure SendStatus.failed

  abbrev pub idle_again : Act W Unit
  idle_again = if rec.unmount_after_backup then call (target.unmount rec.id) else pure tt

  -- the `finally`: the disk goes idle, unless it was full, whatever the rest did
  abbrev pub unmounted_if :
      Result Failure SendStatus → Result Failure Unit → Result Failure SendStatus
  unmounted_if r (ok _) = r
  unmounted_if r (err e) = err e

  abbrev pub leave : Result Failure SendStatus → Job W → Result Failure SendStatus × Job W
  leave (ok (SendStatus.needs_space n)) j = (ok (SendStatus.needs_space n), j)
  leave r j = let (u, j') = idle_again j in (unmounted_if r u, j')

  unfoldable pub backup_dataset : Run → W → Result Failure SendStatus × Job W
  unfolding attempt ◌>>=◌
  backup_dataset run w =
      let (r, j) = attempt (record { run = run; snap = none; world = w }) in
      let (r', j') = recover r j in leave r' j'
