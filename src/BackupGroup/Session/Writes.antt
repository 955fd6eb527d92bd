-- ===== src/BackupGroup/Session/Writes.antt =====
-- `_write_one_set` and its helpers.
use nazman.Prelude.{
  ℕ, ◌+◌, String, Bool, true, false, not, ◌&&◌, Option, none, some, List, [], ◌∷◌, ◌++◌, take, drop,
  any, select, update_where, holds, pure, gets, modify, ◌>>=◌, ◌>>◌, ◌==◌, if◌then◌else◌,
}
use nazman.BackupGroup.Rows.{
  BackupSet, BackupDisk, Run, RunStatus, BackupType, SessionError, full, incremental, pending,
  dataset_not_found, recycled,
}
use nazman.BackupGroup.Disks.{index_of_disk}
use nazman.BackupGroup.Session.{Ctx}
use nazman.BackupGroup.Session.Media.{
  Media, as_sent, Sent, SendStatus, Act, lift, ask, with_session, with_set, with_run, note,
}

pub record Tally : Type 0 where
  pub done : ℕ
  pub skipped : ℕ
  pub failed : ℕ
  pub total_bytes : ℕ

abbrev pub nothing_yet : Tally
nothing_yet = record { done = 0; skipped = 0; failed = 0; total_bytes = 0 }

-- What `_write_one_set` returns. `stopped` holds the error of a set that blocked the session,
-- and the dataset that did not fit, if it was that.
pub record Outcome : Type 0 where
  pub tally : Tally
  pub stopped : Option (SessionError × Option String)
  pub last_rec : Option BackupDisk

-- The disks from the active one on, then those before it.
abbrev pub from_active : Option ℕ → List BackupDisk → List BackupDisk
from_active none disks = disks
from_active (some a) disks = elim (index_of_disk a disks) [
  | none ↦ disks
  | some i ↦ drop i disks ++ take i disks
]

abbrev pub disks_of : {W : Type 0} → ℕ → Ctx W → List BackupDisk
disks_of set_id c = select (λ d. holds d.backup_set_id set_id) c.disks

abbrev pub is_success : RunStatus → Bool
is_success RunStatus.success = true
is_success _ = false

abbrev pub is_incremental : BackupType → Bool
is_incremental incremental = true
is_incremental full = false

-- `_disk_written_this_session`
abbrev pub disk_written_this_session : {W : Type 0} → ℕ → Ctx W → Bool
disk_written_this_session disk_id c =
    any (λ r. holds r.session_id c.session.id && r.backup_disk_id == disk_id && is_success r.status)
      c.runs

abbrev new_run_row : {W : Type 0} → String → BackupType → ℕ → Option ℕ → Ctx W → Run
new_run_row dataset backup_type disk_id set_id c = record {
  id = c.next_id;
  session_id = some c.session.id;
  group_id = some c.session.group_id;
  backup_set_id = elim set_id [ none ↦ c.session.backup_set_id | some n ↦ some n ];
  dataset_name = dataset;
  backup_disk_id = disk_id;
  backup_type = backup_type;
  promoted_from = none;
  snapshot = none;
  base_snapshot = none;
  full_anchor = none;
  size_bytes = 0;
  phase = some pending;
  status = RunStatus.running;
  error = none;
  completed_at = none;
}

abbrev pub pending_again : ℕ → Run → Run
pending_again disk_id r = record r {
  backup_disk_id = disk_id;
  status = RunStatus.running;
  error = none;
  phase = some pending;
}

-- The disk's row gets its new UUID, and every run that was stored on the disk goes.
abbrev pub wiped : {W : Type 0} → ℕ → String → Ctx W → Ctx W
wiped disk_id fs_uuid c = record c {
  disks = update_where (λ d. d.id == disk_id) (λ d. record d { fs_uuid = fs_uuid }) c.disks;
  runs = select (λ r. not (r.backup_disk_id == disk_id)) c.runs;
}

abbrev pub unless_full : Sent → Option Sent
unless_full sent = elim sent.status [ SendStatus.needs_space n ↦ none | _ ↦ some sent ]

module _ {W : Type 0} (media : Media W) (now : ℕ) where
  -- the first of the disks that mounts becomes the set's active disk
  unfoldable pub mount_first : ℕ → List BackupDisk → Act W (Option BackupDisk)
  mount_first set_id [] = pure none
  mount_first set_id (rec ∷ others) =
      let rest = mount_first set_id others in
      do
        mounted ← ask (media.mount_backup_disk rec.id)
        if mounted
            then (do
              with_set set_id (λ s. record s { active_disk_id = some rec.id })
              pure (some rec))
            else rest

  unfoldable pub active_disk : BackupSet → Act W (Option BackupDisk)
  unfolding mount_first
  active_disk bset c = mount_first bset.id (from_active bset.active_disk_id (disks_of bset.id c)) c

  -- the first of the disks that mounts and has room
  unfoldable pub take_first_fit : ℕ → ℕ → ℕ → List BackupDisk → Act W (Option BackupDisk)
  take_first_fit set_id full_id needed [] = pure none
  take_first_fit set_id full_id needed (candidate ∷ others) =
      let rest = take_first_fit set_id full_id needed others in
      if candidate.id == full_id then rest else (do
        mounted ← ask (media.mount_backup_disk candidate.id)
        fits ← gets (λ c. media.fits candidate.id needed c.world)
        if mounted
            then if fits
              then (do
                with_set set_id (λ s. record s { active_disk_id = some candidate.id })
                pure (some candidate))
              else (do ask (media.restore_idle_state candidate.id); rest)
            else rest)

  unfoldable pub advance_for_space : BackupSet → BackupDisk → ℕ → Act W (Option BackupDisk)
  unfolding take_first_fit
  advance_for_space bset rec needed = do
    lift (media.restore_idle_state rec.id)
    disks ← gets (disks_of bset.id)
    take_first_fit bset.id rec.id needed disks

  unfoldable pub new_run : String → BackupType → BackupDisk → Option ℕ → Act W Run
  new_run dataset backup_type rec set_id = do
    run ← gets (new_run_row dataset backup_type rec.id set_id)
    modify (λ c. record c { runs = c.runs ++ run ∷ []; next_id = c.next_id + 1 })
    pure run

  -- `backup_dataset`, with the run's row as it leaves it
  abbrev pub called : BackupDisk → Run → Act W Sent
  called rec run c =
      let (left, r, w) = media.backup_dataset rec run c.world in
      (
        as_sent left r,
        record c {
          runs = update_where (λ r'. r'.id == run.id) (λ _. record left { id = run.id }) c.runs;
          world = w;
        },
      )

  unfoldable pub send : BackupDisk → Run → Act W Sent
  send rec run = called rec run

  unfoldable pub record_missing : String → BackupDisk → Act W Unit
  unfolding new_run
  record_missing dataset rec = do
    run ← new_run dataset full rec none
    with_run run.id (λ r. record r {
      status = RunStatus.failed;
      error = some dataset_not_found;
      phase = none;
      completed_at = some now;
    })

  unfoldable pub update_progress : Tally → Act W Unit
  update_progress t = with_session (λ s. record s {
    datasets_done = t.done;
    datasets_skipped = t.skipped;
    datasets_failed = t.failed;
    bytes_written = t.total_bytes;
  })

  abbrev pub after_recycle : BackupDisk → Run → Option String → Act W (Option Sent)
  after_recycle rec run none = pure none
  after_recycle rec run (some fs_uuid) = do
    modify (wiped rec.id fs_uuid)
    note (recycled rec.id)
    with_run run.id (pending_again rec.id)
    sent ← send rec (pending_again rec.id run)
    pure (unless_full sent)

  unfoldable pub recycle_for_space : BackupDisk → Run → Act W (Option Sent)
  unfolding send
  recycle_for_space rec run = do fs_uuid ← ask (media.recycle rec.id); after_recycle rec run fs_uuid
