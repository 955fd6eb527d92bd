-- ===== src/BackupGroup/Session/Media.antt =====
-- What a session asks of `ZfsBackupManager`, and how the answers are seen in the tables.
use nazman.Prelude.{
  ℕ, String, Bool, Option, Result, ok, err, Exec, update_where, ◌==◌, modify, ◌++◌, [], ◌∷◌,
}
use nazman.BackupGroup.Rows.{BackupDisk, Run, Note, Session, Group, BackupSet}
use nazman.BackupGroup.Session.{Ctx, Failure, Alert}

pub data SendStatus : Type 0 where
  success skipped failed : SendStatus
  needs_space : (needed_bytes : ℕ) → SendStatus

-- What `backup_dataset` returns: its status, and the run as it left it.
pub record Sent : Type 0 where
  pub status : SendStatus
  pub run : Run

-- The operations of `ZfsBackupManager` that a session calls, over a world of disks and pools.
pub record Media (W : Type 0) : Type 0 where
  pub dataset_exists : String → W → Result Failure Bool × W
  -- whether `mount_backup_disk` returned; every caller catches what it raises
  pub mount_backup_disk : ℕ → W → Bool × W
  pub fits : ℕ → ℕ → W → Bool
  pub restore_idle_state : ℕ → W → Result Failure Unit × W
  -- the new filesystem's UUID, or nothing where `recycle_disk` raised
  pub recycle : ℕ → W → Option String × W
  -- the run as it is left comes back whether the call returns or raises
  pub backup_dataset : BackupDisk → Run → W → Run × Result Failure SendStatus × W

abbrev pub Act : Type 0 → Type 0 → Type 0
Act W A = Exec (Ctx W) Failure A

-- what comes of the call, beside the run's row
abbrev pub as_sent : Run → Result Failure SendStatus → Result Failure Sent
as_sent run (ok status) = ok (record { status = status; run = run })
as_sent run (err e) = err e

module _ {W : Type 0} where
  abbrev pub lift : {A : Type 0} → (W → Result Failure A × W) → Act W A
  lift f c = let (r, w) = f c.world in (r, record c { world = w })

  abbrev pub ask : {A : Type 0} → (W → A × W) → Act W A
  ask f c = let (a, w) = f c.world in (ok a, record c { world = w })

  abbrev pub with_session : (Session → Session) → Act W Unit
  with_session f = modify (λ c. record c { session = f c.session })

  abbrev pub with_group : (Group → Group) → Act W Unit
  with_group f = modify (λ c. record c { group = f c.group })

  abbrev pub with_set : ℕ → (BackupSet → BackupSet) → Act W Unit
  with_set set_id f = modify (λ c. record c { sets = update_where (λ s. s.id == set_id) f c.sets })

  -- a change of a run's row; a row that is not there is not written
  abbrev pub with_run : ℕ → (Run → Run) → Act W Unit
  with_run run_id f = modify (λ c. record c { runs = update_where (λ r. r.id == run_id) f c.runs })

  abbrev pub note : Note → Act W Unit
  note n = modify (λ c. record c { notes = c.notes ++ n ∷ [] })

  abbrev pub alert : Alert → Act W Unit
  alert a = modify (λ c. record c { alerts = c.alerts ++ a ∷ [] })
