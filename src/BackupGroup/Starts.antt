-- ===== src/BackupGroup/Starts.antt =====
-- The start of a session and the recovery after a restart, nazman/services/backup_group_service.py:
-- `start_session`, `_check_trigger`, `recover_orphaned_backups`.
pub mod Running
use nazman.Prelude.{
  ℕ, zero, suc, ◌+◌, String, Bool, true, false, not, ◌&&◌, Option, none, some, List, [], ◌∷◌, ◌++◌,
  map, length, select, any, update_where, is_empty, Result, ok, err, pure, raise, gets, modify,
  ◌>>=◌, ◌>>◌, guard_not, ◌==◌, str_eq, if◌then◌else◌,
}
use nazman.BackupGroup.Rows.{
  Db, Session, SessionStatus, Run, RunStatus, BackupType, full, incremental, resolving, interrupted,
  interrupted_by_restart,
}
use nazman.BackupGroup.Session.{Failure}
use nazman.BackupGroup.Tables.{
  Act, get_group, group_datasets, group_sets, is_running, is_session_running, no_datasets,
  no_backup_sets, already_running, bad_trigger,
}

unfoldable pub check_trigger : String → Act BackupType
check_trigger backup_type =
    if str_eq backup_type "full"
    then pure full
    else if str_eq backup_type "incremental"
    then pure incremental
    else raise bad_trigger

abbrev pub new_session : ℕ → BackupType → ℕ → ℕ → Session
new_session group_id trigger total n = record {
  id = n;
  group_id = group_id;
  backup_set_id = none;
  backup_disk_id = none;
  trigger = trigger;
  status = SessionStatus.running;
  phase = some resolving;
  datasets_total = total;
  datasets_done = 0;
  datasets_skipped = 0;
  datasets_failed = 0;
  bytes_written = 0;
  notes = [];
  error = none;
  completed_at = none;
}

abbrev pub add_session : Session → Db → Db
add_session s db = record db { sessions = db.sessions ++ s ∷ []; next_id = db.next_id + 1 }

unfoldable pub start_after : ℕ → BackupType → Act ℕ
unfolding ◌>>=◌
start_after group_id trigger = do
  group ← get_group group_id
  datasets ← gets (group_datasets group_id)
  guard_not (is_empty datasets) no_datasets
  sets ← gets (group_sets group_id)
  guard_not (is_empty sets) no_backup_sets
  busy ← gets (is_session_running group_id)
  guard_not busy already_running
  n ← gets (λ db. db.next_id)
  modify (add_session (new_session group.id trigger (length datasets) n))
  pure n

-- The row of the new session; the task that runs it is started afterwards.
unfoldable pub start_session : ℕ → String → Act ℕ
unfolding check_trigger start_after ◌>>=◌
start_session group_id backup_type = do
  trigger ← check_trigger backup_type
  start_after group_id trigger

abbrev pub run_is_running : Run → Bool
run_is_running r = elim r.status [ RunStatus.running ↦ true | _ ↦ false ]

-- The loop over the stale runs. The snapshot of an interrupted send is destroyed, which may raise.
abbrev and_then :
    {W : Type 0} → Result Failure Unit × W → (W → Result Failure Unit × W) → Result Failure Unit × W
and_then (ok _, w) f = f w
and_then (err e, w) f = (err e, w)

unfoldable pub discard_snapshots :
    {W : Type 0} → (String → W → Result Failure Unit × W) → List Run → W → Result Failure Unit × W
discard_snapshots discard [] w = (ok tt, w)
discard_snapshots discard (r ∷ rs) w =
    let rest = discard_snapshots discard rs in
    elim r.snapshot [
      | none ↦ rest w
      | some s ↦ if str_eq s "" then rest w else and_then (discard s w) rest
    ]

unfoldable pub fail_runs : ℕ → List Run → List Run
fail_runs now runs =
    update_where run_is_running
      (λ r. record r {
        status = RunStatus.failed;
        phase = none;
        error = some interrupted;
        completed_at = some now;
      })
      runs

unfoldable pub fail_sessions : ℕ → List Session → List Session
fail_sessions now sessions =
    update_where (λ s. is_running s.status)
      (λ s. record s {
        status = SessionStatus.failed;
        phase = none;
        error = some interrupted_by_restart;
        completed_at = some now;
      })
      sessions

abbrev pub after_discard :
    {W : Type 0} → ℕ → Result Failure Unit × W → Db → Result Failure Unit × Db × W
after_discard now (err e, w) db = (err e, db, w)
after_discard now (ok _, w) db =
    (ok tt, record db { runs = fail_runs now db.runs; sessions = fail_sessions now db.sessions }, w)

-- Where a snapshot cannot be destroyed the exception leaves before anything is committed.
unfoldable pub recover_orphaned_backups :
    {W : Type 0}
    → (String → W → Result Failure Unit × W)
    → ℕ
    → Db
    → W
    → Result Failure Unit × Db × W
unfolding discard_snapshots fail_runs fail_sessions
recover_orphaned_backups discard now db w =
    after_discard now (discard_snapshots discard (select run_is_running db.runs) w) db
