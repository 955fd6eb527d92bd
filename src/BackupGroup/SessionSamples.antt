-- ===== src/BackupGroup/SessionSamples.antt =====
-- A session of a group that keeps two copies, the moves of a set's disk pointer, and the
-- theorems applied to them.
use nazman.Prelude.{
  holds, ==_self, ℕ, zero, suc, ◌≡◌, ◌<◌, refl, Bool, true, false, Option, none, some, List, [],
  ◌∷◌, length, find?, ◌+◌, ◌*◌, ◌%◌, arith, String, Result, ok, err, ◌==◌, is_some, modify,
  if◌then◌else◌, select, inr,
}
use nazman.BackupGroup.Rows.{Group, BackupSet, SessionStatus, RunStatus, incremental}
use nazman.BackupGroup.Cycle.{target_sets, active_set}
use nazman.BackupGroup.Disks.{advance_disk}
use nazman.BackupGroup.Disks.Active.{IsFiled, Filed, advance_disk_lem}
use nazman.BackupGroup.Session.{Ctx, Failure}
use nazman.BackupGroup.Session.Media.{Media, SendStatus}
use nazman.BackupGroup.Session.Writes.{nothing_yet, Tally}
use nazman.BackupGroup.Session.Execute.{write_sets, Written}
use nazman.BackupGroup.Session.Finish.{execute_session}
use nazman.BackupGroup.Session.Ends.{IsLeft, execute_session_lem}
use nazman.BackupGroup.Session.Moves.{IsMoved, execute_session-moves}
use nazman.BackupGroup.Session.Counts.{Counted, counted, write_sets_lem}
use nazman.BackupGroup.Samples.{set_at, disk_of, photos, three_sets, six_disks, library_db}

-- Disk 30 does not mount, disk 40 is full, and the world counts the calls.
abbrev sample_media : Media ℕ
sample_media = record {
  dataset_exists = λ name calls. (ok true, calls + 1);
  mount_backup_disk = λ n calls. (if n == 30 then false else true, calls + 1);
  fits = λ n needed calls. true;
  restore_idle_state = λ n calls. (ok tt, calls + 1);
  recycle = λ n calls. (none, calls + 1);
  backup_dataset = λ d run calls.
      if d.id == 40
      then (record run { status = RunStatus.failed }, ok (SendStatus.needs_space 9), calls + 1)
      else (
        record run { status = RunStatus.success; size_bytes = 7 },
        ok SendStatus.success,
        calls + 1,
      );
}

abbrev tonight : Ctx ℕ
tonight = record {
  session = record {
    id = 9;
    group_id = 1;
    backup_set_id = none;
    backup_disk_id = none;
    trigger = incremental;
    status = SessionStatus.running;
    phase = none;
    datasets_total = 1;
    datasets_done = 0;
    datasets_skipped = 0;
    datasets_failed = 0;
    bytes_written = 0;
    notes = [];
    error = none;
    completed_at = none;
  };
  group = photos;
  datasets = "tank/photos" ∷ [];
  sets = three_sets;
  disks = six_disks;
  runs = [];
  next_id = 50;
  notes = [];
  alerts = [];
  captured = [];
  world = 0;
}

-- Set 3 is written on its second disk, set 4 moves on to its own second one.
tonight_result : (execute_session sample_media 77 tonight).0 ≡ ok SessionStatus.success
unfolding execute_session nazman.Prelude.◌>>=◌ target_sets active_set
    nazman.BackupGroup.Session.Execute.write_one_set nazman.BackupGroup.Session.Writes.active_disk
    nazman.BackupGroup.Session.Execute.write_dataset nazman.BackupGroup.Session.Writes.new_run
    nazman.BackupGroup.Session.Writes.send nazman.BackupGroup.Session.Writes.advance_for_space
tonight_result = refl

tonight_disks : (execute_session sample_media 77 tonight).1.captured ≡ 31 ∷ 41 ∷ []
unfolding execute_session nazman.Prelude.◌>>=◌ target_sets active_set
    nazman.BackupGroup.Session.Execute.write_one_set nazman.BackupGroup.Session.Writes.active_disk
    nazman.BackupGroup.Session.Execute.write_dataset nazman.BackupGroup.Session.Writes.new_run
    nazman.BackupGroup.Session.Writes.send nazman.BackupGroup.Session.Writes.advance_for_space
tonight_disks = refl

execute_session_example : IsLeft SessionStatus.running 77 (execute_session sample_media 77 tonight)
execute_session_example = execute_session_lem sample_media 77 tonight

execute_session-moves_example :
    IsMoved sample_media 77 three_sets
      (set_at 3 1)
      (target_sets photos three_sets (set_at 3 1))
      photos
      (execute_session sample_media 77 tonight)
unfolding active_set
execute_session-moves_example =
    execute_session-moves sample_media 77 tonight (set_at 2 0) (set_at 3 1 ∷ set_at 4 2 ∷ []) refl

-- The pointer goes from set 3 to set 2, then to set 4, and back to set 3.
abbrev pointing_at : ℕ → Group
pointing_at n = record photos { active_set_id = some n; last_session_at = some 77 }

abbrev on_group : Group → Ctx ℕ
on_group group = record tonight { group = group }

abbrev three_rounds : List (List BackupSet)
three_rounds =
    (set_at 3 1 ∷ set_at 4 2 ∷ [])
    ∷ (set_at 2 0 ∷ set_at 3 1 ∷ [])
    ∷ (set_at 4 2 ∷ set_at 2 0 ∷ [])
    ∷ []

abbrev all_written : Written
all_written = record {
  tally = record { done = 2; skipped = 0; failed = 0; total_bytes = 14 };
  recs = disk_of 31 3 ∷ disk_of 41 4 ∷ [];
  stopped = none;
}

write_sets_example : Counted (counted nothing_yet) 2 false (counted all_written.tally)
unfolding write_sets nazman.Prelude.◌>>=◌ nazman.BackupGroup.Session.Execute.write_one_set
    nazman.BackupGroup.Session.Writes.active_disk nazman.BackupGroup.Session.Execute.write_dataset
    nazman.BackupGroup.Session.Writes.new_run nazman.BackupGroup.Session.Writes.send
    nazman.BackupGroup.Session.Writes.advance_for_space
write_sets_example =
    write_sets_lem sample_media 77 (set_at 3 1 ∷ set_at 4 2 ∷ []) ("tank/photos" ∷ []) nothing_yet
      [] tonight all_written refl

-- the disk is filed under the set, whose id is known
rw_id : (s : BackupSet) (n : ℕ) → s.id ≡ n → holds (some n) s.id ≡ true
rw_id s n same = rw same (==_self n)

library_db-IsFiled : IsFiled library_db
library_db-IsFiled s a (zero, listed) points = record {
  disk = disk_of 20 2;
  listed = (0, refl);
  named = cc;
  filed = rw_id s 2 (cc);
}
library_db-IsFiled s a (suc zero, listed) points = record {
  disk = disk_of 30 3;
  listed = (2, refl);
  named = cc;
  filed = rw_id s 3 (cc);
}
library_db-IsFiled s a (suc (suc zero), listed) points = record {
  disk = disk_of 40 4;
  listed = (4, refl);
  named = cc;
  filed = rw_id s 4 (cc);
}
library_db-IsFiled s a (suc (suc (suc i)), listed) points = absurd (cc)

advance_disk_example : Filed six_disks 3 31
unfolding advance_disk nazman.BackupGroup.Tables.get_set
    nazman.BackupGroup.Tables.is_session_running nazman.BackupGroup.Tables.set_disks
advance_disk_example =
    advance_disk_lem library_db library_db-IsFiled 3
      (record (set_at 3 1) { active_disk_id = some 31 }) 31 (1, refl) refl
