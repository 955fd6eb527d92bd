-- ===== src/Restore/Replay.antt =====
-- `_restore_one` and the loop of `restore_datasets` of nazman/services/system_restore.py, and
-- `receive_stream` of nazman/managers/zfs_backup_manager.py: the streams of a set are replayed while
-- a job shows how far it is.
pub mod Streams
pub mod Jobs
pub mod Datasets
mod Samples
use nazman.Prelude.{
  ℕ, zero, suc, ◌+◌, String, Bool, true, false, not, ◌&&◌, ◌||◌, Option, none, some, List, [], ◌∷◌,
  ◌++◌, map, length, is_empty, str_eq, option_or_none, Result, ok, err, if◌then◌else◌,
}
use nazman.Validation.{Invalid, validate_dataset_name}
use nazman.Manifest.{RunEntry, Manifest, text_eq}
use nazman.Restore.Merge.{merge_manifests}
use nazman.Restore.Chain.{Selection, Choice, chosen_datasets}
use nazman.Restore.Volumes.{
  Candidate, Outside, SetVolume, volumes_of, mount_each, unmount_all, locate_stream,
}
use nazman.Restore.Job.{JobStatus, Current, Job, start_dataset, start_stream, report, end_stream}

pub data RestoreError : Type 0 where
  invalid : Invalid → RestoreError
  stream_file_not_found : String → RestoreError
  cannot_read_stream : RestoreError
  receive_failed : RestoreError
  command_error : RestoreError
  set_not_found : String → RestoreError
  nothing_mounted : String → RestoreError
  already_running : RestoreError
  nothing_selected : RestoreError

pub record Receipt : Type 0 where
  pub dataset : String
  pub source : String
  pub force : Bool

pub data EntryStatus : Type 0 where
  success failed : EntryStatus

pub data EntryError : Type 0 where
  -- the stream, and the volume that it is expected on
  not_connected : Option String → Option String → EntryError
  raised : RestoreError → EntryError

pub record RestoreEntry : Type 0 where
  pub source : String
  pub target : String
  pub streams : List Receipt
  pub status : EntryStatus
  pub error : Option EntryError

abbrev pub RestoreJob : Type 0
RestoreJob = Job RestoreEntry RestoreError

pub record Service (W : Type 0) : Type 0 where
  pub job : Option RestoreJob
  pub world : W

abbrev pub changed : (RestoreJob → RestoreJob) → Option RestoreJob → Option RestoreJob
changed f none = none
changed f (some j) = some (f j)

-- `if job is not None: ...`, for the job that the restore reports to
abbrev pub with_job : {W : Type 0} → Bool → (RestoreJob → RestoreJob) → Service W → Service W
with_job tracked f s = record s { job = if tracked then changed f s.job else s.job }

abbrev pub change_current : (Current → Current) → Option Current → Option Current
change_current f none = none
change_current f (some c) = some (f c)

abbrev pub on_current : (Current → Current) → RestoreJob → RestoreJob
on_current f j = record j { current = change_current f j.current }

abbrev pub report_all : List ℕ → RestoreJob → RestoreJob
report_all [] j = j
report_all (n ∷ ns) j = report_all ns (on_current (report n) j)

abbrev pub bytes_of : Option Current → ℕ
bytes_of none = 0
bytes_of (some c) = c.bytes_done

abbrev pub stream_finished : ℕ → RestoreJob → RestoreJob
stream_finished index j = record j {
  bytes_total = j.bytes_total + bytes_of j.current;
  current = change_current (end_stream index) j.current;
}

abbrev pub failure_of : EntryStatus → ℕ
failure_of success = 0
failure_of failed = 1

abbrev pub dataset_finished : List RestoreEntry → RestoreEntry → RestoreJob → RestoreJob
dataset_finished results entry j = record j {
  results = results ++ entry ∷ [];
  datasets_done = suc j.datasets_done;
  datasets_failed = j.datasets_failed + failure_of entry.status;
  current = none;
}

abbrev pub is_incremental : RunEntry → Bool
is_incremental b = text_eq b.kind (some "incremental")

module _ {W : Type 0} (outside : Outside W) (tracked : Bool) where
  abbrev pub received :
      Receipt → (List ℕ × Option Bool) × W → Service W → Result RestoreError Receipt × Service W
  received receipt ((reports, answer), w) s =
      let s' = with_job tracked (report_all reports) (record s { world = w }) in
      (
        elim answer [
          | some true ↦ ok receipt
          | some false ↦ err receive_failed
          | none ↦ err command_error
        ],
        s',
      )

  abbrev pub receive_file :
      Option Bool → String → String → Bool → Service W → Result RestoreError Receipt × Service W
  receive_file none file target force s = (err cannot_read_stream, s)
  receive_file (some gzip) file target force s =
      received record { dataset = target; source = file; force = force }
        (outside.receive gzip file force target s.world) s

  abbrev pub receive_valid :
      Result Invalid String
      → String
      → String
      → Bool
      → Service W
      → Result RestoreError Receipt × Service W
  receive_valid (err e) file target force s = (err (invalid e), s)
  receive_valid (ok name) file target force s =
      if outside.path_exists file s.world
      then receive_file (outside.is_gzip file s.world) file target force s
      else (err (stream_file_not_found file), s)

  unfoldable pub receive_stream :
      String → String → Bool → Service W → Result RestoreError Receipt × Service W
  receive_stream file target force s =
      receive_valid (validate_dataset_name target) file target force s

  abbrev pub entry_of :
      String → String → List Receipt → EntryStatus → Option EntryError → RestoreEntry
  entry_of source target streams status error = record {
    source = source;
    target = target;
    streams = streams;
    status = status;
    error = error;
  }

  abbrev pub after_receive :
      String
      → String
      → List Receipt
      → ℕ
      → (Receipt → Service W → RestoreEntry × Service W)
      → Result RestoreError Receipt × Service W
      → RestoreEntry × Service W
  after_receive source target got index rest (err e, s) =
      (entry_of source target got failed (some (raised e)), s)
  after_receive source target got index rest (ok receipt, s) =
      rest receipt (with_job tracked (stream_finished index) s)

  abbrev pub missing_stream : String → String → List Receipt → RunEntry → RestoreEntry
  missing_stream source target got b =
      entry_of source target got failed
        (some (not_connected b.stream_file (option_or_none b.media_fs_uuid)))

  abbrev pub when_located :
      RestoreEntry
      → (String → RestoreEntry × Service W)
      → Option String
      → Service W
      → RestoreEntry × Service W
  when_located missing found none s = (missing, s)
  when_located missing found (some file) s = found file

  module _ (source target : String) (mounted : List (Candidate × String)) where
    -- the streams from one on, after those that were received
    unfoldable pub restore_streams :
        ℕ → Bool → List Receipt → List RunEntry → Service W → RestoreEntry × Service W
    unfolding receive_stream locate_stream
    restore_streams index exists got [] s = (entry_of source target got success none, s)
    restore_streams index exists got (b ∷ bs) s =
        when_located (missing_stream source target got b)
          (λ file.
            after_receive source target got index
              (λ receipt s'. restore_streams (suc index) true (got ++ receipt ∷ []) bs s')
              (receive_stream file target (exists || is_incremental b)
                (with_job tracked (on_current (start_stream index b.size_bytes)) s)))
          (locate_stream outside b mounted s.world) s

  unfoldable pub restore_one :
      String
      → String
      → List RunEntry
      → List (Candidate × String)
      → Service W
      → RestoreEntry × Service W
  unfolding restore_streams
  restore_one source target chain mounted s =
      restore_streams source target mounted 1 (outside.dataset_exists target s.world) [] chain s

  unfoldable pub restore_choices :
      List (Candidate × String)
      → List RestoreEntry
      → List Choice
      → Service W
      → List RestoreEntry × Service W
  unfolding restore_one
  restore_choices mounted results [] s = (results, s)
  restore_choices mounted results (c ∷ cs) s =
      let (entry, s') = restore_one c.source c.target c.chain mounted (
        with_job tracked
          (λ j. record j { current = some (start_dataset c.source c.target (length c.chain)) })
          s) in
      restore_choices mounted (results ++ entry ∷ []) cs
        (with_job tracked (dataset_finished results entry) s')
