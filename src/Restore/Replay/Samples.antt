-- ===== src/Restore/Replay/Samples.antt =====
-- A restore of one dataset from one volume, with its job. The world is the number of the volumes
-- that are mounted.
use nazman.Prelude.{
  ℕ, zero, suc, ◌+◌, ◌-◌, ◌≤◌, String, Bool, true, false, Option, none, some, List, [], ◌∷◌, ◌==◌,
  ◌≡◌, refl, Result, ok, err, length, map, arith,
}
use nazman.Manifest.{RunEntry, IndexFile, parsed, Volume}
use nazman.Restore.Chain.{chosen_datasets}
use nazman.Restore.Samples.{stream, first_volume, to_new_pool}
use nazman.Restore.Volumes.{Candidate, Outside, volumes_of}
use nazman.Restore.Job.{JobStatus, Job, progress_pct, start_dataset, start_stream}
use nazman.Restore.Job.Steps.{
  JobSteps, at_once, then_step, begin_dataset, begin_stream, read_bytes, lowest, highest,
  progress_pct_lem,
}
use nazman.Restore.Replay.{success, Receipt, RestoreEntry, RestoreJob, Service, restore_one}
use nazman.Restore.Run.{manifest_of, restore_datasets}
use nazman.Restore.Replay.Streams.{Replay, restore_one_lem}
use nazman.Restore.Replay.Datasets.{IsRestored, restore_datasets_lem}

abbrev usb_volume : Candidate
usb_volume = record {
  device = "/dev/sdx1";
  device_name = "sdx1";
  by_id = none;
  fstype = "ext4";
  fs_uuid = some "uuid-1";
  label = none;
  base_by_id = none;
  base_name = "sdx";
  partition_number = some 1;
}

abbrev one_volume : Outside ℕ
one_volume = record {
  scratch_root = "/scratch";
  candidates = λ w. usb_volume ∷ [];
  is_mount = λ place w. w == 1;
  mount = λ device place w. (some true, 1);
  umount = λ place w. 0;
  volume_at = λ place w. record { exists = true; index = parsed first_volume; sidecars = [] };
  now = λ w. 0;
  path_exists = λ path w. w == 1;
  dataset_exists = λ name w. false;
  is_gzip = λ path w. some false;
  receive = λ gzip file force target w. ((5 ∷ 10 ∷ [], some true), w);
}

abbrev started : RestoreJob
started = record {
  set_id = "7";
  status = JobStatus.running;
  datasets_total = 1;
  datasets_done = 0;
  datasets_failed = 0;
  bytes_total = 0;
  started_at = 0;
  error = none;
  results = [];
  current = none;
}

abbrev idle : Service ℕ
idle = record { job = some started; world = 0 }

abbrev receipt : String → Bool → Receipt
receipt file force = record { dataset = "new/media"; source = file; force = force }

abbrev one_entry : List RestoreEntry
one_entry =
    record {
      source = "tank/media";
      target = "new/media";
      streams = receipt "/scratch/uuid-1/a" false ∷ receipt "/scratch/uuid-1/b" true ∷ [];
      status = success;
      error = none;
    }
    ∷ []

restore_datasets_example :
    IsRestored
      (chosen_datasets (manifest_of one_volume (volumes_of one_volume "7" 0).0) to_new_pool none)
      started
      one_entry
      (restore_datasets one_volume "7" to_new_pool none idle).1
unfolding restore_datasets nazman.Manifest.scan_volume nazman.Prelude.Order.sort
    nazman.Prelude.Order.insert nazman.Validation.validate_dataset_name
    nazman.Prelude.Texts.text_length nazman.Validation.all_in nazman.Prelude.Texts.starts_with_code
    nazman.Prelude.Texts.ends_with_code nazman.Prelude.Texts.has_pair
restore_datasets_example =
    restore_datasets_lem one_volume (λ gzip file force target w. omega arith) "7" one_entry
      to_new_pool none started idle refl refl refl refl

restore_one_example :
    let chain = stream "full" "a" 1 ∷ stream "incremental" "b" 2 ∷ [] in
    let entry =
      (restore_one one_volume true "tank/media" "new/media" chain
        ((usb_volume, "/scratch/uuid-1") ∷ [])
        (record idle { world = 1 })).0 in
    Replay one_volume true "tank/media" "new/media"
      ((usb_volume, "/scratch/uuid-1") ∷ [])
      1
      false
      chain
      entry.streams
      entry.status
      (record idle { world = 1 })
restore_one_example =
    restore_one_lem one_volume true "tank/media" "new/media" ((usb_volume, "/scratch/uuid-1") ∷ [])
      (stream "full" "a" 1 ∷ stream "incremental" "b" 2 ∷ []) (record idle { world = 1 })

abbrev reading : RestoreJob
reading = record started {
  current = some (
      nazman.Restore.Job.report 5
        (start_stream 1 (some 10) (start_dataset "tank/media" "new/media" 2)));
}

-- a quarter of the only dataset
quarter : progress_pct reading ≡ 25
unfolding progress_pct
quarter = refl

reading-steps : JobSteps started reading
reading-steps =
    then_step
      (then_step (then_step at_once (begin_dataset started "tank/media" "new/media" 2 refl)) (
        begin_stream (record started { current = some (start_dataset "tank/media" "new/media" 2) })
          (start_dataset "tank/media" "new/media" 2) (some 10) refl refl))
      (read_bytes _ (start_stream 1 (some 10) (start_dataset "tank/media" "new/media" 2)) 5 refl
        (omega arith))

progress_pct_example :
    (progress_pct started ≤ progress_pct reading)
    × (lowest reading.status ≤ progress_pct reading)
    × (progress_pct reading ≤ highest reading.status)
progress_pct_example = progress_pct_lem reading-steps
