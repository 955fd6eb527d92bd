-- ===== src/Restore/Run.antt =====
-- `restore_datasets`, `start_restore` and `_restore_worker` of nazman/services/system_restore.py: the
-- restore of a set, from its volumes to its job.
use nazman.Prelude.{
  ℕ, String, Bool, true, false, Option, none, some, List, [], ◌∷◌, map, length, is_empty, str_eq,
  Result, ok, err, if◌then◌else◌,
}
use nazman.Manifest.{Manifest}
use nazman.Restore.Merge.{merge_manifests}
use nazman.Restore.Chain.{Selection, Choice, chosen_datasets}
use nazman.Restore.Volumes.{Candidate, Outside, SetVolume, volumes_of, mount_each, unmount_all}
use nazman.Restore.Job.{JobStatus}
use nazman.Restore.Replay.{
  RestoreError, set_not_found, nothing_mounted, already_running, nothing_selected, RestoreEntry,
  RestoreJob, Service, with_job, restore_choices,
}

-- The job that a restore reports to is the one of its set.
abbrev pub is_tracked : String → Option RestoreJob → Bool
is_tracked set_id none = false
is_tracked set_id (some j) = str_eq j.set_id set_id

module _ {W : Type 0} (outside : Outside W) where
  abbrev pub in_world : W → Service W → Service W
  in_world w s = record s { world = w }

  abbrev pub manifest_of : List SetVolume → Manifest
  manifest_of vs = merge_manifests (map (λ v. v.manifest) vs)

  -- the mounted volumes, for the datasets that are chosen
  abbrev pub restore_mounted :
      Bool
      → String
      → List Choice
      → List (Candidate × String)
      → Service W
      → Result RestoreError (List RestoreEntry) × Service W
  restore_mounted tracked set_id chosen [] s = (err (nothing_mounted set_id), s)
  restore_mounted tracked set_id chosen (m ∷ ms) s =
      let (results, s') = restore_choices outside tracked (m ∷ ms) [] chosen s in
      let s'' = with_job tracked (λ j. record j { current = none }) s' in
      (ok results, in_world (unmount_all outside (m ∷ ms) s''.world) s'')

  -- `_mount_volumes` looks for the volumes a second time
  abbrev pub mount_and_restore :
      Bool
      → String
      → List Choice
      → List SetVolume × W
      → Service W
      → Result RestoreError (List RestoreEntry) × Service W
  mount_and_restore tracked set_id chosen ([], w) s = (err (set_not_found set_id), in_world w s)
  mount_and_restore tracked set_id chosen (v ∷ vs, w) s =
      let (mounted, w') = mount_each outside (v ∷ vs) w in
      restore_mounted tracked set_id chosen mounted (in_world w' s)

  abbrev pub restore_found :
      String
      → List Selection
      → Option String
      → List SetVolume × W
      → Service W
      → Result RestoreError (List RestoreEntry) × Service W
  restore_found set_id selections media ([], w) s = (err (set_not_found set_id), in_world w s)
  restore_found set_id selections media (v ∷ vs, w) s =
      let chosen = chosen_datasets (manifest_of (v ∷ vs)) selections media in
      let tracked = is_tracked set_id s.job in
      let s' = with_job tracked (λ j. record j { datasets_total = length chosen }) (in_world w s) in
      mount_and_restore tracked set_id chosen (volumes_of outside set_id s'.world) s'

  unfoldable pub restore_datasets :
      String
      → List Selection
      → Option String
      → Service W
      → Result RestoreError (List RestoreEntry) × Service W
  unfolding restore_choices volumes_of mount_each unmount_all chosen_datasets merge_manifests
  restore_datasets set_id selections media s =
      restore_found set_id selections media (volumes_of outside set_id s.world) s

  abbrev pub is_running : Option RestoreJob → Bool
  is_running none = false
  is_running (some j) = elim j.status [
    | JobStatus.running ↦ true
    | JobStatus.done ↦ false
    | JobStatus.failed ↦ false
  ]

  abbrev pub new_job : String → ℕ → ℕ → RestoreJob
  new_job set_id total now = record {
    set_id = set_id;
    status = JobStatus.running;
    datasets_total = total;
    datasets_done = 0;
    datasets_failed = 0;
    bytes_total = 0;
    started_at = now;
    error = none;
    results = [];
    current = none;
  }

  abbrev pub start_found :
      String
      → List Selection
      → Option String
      → List SetVolume × W
      → Service W
      → Result RestoreError Unit × Service W
  start_found set_id selections media ([], w) s = (err (set_not_found set_id), in_world w s)
  start_found set_id selections media (v ∷ vs, w) s =
      let chosen = chosen_datasets (manifest_of (v ∷ vs)) selections media in
      if is_empty chosen then (err nothing_selected, in_world w s) else (
        ok tt,
        record { job = some (new_job set_id (length chosen) (outside.now w)); world = w },
      )

  -- The task that it creates runs `restore_worker` later.
  unfoldable pub start_restore :
      String → List Selection → Option String → Service W → Result RestoreError Unit × Service W
  unfolding volumes_of chosen_datasets merge_manifests
  start_restore set_id selections media s =
      if is_running s.job
      then (err already_running, s)
      else start_found set_id selections media (volumes_of outside set_id s.world) s

  abbrev pub ended : Result RestoreError (List RestoreEntry) → RestoreJob → RestoreJob
  ended (ok results) j = record j { results = results; status = JobStatus.done; current = none }
  ended (err e) j = record j { status = JobStatus.failed; error = some e; current = none }

  -- It runs for the job that was started; the notification of the end is left out.
  unfoldable pub restore_worker : String → List Selection → Option String → Service W → Service W
  unfolding restore_datasets
  restore_worker set_id selections media s =
      let (outcome, s') = restore_datasets set_id selections media s in
      with_job true (ended outcome) s'
