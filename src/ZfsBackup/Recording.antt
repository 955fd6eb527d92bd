-- ===== src/ZfsBackup/Recording.antt =====
-- nazman/managers/zfs_backup_manager.py, `_set_identity`, `_record_manifest` and
-- `_write_initial_manifest`: what a backup leaves on its volume beside the stream. A volume is the
-- one of nazman/utils/backup_manifest.py. The stream lies on the volume; its path is taken from
-- the root of the volume. Parameters are the order of the paths, the files that can be written, the
-- version of the program, the identity of the media and the time.
pub mod Saved
pub mod Scanned
mod Samples
use nazman.Prelude.{
  ℕ, String, Bool, ◌&&◌, Option, none, some, List, [], find?, is_some, option_or_none, ◌==◌,
  if◌then◌else◌,
}
use nazman.Prelude.Decimal.{decimal}
use nazman.Prelude.Texts.{split_once}
use nazman.BackupGroup.Rows.{Db, Group, BackupSet, BackupType, full, incremental}
use nazman.Manifest.{
  RunEntry, DatasetSpec, PoolEntry, Manifest, Volume, dataset_info, SidecarFile, merge_pools,
  upsert_dataset_backup, scan_volume, save_manifest, sidecar_path, write_sidecar,
}

-- The columns of a run that its entry is made from.
pub record Written : Type 0 where
  pub group_id : Option ℕ
  pub backup_set_id : Option ℕ
  pub dataset_name : String
  pub backup_type : BackupType
  pub size_bytes : Option ℕ
  pub completed_at : Option ℕ
  pub stream_file : Option String

-- the volume that it was written to, and what is around it
pub record Around : Type 0 where
  pub fs_uuid : String
  pub media : List (String × String)
  pub nazman_version : String
  pub now : ℕ
  pub path_before : String → String → Bool
  pub can_write : String → Bool
  -- the answers of the ZFS manager, if there is one and it does not raise
  pub pools : Option (List PoolEntry)
  pub spec : Option DatasetSpec

abbrev pub set_of : Db → Option ℕ → Option String
set_of db none = none
set_of db (some set_id) = elim (find? (λ s. s.id == set_id) db.sets) [
  | none ↦ none
  | some s ↦ some (decimal s.id)
]

-- the `set_id` of the identity; the rest of it is only shown
unfoldable pub set_identity : Db → Written → Option String
set_identity db run = elim run.group_id [ none ↦ none | some g ↦ set_of db run.backup_set_id ]

abbrev pub type_text : BackupType → String
type_text full = "full"
type_text incremental = "incremental"

abbrev pub text_or_empty : Option String → String
text_or_empty none = ""
text_or_empty (some t) = t

abbrev pub or_time : Option ℕ → ℕ → ℕ
or_time none now = now
or_time (some t) now = t

unfoldable pub run_entry : Db → Around → Written → RunEntry
unfolding set_identity
run_entry db around run = record {
  kind = some (type_text run.backup_type);
  stream_file = some (text_or_empty run.stream_file);
  media_fs_uuid = some around.fs_uuid;
  set_id = set_identity db run;
  size_bytes = run.size_bytes;
  created_at = some (or_time run.completed_at around.now);
}

-- `get_dataset_spec`, or what is known without it
abbrev pub spec_or_name : Option DatasetSpec → String → DatasetSpec
spec_or_name none name = record {
  name = some name;
  pool = some (split_once b'/' name).0;
  properties = [];
  mountpoint = none;
}
spec_or_name (some spec) name = spec

unfoldable pub dataset_spec : Around → Written → DatasetSpec
unfolding split_once
dataset_spec around run = spec_or_name around.spec run.dataset_name

abbrev pub with_pools : Option (List PoolEntry) → Manifest → Manifest
with_pools none m = m
with_pools (some pools) m = merge_pools pools m

abbrev pub with_group : Db → Option ℕ → Manifest → Manifest
with_group db none m = m
with_group db (some group_id) m = elim (find? (λ g. g.id == group_id) db.groups) [
  | none ↦ m
  | some g ↦ record m { group = some g.name }
]

unfoldable pub recorded_manifest : Db → Around → Written → Volume → Manifest
unfolding run_entry dataset_spec scan_volume merge_pools upsert_dataset_backup
recorded_manifest db around run volume = with_group db run.group_id (
    upsert_dataset_backup (dataset_spec around run) (run_entry db around run)
      (with_pools around.pools (scan_volume volume around.media around.nazman_version around.now)))

-- the last part of a path
abbrev pub beside_stream : Db → Around → Written → String → String → SidecarFile
beside_stream db around run stream base = record {
  path = sidecar_path stream;
  name = base;
  info = some (dataset_info (dataset_spec around run) (run_entry db around run));
}

abbrev pub with_sidecar : Db → Around → Written → Option String → String → Volume → Volume
with_sidecar db around run none base volume = volume
with_sidecar db around run (some stream) base volume =
    if around.can_write (sidecar_path stream)
    then write_sidecar around.path_before (beside_stream db around run stream base) volume
    else volume

-- The index first and then the sidecar, whose name is given with the run; an exception is logged
-- and ends it.
unfoldable pub record_manifest : Db → Around → Written → String → Volume → Volume
unfolding recorded_manifest save_manifest write_sidecar
record_manifest db around run base volume =
    if around.can_write "nazman-backup.json"
    then with_sidecar db around run (option_or_none run.stream_file) base
        (save_manifest around.now (recorded_manifest db around run volume) volume)
    else volume

unfoldable pub write_initial_manifest : Around → Volume → Volume
unfolding scan_volume save_manifest
write_initial_manifest around volume =
    if around.can_write "nazman-backup.json"
    then save_manifest around.now (scan_volume volume around.media around.nazman_version around.now)
        volume
    else volume
