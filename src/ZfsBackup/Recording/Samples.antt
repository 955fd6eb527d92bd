-- ===== src/ZfsBackup/Recording/Samples.antt =====
-- A volume without an index and with the sidecar of one stream, to which a second one is recorded.
use nazman.Prelude.{◌&&◌, true, none, some, [], ◌∷◌, ◌≡◌, refl, str_eq, if◌then◌else◌}
use nazman.BackupGroup.Rows.{Db, incremental}
use nazman.Manifest.{RunEntry, DatasetSpec, Volume, absent, dataset_info, scan_volume, text_eq}
use nazman.Manifest.Streams.{stream_of}
use nazman.ZfsBackup.Recording.{Written, Around, run_entry, dataset_spec, record_manifest}
use nazman.ZfsBackup.Recording.Scanned.{record_manifest_lem}

abbrev media_spec : DatasetSpec
media_spec = record {
  name = some "tank/media";
  pool = some "tank";
  properties = [];
  mountpoint = none;
}

abbrev first_run : RunEntry
first_run = record {
  kind = some "full";
  stream_file = some "data/tank/media/1.zfs";
  media_fs_uuid = some "uuid-1";
  set_id = some "7";
  size_bytes = some 10;
  created_at = some 1;
}

abbrev one_stream : Volume
one_stream = record {
  exists = true;
  index = absent;
  sidecars =
      record {
        path = "data/tank/media/1.zfs.info.json";
        name = "1.zfs.info.json";
        info = some (dataset_info media_spec first_run);
      }
      ∷ [];
}

abbrev no_rows : Db
no_rows = record {
  groups = [];
  datasets = [];
  sets =
      record {
        id = 7;
        group_id = 1;
        position = 0;
        label = none;
        active_disk_id = none;
        last_used_at = none;
      }
      ∷ [];
  disks = [];
  sessions = [];
  runs = [];
  next_id = 1;
}

abbrev around : Around
around = record {
  fs_uuid = "uuid-1";
  media = [];
  nazman_version = "1.0";
  now = 9;
  path_before = λ p q. true;
  can_write = λ p. true;
  pools = none;
  spec = none;
}

abbrev second : Written
second = record {
  group_id = some 1;
  backup_set_id = some 7;
  dataset_name = "tank/media";
  backup_type = incremental;
  size_bytes = some 4;
  completed_at = some 8;
  stream_file = some "data/tank/media/2.zfs";
}

of_set : (run_entry no_rows around second).set_id ≡ some "7"
unfolding run_entry
of_set = refl

record_manifest_example :
    stream_of
      (some "tank/media")
      (some "data/tank/media/1.zfs")
      (scan_volume (record_manifest no_rows around second "2.zfs.info.json" one_stream) [] "" 0)
    ≡ (if text_eq (dataset_spec around second).name (some "tank/media")
          && str_eq "data/tank/media/2.zfs" "data/tank/media/1.zfs"
        then some (run_entry no_rows around second)
        else stream_of
            (some "tank/media")
            (some "data/tank/media/1.zfs")
            (scan_volume one_stream [] "1.0" 9))
unfolding dataset_spec
record_manifest_example =
    record_manifest_lem no_rows around second one_stream (λ m h. absurd (cc)) (some "tank/media")
      "data/tank/media/1.zfs" "data/tank/media/2.zfs" "2.zfs.info.json" [] "" 0 refl (refl, tt) refl
      refl refl refl refl refl
