-- ===== src/Manifest/Samples.antt =====
-- A volume with an index of one dataset and three sidecars, and the theorems applied to it.
use nazman.Prelude.{
  ℕ, String, true, Option, none, some, List, [], ◌∷◌, ◌≡◌, refl, subst, arith, map,
}
use nazman.Manifest.{
  RunEntry, DatasetSpec, DatasetEntry, ConfigEntry, Manifest, Info, dataset_info, config_info,
  SidecarFile, Volume, IndexFile, parsed, load_manifest, scan_volume,
}
use nazman.Manifest.Index.{IsIndex, scan_volume-IsIndex}
use nazman.Manifest.Streams.{stream_of, scan_volume_lem}

abbrev run_at : String → ℕ → Option ℕ → RunEntry
run_at file created size = record {
  kind = some "full";
  stream_file = some file;
  media_fs_uuid = some "uuid-1";
  set_id = none;
  size_bytes = size;
  created_at = some created;
}

abbrev media_spec : DatasetSpec
media_spec = record {
  name = some "tank/media";
  pool = some "tank";
  properties = [];
  mountpoint = none;
}

abbrev sample_index : Manifest
sample_index = record {
  manifest_version = some 1;
  nazman_version = some "1.0";
  created_at = some 5;
  updated_at = some 5;
  media = [];
  group = none;
  config_backups = [];
  pools = [];
  datasets =
      record {
        name = some "tank/media";
        pool = some "tank";
        properties = [];
        mountpoint = none;
        backups = run_at "data/a" 10 none ∷ run_at "data/b" 20 none ∷ [];
      }
      ∷ [];
}

abbrev sample_volume : Volume
sample_volume = record {
  exists = true;
  index = parsed sample_index;
  sidecars =
      record {
        path = "data/c.info.json";
        name = "c.info.json";
        info = some (config_info record { id = some "c1"; path = none; created_at = none });
      }
      ∷ record { path = "data/x.info.json"; name = "x.info.json"; info = none }
      ∷ record {
        path = "data/b.info.json";
        name = "b.info.json";
        info = some (dataset_info media_spec (run_at "data/b" 5 (some 99)));
      }
      ∷ [];
}

sample_index-IsIndex : IsIndex sample_index
sample_index-IsIndex = record {
  names = (refl, tt);
  entries = (record { keyed = (refl, (refl, tt)); sorted = ((refl, tt), (tt, tt)) }, tt);
  bundles = tt;
  newest_first = tt;
}

loaded-IsIndex : (m : Manifest) → load_manifest sample_volume.index ≡ some m → IsIndex m
loaded-IsIndex m h = let same : sample_index ≡ m = cc in subst IsIndex same sample_index-IsIndex

-- the run that the sidecar dates back goes to the front
in_order :
    map {B = Option ℕ}
      (λ d. elim d.backups [ [] ↦ none | r ∷ rs ↦ r.size_bytes ])
      (scan_volume sample_volume [] "" 0).datasets
    ≡ some 99 ∷ []
unfolding scan_volume nazman.Manifest.upsert_config_backup nazman.Manifest.upsert_dataset_backup
    nazman.Prelude.Order.sort nazman.Prelude.Order.insert
in_order = refl

scan_volume-IsIndex_example : IsIndex (scan_volume sample_volume [] "1.0" 7)
scan_volume-IsIndex_example = scan_volume-IsIndex sample_volume [] "1.0" 7 loaded-IsIndex

scan_volume_example :
    stream_of (some "tank/media") (some "data/b") (scan_volume sample_volume [] "1.0" 7)
    ≡ some (run_at "data/b" 5 (some 99))
scan_volume_example =
    scan_volume_lem (some "tank/media") (some "data/b") sample_volume [] "1.0" 7 loaded-IsIndex
