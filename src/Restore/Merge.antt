-- ===== src/Restore/Merge.antt =====
-- `_merge_manifests` of nazman/services/system_restore.py: the volumes of a set as one manifest.
pub mod Contents
use nazman.Prelude.{
  ℕ, zero, suc, String, Bool, true, false, not, ◌&&◌, Option, none, some, List, [], ◌∷◌, ◌++◌, map,
  leb, any, is_some, is_empty, update_first, option_or_none, if◌then◌else◌,
}
use nazman.Prelude.Order.{sort}
use nazman.Prelude.Keyed.{has_key, find_key, replace_key}
use nazman.Manifest.{
  RunEntry, DatasetSpec, DatasetEntry, ConfigEntry, PoolEntry, Manifest, texts, text_eq,
  when_created, older_first, stream_key, name_key, id_key, merge_spec, blank_entry,
}

abbrev pub spec_of : DatasetEntry → DatasetSpec
spec_of d = record {
  name = d.name;
  pool = d.pool;
  properties = d.properties;
  mountpoint = d.mountpoint;
}

abbrev pub add_runs : List RunEntry → List RunEntry → List RunEntry
add_runs [] runs = runs
add_runs (run ∷ rest) runs = add_runs rest (replace_key texts stream_key run runs)

abbrev pub with_runs : List RunEntry → DatasetEntry → DatasetEntry
with_runs runs d = record d { backups = add_runs runs d.backups }

-- the target of a dataset, a new one if there is none of its name, takes its facts and its runs
unfoldable pub merge_dataset : DatasetEntry → List DatasetEntry → List DatasetEntry
merge_dataset d merged =
    let targets =
      if is_some (find_key texts name_key d.name merged)
      then merged
      else merged ++ blank_entry (spec_of d) ∷ [] in
    update_first (has_key texts name_key d.name)
      (λ t. with_runs d.backups (merge_spec (spec_of d) t)) targets

unfoldable pub merge_datasets : List DatasetEntry → List DatasetEntry → List DatasetEntry
unfolding merge_dataset
merge_datasets [] merged = merged
merge_datasets (d ∷ ds) merged = merge_datasets ds (merge_dataset d merged)

unfoldable pub merge_pools : List PoolEntry → List PoolEntry → List PoolEntry
merge_pools [] merged = merged
merge_pools (p ∷ ps) merged = merge_pools ps (
    if is_some (option_or_none p.name) && not (any (λ q. text_eq q.name p.name) merged)
    then merged ++ p ∷ []
    else merged)

unfoldable pub merge_configs : List ConfigEntry → List ConfigEntry → List ConfigEntry
merge_configs [] merged = merged
merge_configs (c ∷ cs) merged =
    merge_configs cs (if any (λ e. text_eq e.id c.id) merged then merged else merged ++ c ∷ [])

-- the first that is there
abbrev pub first_given {ℓ} : {A : Type ℓ} → Option A → Option A → Option A
first_given none new = new
first_given (some old) new = some old

-- `max(updated, manifest.get("updated_at") or "")`
abbrev pub later_of : Option ℕ → Option ℕ → Option ℕ
later_of a b = if leb (when_created b) (when_created a) then a else b

unfoldable pub merge_one : Manifest → Manifest → Manifest
unfolding merge_datasets merge_pools merge_configs
merge_one m merged = record {
  manifest_version = first_given merged.manifest_version m.manifest_version;
  nazman_version = first_given merged.nazman_version m.nazman_version;
  created_at = first_given merged.created_at m.created_at;
  updated_at = later_of merged.updated_at m.updated_at;
  media = if is_empty merged.media then m.media else merged.media;
  group = first_given merged.group (option_or_none m.group);
  config_backups = merge_configs m.config_backups merged.config_backups;
  pools = merge_pools m.pools merged.pools;
  datasets = merge_datasets m.datasets merged.datasets;
}

unfoldable pub merge_all : List Manifest → Manifest → Manifest
unfolding merge_one
merge_all [] merged = merged
merge_all (m ∷ ms) merged = merge_all ms (merge_one m merged)

abbrev pub empty_manifest : Manifest
empty_manifest = record {
  manifest_version = none;
  nazman_version = none;
  created_at = none;
  updated_at = none;
  media = [];
  group = none;
  config_backups = [];
  pools = [];
  datasets = [];
}

abbrev pub sort_runs : DatasetEntry → DatasetEntry
sort_runs d = record d { backups = sort older_first d.backups }

unfoldable pub merge_manifests : List Manifest → Manifest
unfolding merge_all
merge_manifests manifests =
    let merged = merge_all manifests empty_manifest in
    record merged { datasets = map sort_runs merged.datasets }
