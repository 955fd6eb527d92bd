-- ===== src/Restore/Samples.antt =====
-- Two volumes of a set, a recorded mirror, and the theorems applied to them.
use nazman.Prelude.{
  ℕ, String, Bool, true, false, Option, none, some, List, [], ◌∷◌, map, All, ◌≡◌, ◌≤◌, ◌↔◌, refl,
  inl, inr, Result, ok, err, arith,
}
use nazman.Prelude.Order.{IsSorted}
use nazman.Prelude.Keyed.{IsKeyed}
use nazman.Manifest.{RunEntry, Manifest, DeviceSpec, texts, name_key}
use nazman.Manifest.Index.{IsEntry, IsIndex}
use nazman.Manifest.Streams.{stream_of}
use nazman.Restore.Merge.{merge_manifests}
use nazman.Restore.Merge.Contents.{merge_manifests_lem}
use nazman.Restore.Chain.{Selection, Choice, chain, chosen_datasets, shallow_first}
use nazman.Restore.Chain.Latest.{chain_lem}
use nazman.Restore.Chain.Chosen.{ChosenFrom, chosen_datasets_lem}
use nazman.Restore.Mapping.{AttachedDisk, PoolPlan, plan_pool_mapping}
use nazman.Restore.Mapping.Claims.{Disjoint, vdev_claims}
use nazman.Restore.Mapping.Plan.{IsFilled, plan_pool_mapping_lem}

abbrev pub stream : String → String → ℕ → RunEntry
stream kind file created = record {
  kind = some kind;
  stream_file = some file;
  media_fs_uuid = some "uuid-1";
  set_id = some "7";
  size_bytes = some 10;
  created_at = some created;
}

abbrev pub volume_with : List RunEntry → Manifest
volume_with runs = record {
  manifest_version = some 1;
  nazman_version = none;
  created_at = none;
  updated_at = none;
  media = [];
  group = none;
  config_backups = [];
  pools =
      record {
        name = some "tank";
        vdevs =
            record {
              role = some "data";
              devices = device none ∷ device (some "s1") ∷ device none ∷ [];
            }
            ∷ [];
      }
      ∷ [];
  datasets =
      record {
        name = some "tank/media";
        pool = some "tank";
        properties = [];
        mountpoint = none;
        backups = runs;
      }
      ∷ [];
}
  where
    device : Option String → DeviceSpec
    device slot = record {
      by_id = some "ata-1";
      serial = some "S2";
      slot_uuid = slot;
      size_bytes = some 100;
      partition_size_bytes = none;
    }

abbrev pub first_volume : Manifest
first_volume = volume_with (stream "full" "a" 1 ∷ stream "incremental" "b" 2 ∷ [])

abbrev second_volume : Manifest
second_volume = volume_with (stream "full" "c" 3 ∷ stream "incremental" "d" 4 ∷ [])

both-IsIndex : All IsIndex (first_volume ∷ second_volume ∷ [])
both-IsIndex = (well, (well', tt))
  where
    well : IsIndex first_volume
    well = record {
      names = (refl, tt);
      entries = (record { keyed = (refl, (refl, tt)); sorted = ((refl, tt), (tt, tt)) }, tt);
      bundles = tt;
      newest_first = tt;
    }

    well' : IsIndex second_volume
    well' = record {
      names = (refl, tt);
      entries = (record { keyed = (refl, (refl, tt)); sorted = ((refl, tt), (tt, tt)) }, tt);
      bundles = tt;
      newest_first = tt;
    }

merge_manifests_example :
    let merged = merge_manifests (first_volume ∷ second_volume ∷ []) in
    (stream_of (some "tank/media") (some "b") merged ≡ some (stream "incremental" "b" 2))
    × IsKeyed texts name_key merged.datasets
    × All IsEntry merged.datasets
merge_manifests_example =
    merge_manifests_lem (some "tank/media") (some "b") (first_volume ∷ second_volume ∷ [])
      both-IsIndex

abbrev all_runs : List RunEntry
all_runs = stream "incremental" "d" 4 ∷ stream "full" "a" 1 ∷ stream "full" "c" 3 ∷ []

chain_example : chain all_runs ≡ stream "full" "c" 3 ∷ stream "incremental" "d" 4 ∷ []
unfolding nazman.Prelude.Order.sort nazman.Prelude.Order.insert
chain_example =
    (chain_lem all_runs (stream "full" "c" 3 ∷ stream "incremental" "d" 4 ∷ [])).1
      (inl (stream "full" "a" 1 ∷ [], refl, (refl, (refl, tt))))

abbrev pub to_new_pool : List Selection
to_new_pool =
    record { source_dataset = "tank/media"; target_pool = some "new"; enabled = true }
    ∷ record { source_dataset = "tank"; target_pool = some "new"; enabled = true }
    ∷ []

abbrev media_choice : Choice
media_choice = record {
  source = "tank/media";
  target = "new/media";
  chain = stream "full" "a" 1 ∷ stream "incremental" "b" 2 ∷ [];
}

chosen_datasets_example :
    ChosenFrom first_volume.datasets none media_choice to_new_pool
    × IsSorted shallow_first (chosen_datasets first_volume to_new_pool none)
unfolding chosen_datasets nazman.Prelude.Order.sort nazman.Prelude.Order.insert
chosen_datasets_example = chosen_datasets_lem first_volume to_new_pool none media_choice (0, refl)

abbrev two_disks : List AttachedDisk
two_disks =
    record {
      disk_id = 1;
      by_id = some "ata-1";
      serial = some "S1";
      size_bytes = 200;
      partitions = record { number = 1; slot_uuid = "s1"; size_bytes = 90 } ∷ [];
      in_pool = false;
      member_slot_uuids = [];
    }
    ∷ record {
      disk_id = 2;
      by_id = some "ata-2";
      serial = some "S2";
      size_bytes = 80;
      partitions = [];
      in_pool = false;
      member_slot_uuids = [];
    }
    ∷ []

abbrev planned : PoolPlan
planned = elim (plan_pool_mapping first_volume "tank" two_disks) [
  | ok plan ↦ plan
  | err e ↦ record { vdevs = []; available_disks = [] }
]

plan_pool_mapping_example :
    Disjoint (vdev_claims planned.vdevs)
    × All (λ v. All (IsFilled two_disks) v.devices) planned.vdevs
unfolding plan_pool_mapping
plan_pool_mapping_example = plan_pool_mapping_lem first_volume "tank" two_disks planned refl
