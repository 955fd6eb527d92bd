-- ===== src/Manifest.antt =====
-- nazman/utils/backup_manifest.py: the index that a backup volume carries, and how it is rebuilt
-- from the files beside its streams. A dictionary that is read from a file is a record whose keys
-- may be missing; a missing list is empty. A time is a number. The keys that nothing reads are left
-- out.
pub mod Index
pub mod Streams
pub mod Sidecars
mod Samples
use nazman.Prelude.{
  ℕ, zero, suc, String, Bool, true, false, not, ◌&&◌, ◌||◌, Option, none, some, List, [], ◌∷◌, ◌++◌,
  leb, is_some, select, update_first, is_empty, str_eq, str_eq_iff, option_or_none, ◌≡◌, ◌↔◌, refl,
  holds, if◌then◌else◌, arith,
}
use nazman.Prelude.Order.{sort, insert}
use Prim.Native.String.{◌++◌ as ◌<>◌}
use nazman.Prelude.Keyed.{Keys, has_key, find_key, replace_key}

pub record RunEntry : Type 0 where
  -- "full" or "incremental"
  pub kind : Option String
  pub stream_file : Option String
  pub media_fs_uuid : Option String
  pub set_id : Option String
  pub size_bytes : Option ℕ
  pub created_at : Option ℕ

pub record DatasetSpec : Type 0 where
  pub name : Option String
  pub pool : Option String
  pub properties : List (String × String)
  pub mountpoint : Option String

pub record DatasetEntry : Type 0 where
  pub name : Option String
  pub pool : Option String
  pub properties : List (String × String)
  pub mountpoint : Option String
  pub backups : List RunEntry

pub record ConfigEntry : Type 0 where
  pub id : Option String
  pub path : Option String
  pub created_at : Option ℕ

pub record DeviceSpec : Type 0 where
  pub by_id : Option String
  pub serial : Option String
  pub slot_uuid : Option String
  pub size_bytes : Option ℕ
  pub partition_size_bytes : Option ℕ

pub record VdevSpec : Type 0 where
  pub role : Option String
  pub devices : List DeviceSpec

pub record PoolEntry : Type 0 where
  pub name : Option String
  pub vdevs : List VdevSpec

pub record Manifest : Type 0 where
  pub manifest_version : Option ℕ
  pub nazman_version : Option String
  pub created_at : Option ℕ
  pub updated_at : Option ℕ
  pub media : List (String × String)
  pub group : Option String
  pub config_backups : List ConfigEntry
  pub pools : List PoolEntry
  pub datasets : List DatasetEntry

-- `a == b` for values that may be None
abbrev pub text_eq : Option String → Option String → Bool
text_eq none none = true
text_eq none (some t) = false
text_eq (some s) none = false
text_eq (some s) (some t) = str_eq s t

pub text_eq_iff : (a b : Option String) → (text_eq a b ≡ true) ↔ (a ≡ b)
text_eq_iff none none = (λ _. refl, λ _. refl)
text_eq_iff none (some t) = (λ h. absurd (cc), λ h. absurd (cc))
text_eq_iff (some s) none = (λ h. absurd (cc), λ h. absurd (cc))
text_eq_iff (some s) (some t) = ground (arith, str_eq_iff s t)

abbrev pub texts : Keys (Option String)
texts = record { same = text_eq; same_iff = text_eq_iff }

-- `created_at or ""`, as it compares
abbrev pub when_created : Option ℕ → ℕ
when_created none = 0
when_created (some t) = suc t

abbrev pub older_first : RunEntry → RunEntry → Bool
older_first r s = leb (when_created r.created_at) (when_created s.created_at)

abbrev pub newer_first : ConfigEntry → ConfigEntry → Bool
newer_first c d = leb (when_created d.created_at) (when_created c.created_at)

abbrev pub stream_key : RunEntry → Option String
stream_key r = r.stream_file

abbrev pub name_key : DatasetEntry → Option String
name_key d = d.name

abbrev pub id_key : ConfigEntry → Option String
id_key c = c.id

abbrev manifest_version : ℕ
manifest_version = 1

unfoldable pub new_manifest : List (String × String) → String → ℕ → Manifest
new_manifest media nazman_version now = record {
  manifest_version = some manifest_version;
  nazman_version = some nazman_version;
  created_at = some now;
  updated_at = some now;
  media = media;
  group = none;
  config_backups = [];
  pools = [];
  datasets = [];
}

unfoldable pub upsert_config_backup : ConfigEntry → Manifest → Manifest
upsert_config_backup entry m = record m {
  config_backups = sort newer_first (replace_key texts id_key entry m.config_backups);
}

-- `if new: old = new`
abbrev pub or_kept : Option String → Option String → Option String
or_kept new old = elim (option_or_none new) [ none ↦ old | some t ↦ some t ]

abbrev pub properties_or_kept :
    List (String × String) → List (String × String) → List (String × String)
properties_or_kept new old = if is_empty new then old else new

abbrev pub blank_entry : DatasetSpec → DatasetEntry
blank_entry spec = record {
  name = spec.name;
  pool = spec.pool;
  properties = spec.properties;
  mountpoint = spec.mountpoint;
  backups = [];
}

abbrev pub merge_spec : DatasetSpec → DatasetEntry → DatasetEntry
merge_spec spec d = record d {
  pool = or_kept spec.pool d.pool;
  mountpoint = or_kept spec.mountpoint d.mountpoint;
  properties = properties_or_kept spec.properties d.properties;
}

abbrev pub record_run : RunEntry → DatasetEntry → DatasetEntry
record_run run d = record d {
  backups = sort older_first (replace_key texts stream_key run d.backups);
}

unfoldable pub upsert_dataset_backup : DatasetSpec → RunEntry → Manifest → Manifest
upsert_dataset_backup spec run m = record m {
  datasets =
      if is_some (find_key texts name_key spec.name m.datasets)
      then update_first (has_key texts name_key spec.name) (λ d. record_run run (merge_spec spec d))
          m.datasets
      else m.datasets ++ record_run run (blank_entry spec) ∷ [];
}

unfoldable pub merge_pools : List PoolEntry → Manifest → Manifest
merge_pools pools m = record m { pools = pools }

-- What a file beside an artifact says, by its `kind`.
pub data Info : Type 0 where
  dataset_info : DatasetSpec → RunEntry → Info
  config_info : ConfigEntry → Info
  other_info : Info

-- A file under the root whose name ends in ".info.json"; it may be no JSON.
pub record SidecarFile : Type 0 where
  -- from the root of the volume, and its last part
  pub path : String
  pub name : String
  pub info : Option Info

-- A volume: whether its root exists, the index at its root, and its sidecars in the order of their
-- paths.
pub data IndexFile : Type 0 where
  absent unreadable : IndexFile
  parsed : Manifest → IndexFile

pub record Volume : Type 0 where
  pub exists : Bool
  pub index : IndexFile
  pub sidecars : List SidecarFile

abbrev pub merge_dataset_sidecar : DatasetSpec → RunEntry → Manifest → Manifest
merge_dataset_sidecar spec run m =
    if is_some (option_or_none spec.name) && is_some (option_or_none run.stream_file)
    then upsert_dataset_backup spec run m
    else m

abbrev pub merge_config_sidecar : ConfigEntry → Manifest → Manifest
merge_config_sidecar entry m =
    if is_some (option_or_none entry.id) then upsert_config_backup entry m else m

abbrev pub merge_info : Option Info → Manifest → Manifest
merge_info none m = m
merge_info (some (dataset_info spec run)) m = merge_dataset_sidecar spec run m
merge_info (some (config_info entry)) m = merge_config_sidecar entry m
merge_info (some other_info) m = m

-- the sidecar that the index itself would have
abbrev pub is_own : SidecarFile → Bool
is_own file = str_eq file.name "nazman-backup.json.info.json"

unfoldable pub fold_sidecars : List SidecarFile → Manifest → Manifest
fold_sidecars [] m = m
fold_sidecars (file ∷ files) m =
    fold_sidecars files (if is_own file then m else merge_info file.info m)

-- `validate_manifest`: the lists are lists by their type
abbrev pub is_supported : Manifest → Bool
is_supported m = holds m.manifest_version manifest_version

abbrev pub load_manifest : IndexFile → Option Manifest
load_manifest absent = none
load_manifest unreadable = none
load_manifest (parsed m) = if is_supported m then some m else none

unfoldable pub build_from_sidecars : Volume → List (String × String) → String → ℕ → Manifest
unfolding new_manifest fold_sidecars
build_from_sidecars volume media nazman_version now =
    let m = new_manifest media nazman_version now in
    if volume.exists then fold_sidecars volume.sidecars m else m

abbrev pub with_media : List (String × String) → Manifest → Manifest
with_media media m = if is_empty media then m else record m { media = media }

abbrev pub missing_facts : List (String × String) → String → Manifest → Manifest
missing_facts media nazman_version m = record m {
  media = if is_empty m.media then media else m.media;
  nazman_version =
      if is_some (option_or_none m.nazman_version) || str_eq nazman_version ""
      then m.nazman_version
      else some nazman_version;
}

abbrev pub scan_loaded : Option Manifest → Volume → List (String × String) → String → ℕ → Manifest
scan_loaded none volume media nazman_version now =
    with_media media (build_from_sidecars volume media nazman_version now)
scan_loaded (some m) volume media nazman_version now =
    let m' = missing_facts media nazman_version m in
    if volume.exists then fold_sidecars volume.sidecars m' else m'

unfoldable pub scan_volume : Volume → List (String × String) → String → ℕ → Manifest
unfolding build_from_sidecars
scan_volume volume = scan_loaded (load_manifest volume.index) volume

unfoldable pub save_manifest : ℕ → Manifest → Volume → Volume
save_manifest now m volume = record volume {
  exists = true;
  index = parsed (record m { updated_at = some now });
}

-- the path of the file beside a stream
abbrev pub sidecar_path : String → String
sidecar_path stream_file = stream_file <> ".info.json"

-- A file is replaced where it stands in the order of the paths.
unfoldable pub write_sidecar : (String → String → Bool) → SidecarFile → Volume → Volume
unfolding insert
write_sidecar before file volume = record volume {
  sidecars =
      insert (λ a b. before a.path b.path) file
        (select (λ a. not (str_eq a.path file.path)) volume.sidecars);
}
