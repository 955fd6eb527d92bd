-- ===== src/Manifest/Index.antt =====
-- The index is well formed: no dataset, no stream of a dataset and no bundle stands twice in it, and
-- they are in order. Every operation keeps this.
use nazman.Prelude.{
  ℕ, String, Bool, ◌&&◌, Option, none, some, List, [], ◌∷◌, ◌++◌, All, is_some, is_empty,
  option_or_none, update_first, ◌≡◌, refl, Bool-cases, inl, inr, if◌then◌else◌, arith,
}
use nazman.Prelude.Order.{IsSorted, sort-IsSorted}
use nazman.Prelude.Keyed.{
  has_key, find_key, replace_key, IsKeyed, IsKeyed-sort, IsKeyed-replace_key, IsKeyed-append_last,
  IsKeyed-update_first,
}
use nazman.Manifest.{
  RunEntry, DatasetSpec, DatasetEntry, ConfigEntry, Manifest, texts, older_first, newer_first,
  stream_key, name_key, id_key, new_manifest, upsert_config_backup, merge_spec, blank_entry,
  record_run, upsert_dataset_backup, Info, dataset_info, config_info, other_info, SidecarFile,
  Volume, merge_info, is_own, fold_sidecars, load_manifest, build_from_sidecars, missing_facts,
  scan_loaded, scan_volume,
}

-- the streams of a dataset: none twice, the oldest first
pub record IsEntry (d : DatasetEntry) : Type 0 where
  pub keyed : IsKeyed texts stream_key d.backups
  pub sorted : IsSorted older_first d.backups

pub record IsIndex (m : Manifest) : Type 0 where
  pub names : IsKeyed texts name_key m.datasets
  pub entries : All IsEntry m.datasets
  pub bundles : IsKeyed texts id_key m.config_backups
  pub newest_first : IsSorted newer_first m.config_backups

record_run-IsEntry : (run : RunEntry) (d : DatasetEntry) → IsEntry d → IsEntry (record_run run d)
record_run-IsEntry run d e = record {
  keyed =
      IsKeyed-sort texts stream_key older_first (replace_key texts stream_key run d.backups)
        (IsKeyed-replace_key texts stream_key run d.backups e.keyed);
  sorted =
      sort-IsSorted older_first (λ r s h. ground arith) (λ r s t h k. ground arith)
        (replace_key texts stream_key run d.backups);
}

All-update_first :
    (p : DatasetEntry → Bool) (f : DatasetEntry → DatasetEntry)
    → ((d : DatasetEntry) → IsEntry d → IsEntry (f d))
    → (ds : List DatasetEntry) → All IsEntry ds
    → All IsEntry (update_first p f ds)
All-update_first p f keeps [] all = tt
All-update_first p f keeps (d ∷ ds) (e, all) = elim (Bool-cases (p d)) [
  | inl h ↦ rw h (keeps d e, all)
  | inr h ↦ rw h (e, All-update_first p f keeps ds all)
]

All-append_last :
    (d : DatasetEntry) (ds : List DatasetEntry)
    → IsEntry d
    → All IsEntry ds
    → All IsEntry (ds ++ d ∷ [])
All-append_last d [] e all = (e, tt)
All-append_last d (d' ∷ ds) e (e', all) = (e', All-append_last d ds e all)

pub upsert_dataset_backup-IsIndex :
    (spec : DatasetSpec) (run : RunEntry) (m : Manifest)
    → IsIndex m
    → IsIndex (upsert_dataset_backup spec run m)
unfolding upsert_dataset_backup
upsert_dataset_backup-IsIndex spec run m i =
    let change = λ (d : DatasetEntry). record_run run (merge_spec spec d) in
    let fresh = record_run run (blank_entry spec) in
    elim (find_key texts name_key spec.name m.datasets)
        as (λ o.
          find_key texts name_key spec.name m.datasets ≡ o
          → IsIndex (record m {
            datasets =
                if is_some o
                then update_first (has_key texts name_key spec.name) change m.datasets
                else m.datasets ++ fresh ∷ [];
          })) [
            | none ↦ λ missing. record {
              names = IsKeyed-append_last texts name_key fresh m.datasets missing i.names;
              entries =
                  All-append_last fresh m.datasets
                    (record_run-IsEntry run (blank_entry spec) record { keyed = tt; sorted = tt })
                    i.entries;
              bundles = i.bundles;
              newest_first = i.newest_first;
            }
            | some d ↦ λ found. record {
              names =
                  IsKeyed-update_first texts name_key spec.name change (λ d. refl) m.datasets
                    i.names;
              entries =
                  All-update_first (has_key texts name_key spec.name) change
                    (λ d e.
                      record_run-IsEntry run (merge_spec spec d)
                        record { keyed = e.keyed; sorted = e.sorted })
                    m.datasets i.entries;
              bundles = i.bundles;
              newest_first = i.newest_first;
            }
          ]
      refl

upsert_config_backup-IsIndex :
    (entry : ConfigEntry) (m : Manifest) → IsIndex m → IsIndex (upsert_config_backup entry m)
unfolding upsert_config_backup
upsert_config_backup-IsIndex entry m i = record {
  names = i.names;
  entries = i.entries;
  bundles =
      IsKeyed-sort texts id_key newer_first (replace_key texts id_key entry m.config_backups)
        (IsKeyed-replace_key texts id_key entry m.config_backups i.bundles);
  newest_first =
      sort-IsSorted newer_first (λ c d h. ground arith) (λ c d e h k. ground arith)
        (replace_key texts id_key entry m.config_backups);
}

pub merge_info-IsIndex :
    (info : Option Info) (m : Manifest) → IsIndex m → IsIndex (merge_info info m)
merge_info-IsIndex none m i = i
merge_info-IsIndex (some (dataset_info spec run)) m i =
    elim (Bool-cases
      (is_some (option_or_none spec.name) && is_some (option_or_none run.stream_file))) [
        | inl e ↦ rw e (upsert_dataset_backup-IsIndex spec run m i)
        | inr e ↦ rw e i
      ]
merge_info-IsIndex (some (config_info entry)) m i =
    elim (Bool-cases (is_some (option_or_none entry.id))) [
      | inl e ↦ rw e (upsert_config_backup-IsIndex entry m i)
      | inr e ↦ rw e i
    ]
merge_info-IsIndex (some other_info) m i = i

fold_sidecars-IsIndex :
    (files : List SidecarFile) (m : Manifest) → IsIndex m → IsIndex (fold_sidecars files m)
unfolding fold_sidecars
fold_sidecars-IsIndex [] m i = i
fold_sidecars-IsIndex (file ∷ files) m i = elim (Bool-cases (is_own file)) [
  | inl e ↦ rw e (fold_sidecars-IsIndex files m i)
  | inr e ↦
      rw e (fold_sidecars-IsIndex files (merge_info file.info m) (merge_info-IsIndex file.info m i))
]

build_from_sidecars-IsIndex :
    (volume : Volume) (media : List (String × String)) (version : String) (now : ℕ)
    → IsIndex (build_from_sidecars volume media version now)
unfolding build_from_sidecars new_manifest
build_from_sidecars-IsIndex volume media version now =
    let m = new_manifest media version now in
    let i : IsIndex m = record { names = tt; entries = tt; bundles = tt; newest_first = tt } in
    elim (Bool-cases volume.exists) [
      | inl e ↦ rw e (fold_sidecars-IsIndex volume.sidecars m i)
      | inr e ↦ rw e i
    ]

scan_loaded-IsIndex :
    (loaded : Option Manifest) (volume : Volume) (media : List (String × String)) (version : String)
    (now : ℕ)
    → ((m : Manifest) → loaded ≡ some m → IsIndex m)
    → IsIndex (scan_loaded loaded volume media version now)
scan_loaded-IsIndex none volume media version now h =
    let i = build_from_sidecars-IsIndex volume media version now in
    elim (Bool-cases (is_empty media)) [
      | inl e ↦ rw e i
      | inr e ↦ rw e record {
        names = i.names;
        entries = i.entries;
        bundles = i.bundles;
        newest_first = i.newest_first;
      }
    ]
scan_loaded-IsIndex (some m) volume media version now h =
    let m' = missing_facts media version m in
    let i = h m refl in
    let i' : IsIndex m' = record {
      names = i.names;
      entries = i.entries;
      bundles = i.bundles;
      newest_first = i.newest_first;
    } in
    elim (Bool-cases volume.exists) [
      | inl e ↦ rw e (fold_sidecars-IsIndex volume.sidecars m' i')
      | inr e ↦ rw e i'
    ]

-- The manifest that scan_volume returns is well formed whatever the sidecars of the volume hold, if
-- the index that it loads, when it loads one, is: each dataset stands in it once, each stream of a
-- dataset once with the oldest first, and each configuration bundle once with the newest first.
pub scan_volume-IsIndex :
    (volume : Volume) (media : List (String × String)) (nazman_version : String) (now : ℕ)
    → ((m : Manifest) → load_manifest volume.index ≡ some m → IsIndex m)
    → IsIndex (scan_volume volume media nazman_version now)
unfolding scan_volume
scan_volume-IsIndex volume media nazman_version now loaded =
    scan_loaded-IsIndex (load_manifest volume.index) volume media nazman_version now loaded
