-- ===== src/ZfsBackup/Recording/Scanned.antt =====
-- What a later scan of the volume finds of a stream that was recorded.
use nazman.Prelude.{
  ℕ, String, true, false, ◌&&◌, Option, some, List, All, is_some, option_or_none, ◌≡◌, refl, sym,
  ap, subst, ◌∙◌, if◌then◌else◌, str_eq,
}
use nazman.BackupGroup.Rows.{Db}
use nazman.Manifest.{
  Manifest, Volume, text_eq, parsed, load_manifest, is_supported, upsert_dataset_backup,
  scan_volume, save_manifest, sidecar_path, write_sidecar,
}
use nazman.Manifest.Index.{IsIndex, scan_volume-IsIndex, upsert_dataset_backup-IsIndex}
use nazman.Manifest.Streams.{
  last_recorded, stream_of, stream_of_loaded, stream_of-upsert_dataset_backup, scan_volume_lem,
}
use nazman.Manifest.Sidecars.{is_beside, last_recorded-write}
use nazman.ZfsBackup.Recording.{
  Written, Around, text_or_empty, beside_stream, run_entry, dataset_spec, with_pools,
  recorded_manifest, record_manifest,
}
use nazman.ZfsBackup.Recording.Saved.{
  scan_volume-supported, with_group_ind, with_pools_ind, same_choice, some_inj, settled,
}

module _ (db : Db) (around : Around) (run : Written) (volume : Volume)
    (loaded : (m : Manifest) → load_manifest volume.index ≡ some m → IsIndex m) where
  abbrev scanned : Manifest
  scanned = scan_volume volume around.media around.nazman_version around.now

  pooled-IsIndex : IsIndex (with_pools around.pools scanned)
  pooled-IsIndex = with_pools_ind IsIndex around.pools scanned (λ ps.
      let j = scan_volume-IsIndex volume around.media around.nazman_version around.now loaded in
      record {
        names = j.names;
        entries = j.entries;
        bundles = j.bundles;
        newest_first = j.newest_first;
      })

  recorded-IsIndex : IsIndex (recorded_manifest db around run volume)
  unfolding recorded_manifest
  recorded-IsIndex = with_group_ind IsIndex db run.group_id _ (λ g.
      let i =
        upsert_dataset_backup-IsIndex (dataset_spec around run) (run_entry db around run)
          (with_pools around.pools scanned) pooled-IsIndex in
      record {
        names = i.names;
        entries = i.entries;
        bundles = i.bundles;
        newest_first = i.newest_first;
      })

  recorded-supported : is_supported (recorded_manifest db around run volume) ≡ true
  unfolding recorded_manifest upsert_dataset_backup
  recorded-supported =
      with_group_ind (λ m. is_supported m ≡ true) db run.group_id _
        (λ g.
          with_pools_ind (λ m. is_supported m ≡ true) around.pools scanned
            (λ ps. scan_volume-supported volume around.media around.nazman_version around.now))

  module _ (name : Option String) (file : String) where
    stream_of-recorded :
        (stream : String)
        → run.stream_file ≡ some stream
        → stream_of name (some file) (recorded_manifest db around run volume) ≡ (
            if text_eq (dataset_spec around run).name name && str_eq stream file
            then some (run_entry db around run)
            else stream_of name (some file) scanned)
    unfolding recorded_manifest run_entry
    stream_of-recorded stream at =
        with_group_ind
          (λ m. stream_of name (some file) m ≡ (
            if text_eq (dataset_spec around run).name name && str_eq stream file
            then some (run_entry db around run)
            else stream_of name (some file) scanned))
          db run.group_id
          (upsert_dataset_backup (dataset_spec around run) (run_entry db around run)
            (with_pools around.pools scanned))
          (λ g.
            stream_of-upsert_dataset_backup (dataset_spec around run) (run_entry db around run) name
              (some file) (with_pools around.pools scanned) pooled-IsIndex
            ∙ same_choice (text_eq (dataset_spec around run).name name) (run_entry db around run)
                (ap (λ o. str_eq (text_or_empty o) file) at)
                (with_pools_ind
                  (λ m. stream_of name (some file) m ≡ stream_of name (some file) scanned)
                  around.pools scanned (λ ps. refl)))

    abbrev saved : Manifest
    saved = record (recorded_manifest db around run volume) { updated_at = some around.now }

    load-saved : load_manifest (parsed saved) ≡ some saved
    load-saved = rw recorded-supported refl

    abbrev written : String → String → Volume
    written stream base =
        write_sidecar around.path_before (beside_stream db around run stream base)
          (save_manifest around.now (recorded_manifest db around run volume) volume)

    record_manifest-written :
        (stream base : String)
        → run.stream_file ≡ some stream
        → str_eq stream "" ≡ false
        → around.can_write "nazman-backup.json" ≡ true
        → around.can_write (sidecar_path stream) ≡ true
        → record_manifest db around run base volume ≡ written stream base
    unfolding record_manifest
    record_manifest-written stream base at given index sidecar = rw (index, at, given, sidecar) refl

    stream_of-written :
        (stream base : String) (media : List (String × String)) (version : String) (now : ℕ)
        → volume.exists ≡ true
        → All (λ s. is_beside s ≡ true) volume.sidecars
        → run.stream_file ≡ some stream
        → is_some (option_or_none (dataset_spec around run).name)
            && is_some (option_or_none (some stream))
          ≡ true
        → str_eq base "nazman-backup.json.info.json" ≡ false
        → stream_of name (some file) (scan_volume (written stream base) media version now) ≡ (
            if text_eq (dataset_spec around run).name name && str_eq stream file
            then some (run_entry db around run)
            else stream_of name (some file) scanned)
    unfolding save_manifest write_sidecar run_entry
    stream_of-written stream base media version now exists beside at named own =
        let before =
          scan_volume_lem name (some file) volume around.media around.nazman_version around.now
            loaded in
        scan_volume_lem name (some file) (written stream base) media version now (λ m h.
          let same : saved ≡ m = some_inj (sym load-saved ∙ h) in
          let i = recorded-IsIndex in
          subst IsIndex same (record {
            names = i.names;
            entries = i.entries;
            bundles = i.bundles;
            newest_first = i.newest_first;
          }))
        ∙ rw
            (
              last_recorded-write name file (λ a b. around.path_before a.path b.path) stream base
                  (dataset_spec around run) (run_entry db around run) volume.sidecars beside
                  (ap (λ o. some (text_or_empty o)) at) named own,
              load-saved,
              stream_of-recorded stream at,
            )
            (settled (text_eq (dataset_spec around run).name name && str_eq stream file)
              (str_eq stream file) (run_entry db around run)
              (last_recorded name (some file) volume.sidecars)
              (stream_of_loaded name (some file) (load_manifest volume.index))
              (stream_of name (some file) scanned) (before ∙ rw exists refl))

    -- A stream that was recorded on a volume whose root exists, with its index and its sidecar
    -- written, is found by every later scan of the volume under its dataset and its file, and what
    -- the scan before it found of the other streams is still found. This is so if neither the name
    -- of the dataset nor that of the file is empty, the index that is loaded is well formed, each
    -- sidecar of a stream stands beside it, and the new sidecar is not named like that of the
    -- index.
    pub record_manifest_lem :
        (stream base : String) (media : List (String × String)) (version : String) (now : ℕ)
        → volume.exists ≡ true
        → All (λ s. is_beside s ≡ true) volume.sidecars
        → run.stream_file ≡ some stream
        → str_eq stream "" ≡ false
        → is_some (option_or_none (dataset_spec around run).name) ≡ true
        → str_eq base "nazman-backup.json.info.json" ≡ false
        → around.can_write "nazman-backup.json" ≡ true
        → around.can_write (sidecar_path stream) ≡ true
        → stream_of name
            (some file)
            (scan_volume (record_manifest db around run base volume) media version now)
          ≡ (if text_eq (dataset_spec around run).name name && str_eq stream file
              then some (run_entry db around run)
              else stream_of name (some file) scanned)
    record_manifest_lem stream base media version now exists beside at given named own index
          sidecar =
        ap (λ v. stream_of name (some file) (scan_volume v media version now))
          (record_manifest-written stream base at given index sidecar)
        ∙ stream_of-written stream base media version now exists beside at (rw (named, given) refl)
            own
