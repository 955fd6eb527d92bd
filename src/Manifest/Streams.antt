-- ===== src/Manifest/Streams.antt =====
-- What an index is for: which stream file of which dataset is recorded, and with what. To this view
-- an index is a map, recording a stream writes to it, and a scan of a volume reads the sidecars in
-- their order, each one over what stands there.
use nazman.Prelude.{
  ℕ, String, Bool, ◌&&◌, Option, none, some, List, [], ◌∷◌, ◌++◌, All, is_some, is_empty,
  option_or_none, find?, update_first, ◌≡◌, refl, sym, ap, ◌∙◌, Bool-cases, Option-cases, inl, inr,
  if◌then◌else◌, arith,
}
use nazman.Prelude.Keyed.{
  has_key, find_key, replace_key, IsKeyed, IsKeyed-replace_key, find_key-sort, find_key-replace_key,
  find_key-append_last, find_key-update_first,
}
use nazman.Manifest.{
  RunEntry, DatasetSpec, DatasetEntry, Manifest, texts, text_eq, text_eq_iff, older_first,
  stream_key, name_key, new_manifest, upsert_config_backup, merge_spec, blank_entry, record_run,
  upsert_dataset_backup, Info, dataset_info, config_info, other_info, SidecarFile, Volume,
  merge_info, is_own, fold_sidecars, load_manifest, build_from_sidecars, missing_facts, scan_loaded,
  scan_volume,
}
use nazman.Manifest.Index.{IsEntry, IsIndex, merge_info-IsIndex}

abbrev pub stream_in : Option String → Option DatasetEntry → Option RunEntry
stream_in file none = none
stream_in file (some d) = find_key texts stream_key file d.backups

-- the stream that an index records under a file of a dataset
abbrev pub stream_of : Option String → Option String → Manifest → Option RunEntry
stream_of name file m = stream_in file (find_key texts name_key name m.datasets)

All-find? :
    (p : DatasetEntry → Bool) (ds : List DatasetEntry) (d : DatasetEntry)
    → All IsEntry ds
    → find? p ds ≡ some d
    → IsEntry d
All-find? p [] d all h = absurd (cc)
All-find? p (d' ∷ ds) d (e, all) h = elim (Bool-cases (p d')) [
  | inl here ↦ let same : d' ≡ d = ground arith in rw (← same) e
  | inr there ↦ All-find? p ds d all (ground arith)
]

record_run_lem :
    (run : RunEntry) (file : Option String) (d : DatasetEntry)
    → IsKeyed texts stream_key d.backups
    → find_key texts stream_key file (record_run run d).backups ≡ (
        if text_eq run.stream_file file then some run else find_key texts stream_key file d.backups)
record_run_lem run file d keyed =
    find_key-sort texts stream_key older_first file (replace_key texts stream_key run d.backups)
      (IsKeyed-replace_key texts stream_key run d.backups keyed)
    ∙ find_key-replace_key texts stream_key run file d.backups

module _ (spec : DatasetSpec) (run : RunEntry) (name file : Option String) (m : Manifest)
    (i : IsIndex m) where
  abbrev written : Option RunEntry
  written =
      if text_eq spec.name name && text_eq run.stream_file file
      then some run
      else stream_of name file m

  stream_of-missing :
      find_key texts name_key spec.name m.datasets ≡ none
      → stream_in file
          (find_key texts name_key name (m.datasets ++ record_run run (blank_entry spec) ∷ []))
        ≡ written
  stream_of-missing missing =
      let fresh = record_run run (blank_entry spec) in
      rw (find_key-append_last texts name_key fresh name m.datasets missing)
        (elim (Bool-cases (text_eq spec.name name)) [
          | inl e ↦
              let same = (text_eq_iff spec.name name).0 e in
              let nothing : find_key texts name_key name m.datasets ≡ none = rw (← same) missing in
              rw (e, nothing) (record_run_lem run file (blank_entry spec) tt)
          | inr e ↦ rw e refl
        ])

  stream_of-found :
      (d : DatasetEntry)
      → find_key texts name_key spec.name m.datasets ≡ some d
      → stream_in file (
          find_key texts name_key name (
            update_first
              (has_key texts name_key spec.name)
              (λ d. record_run run (merge_spec spec d))
              m.datasets))
        ≡ written
  stream_of-found d found =
      rw
        (find_key-update_first texts name_key spec.name (λ d. record_run run (merge_spec spec d))
          (λ d. refl) name m.datasets)
        (elim (Bool-cases (text_eq spec.name name)) [
          | inl e ↦
              let same = (text_eq_iff spec.name name).0 e in
              let there : find_key texts name_key name m.datasets ≡ some d = rw (← same) found in
              rw (e, there)
                (record_run_lem run file (merge_spec spec d)
                  (All-find? (has_key texts name_key spec.name) m.datasets d i.entries found).keyed)
          | inr e ↦ rw e refl
        ])

  -- Recording a stream writes it under its dataset and its file, and touches no other stream.
  pub stream_of-upsert_dataset_backup :
      stream_of name file (upsert_dataset_backup spec run m) ≡ written
  unfolding upsert_dataset_backup
  stream_of-upsert_dataset_backup =
      elim (Option-cases (find_key texts name_key spec.name m.datasets)) [
        | inl missing ↦ rw missing (stream_of-missing missing)
        | inr (d, found) ↦ rw found (stream_of-found d found)
      ]

abbrev pub or_else : Option RunEntry → Option RunEntry → Option RunEntry
or_else none old = old
or_else (some run) old = some run

-- what a sidecar says of a file of a dataset, if it names both
abbrev pub recorded_by : Option String → Option String → Option Info → Option RunEntry
recorded_by name file none = none
recorded_by name file (some (dataset_info spec run)) =
    if is_some (option_or_none spec.name) && is_some (option_or_none run.stream_file)
    then if text_eq spec.name name && text_eq run.stream_file file then some run else none
    else none
recorded_by name file (some (config_info entry)) = none
recorded_by name file (some other_info) = none

-- what the last sidecar that speaks of the file says
abbrev pub last_recorded : Option String → Option String → List SidecarFile → Option RunEntry
last_recorded name file [] = none
last_recorded name file (s ∷ rest) =
    or_else (last_recorded name file rest) (if is_own s then none else recorded_by name file s.info)

abbrev pub stream_of_loaded : Option String → Option String → Option Manifest → Option RunEntry
stream_of_loaded name file none = none
stream_of_loaded name file (some m) = stream_of name file m

pub or_else-none : (a : Option RunEntry) → or_else a none ≡ a
or_else-none none = refl
or_else-none (some r) = refl

pub or_else_assoc : (a b c : Option RunEntry) → or_else (or_else a b) c ≡ or_else a (or_else b c)
or_else_assoc none b c = refl
or_else_assoc (some r) b c = refl

module _ (name file : Option String) where
  stream_of-merge_info :
      (info : Option Info) (m : Manifest)
      → IsIndex m
      → stream_of name file (merge_info info m)
        ≡ or_else (recorded_by name file info) (stream_of name file m)
  unfolding upsert_config_backup
  stream_of-merge_info none m i = refl
  stream_of-merge_info (some (dataset_info spec run)) m i =
      elim (Bool-cases
        (is_some (option_or_none spec.name) && is_some (option_or_none run.stream_file))) [
          | inl e ↦ rw e (
              stream_of-upsert_dataset_backup spec run name file m i
              ∙ elim (Bool-cases (text_eq spec.name name && text_eq run.stream_file file)) [
                | inl here ↦ rw here refl
                | inr elsewhere ↦ rw elsewhere refl
              ])
          | inr e ↦ rw e refl
        ]
  stream_of-merge_info (some (config_info entry)) m i =
      elim (Bool-cases (is_some (option_or_none entry.id))) [
        | inl e ↦ rw e refl
        | inr e ↦ rw e refl
      ]
  stream_of-merge_info (some other_info) m i = refl

  stream_of-fold_sidecars :
      (files : List SidecarFile) (m : Manifest)
      → IsIndex m
      → stream_of name file (fold_sidecars files m)
        ≡ or_else (last_recorded name file files) (stream_of name file m)
  unfolding fold_sidecars
  stream_of-fold_sidecars [] m i = refl
  stream_of-fold_sidecars (s ∷ rest) m i = elim (Bool-cases (is_own s)) [
    | inl own ↦
        rw (own, fold_sidecars)
          (stream_of-fold_sidecars rest m i
            ∙ sym (or_else_assoc (last_recorded name file rest) none (stream_of name file m)))
    | inr other ↦
        rw (other, fold_sidecars)
          (stream_of-fold_sidecars rest (merge_info s.info m) (merge_info-IsIndex s.info m i)
            ∙ ap (or_else (last_recorded name file rest)) (stream_of-merge_info s.info m i)
            ∙ sym (
                or_else_assoc (last_recorded name file rest) (recorded_by name file s.info)
                  (stream_of name file m)))
  ]

  stream_of-built :
      (volume : Volume) (media : List (String × String)) (version : String) (now : ℕ)
      → stream_of name file (build_from_sidecars volume media version now)
        ≡ or_else (if volume.exists then last_recorded name file volume.sidecars else none) none
  unfolding build_from_sidecars new_manifest
  stream_of-built volume media version now =
      let folded =
        stream_of-fold_sidecars volume.sidecars (new_manifest media version now)
          (record { names = tt; entries = tt; bundles = tt; newest_first = tt }) in
      elim (Bool-cases volume.exists) [ inl e ↦ rw e folded | inr e ↦ rw e refl ]

  stream_of-scan_loaded :
      (loaded : Option Manifest) (volume : Volume) (media : List (String × String))
      (version : String) (now : ℕ)
      → ((m : Manifest) → loaded ≡ some m → IsIndex m)
      → stream_of name file (scan_loaded loaded volume media version now)
        ≡ or_else
            (if volume.exists then last_recorded name file volume.sidecars else none)
            (stream_of_loaded name file loaded)
  stream_of-scan_loaded none volume media version now h = elim (Bool-cases (is_empty media)) [
    | inl same ↦ rw (same) (stream_of-built volume media version now)
    | inr given ↦ rw (given) (stream_of-built volume media version now)
  ]
  stream_of-scan_loaded (some m) volume media version now h =
      let m' = missing_facts media version m in
      let i = h m refl in
      let folded = stream_of-fold_sidecars volume.sidecars m' (record {
        names = i.names;
        entries = i.entries;
        bundles = i.bundles;
        newest_first = i.newest_first;
      }) in
      elim (Bool-cases volume.exists) [ inl e ↦ rw e folded | inr e ↦ rw e refl ]

  -- A scan of a volume records under each file of each dataset what the last sidecar that names both
  -- says of it, in the order of the paths, and what the loaded index says where no sidecar does,
  -- provided that an index that is loaded is well formed. The sidecars of a volume whose root does
  -- not exist are not read.
  pub scan_volume_lem :
      (volume : Volume) (media : List (String × String)) (nazman_version : String) (now : ℕ)
      → ((m : Manifest) → load_manifest volume.index ≡ some m → IsIndex m)
      → stream_of name file (scan_volume volume media nazman_version now)
        ≡ or_else
            (if volume.exists then last_recorded name file volume.sidecars else none)
            (stream_of_loaded name file (load_manifest volume.index))
  unfolding scan_volume
  scan_volume_lem volume media nazman_version now loaded =
      stream_of-scan_loaded (load_manifest volume.index) volume media nazman_version now loaded
