-- ===== src/ZfsBackup/Recording/Saved.antt =====
-- An index that was scanned can be loaded again, and what is added to it leaves the rest as it is.
use nazman.Prelude.{
  ℕ, String, Bool, true, false, ◌&&◌, Option, none, some, List, [], ◌∷◌, is_some, is_empty,
  option_or_none, ◌≡◌, refl, sym, ap, ◌∙◌, Bool-cases, Option-cases, inl, inr, if◌then◌else◌, arith,
  find?, holds, ◌==◌,
}
use nazman.BackupGroup.Rows.{Db}
use nazman.Manifest.{
  RunEntry, Manifest, Volume, SidecarFile, Info, dataset_info, config_info, other_info, IndexFile,
  absent, unreadable, parsed, PoolEntry, missing_facts, load_manifest, is_supported, is_own,
  merge_info, upsert_dataset_backup, upsert_config_backup, merge_pools, fold_sidecars,
  build_from_sidecars, new_manifest, scan_loaded, scan_volume,
}
use nazman.Manifest.Streams.{or_else}
use nazman.ZfsBackup.Recording.{with_pools, with_group}

fold_sidecars-version :
    (files : List SidecarFile) (m : Manifest)
    → (fold_sidecars files m).manifest_version ≡ m.manifest_version
unfolding fold_sidecars upsert_dataset_backup upsert_config_backup
fold_sidecars-version [] m = refl
fold_sidecars-version (s ∷ rest) m = elim (Bool-cases (is_own s)) [
  | inl own ↦ rw (own, fold_sidecars) (fold_sidecars-version rest m)
  | inr other ↦
      rw (other, fold_sidecars) (fold_sidecars-version rest (merge_info s.info m) ∙ merged s.info)
]
  where
    merged : (i : Option Info) → (merge_info i m).manifest_version ≡ m.manifest_version
    merged none = refl
    merged (some (dataset_info spec run)) =
        elim (Bool-cases
          (is_some (option_or_none spec.name) && is_some (option_or_none run.stream_file))) [
            | inl e ↦ rw e refl
            | inr e ↦ rw e refl
          ]
    merged (some (config_info entry)) = elim (Bool-cases (is_some (option_or_none entry.id))) [
      | inl e ↦ rw e refl
      | inr e ↦ rw e refl
    ]
    merged (some other_info) = refl

loaded_supported :
    (index : IndexFile) (m : Manifest) → load_manifest index ≡ some m → is_supported m ≡ true
loaded_supported absent m h = absurd (cc)
loaded_supported unreadable m h = absurd (cc)
loaded_supported (parsed m') m h = elim (Bool-cases (is_supported m')) [
  | inl e ↦ let same : m' ≡ m = ground arith in rw (← same) e
  | inr e ↦ absurd (ground arith)
]

built_version :
    (volume : Volume) (media : List (String × String)) (version : String) (now : ℕ)
    → (build_from_sidecars volume media version now).manifest_version ≡ some 1
unfolding build_from_sidecars new_manifest
built_version volume media version now = elim (Bool-cases volume.exists) [
  | inl e ↦ rw e (fold_sidecars-version volume.sidecars (new_manifest media version now))
  | inr e ↦ rw e refl
]

-- A scan answers an index that a later load accepts.
pub scan_volume-supported :
    (volume : Volume) (media : List (String × String)) (version : String) (now : ℕ)
    → is_supported (scan_volume volume media version now) ≡ true
unfolding scan_volume
scan_volume-supported volume media version now = go (load_manifest volume.index) refl
  where
    go :
        (o : Option Manifest)
        → load_manifest volume.index ≡ o
        → is_supported (scan_loaded o volume media version now) ≡ true
    go none h =
        let kept : (scan_loaded none volume media version now).manifest_version ≡ some 1 =
          elim (Bool-cases (is_empty media)) [
            | inl e ↦ rw e (built_version volume media version now)
            | inr e ↦ rw e (built_version volume media version now)
          ] in
        ap (λ v. holds v 1) kept
    go (some m) h = elim (Bool-cases volume.exists) [
      | inl e ↦ rw e (
          ap (λ v. holds v 1)
            (fold_sidecars-version volume.sidecars (missing_facts media version m))
          ∙ loaded_supported volume.index m h)
      | inr e ↦ rw e (loaded_supported volume.index m h)
    ]

-- The pools and the name of the group leave the rest of an index as it is.
pub with_group_ind :
    (P : Manifest → Type 0) (db : Db) (group_id : Option ℕ) (m : Manifest)
    → ((name : Option String) → P (record m { group = name }))
    → P (with_group db group_id m)
with_group_ind P db none m each = each m.group
with_group_ind P db (some group_id) m each =
    elim (Option-cases (find? (λ g. g.id == group_id) db.groups)) [
      | inl missing ↦ rw (missing, with_group) (each m.group)
      | inr (g, found) ↦ rw (found, with_group) (each (some g.name))
    ]

pub with_pools_ind :
    (P : Manifest → Type 0) (pools : Option (List PoolEntry)) (m : Manifest)
    → ((ps : List PoolEntry) → P (record m { pools = ps }))
    → P (with_pools pools m)
unfolding merge_pools
with_pools_ind P none m each = each m.pools
with_pools_ind P (some ps) m each = each ps

pub same_choice :
    (t : Bool) {c c' : Bool} (e : RunEntry) {x x' : Option RunEntry}
    → c ≡ c'
    → x ≡ x'
    → (if t && c then some e else x) ≡ (if t && c' then some e else x')
same_choice t e h k = rw (h, k) refl

pub some_inj : {m m' : Manifest} → ◌≡◌ {A = Option Manifest} (some m) (some m') → m ≡ m'
some_inj h = cc

pub settled :
    (c b : Bool) (e : RunEntry) (l i x : Option RunEntry)
    → x ≡ or_else l i
    → or_else
        (or_else (if c then some e else none) (if b then none else l))
        (if c then some e else x)
      ≡ (if c then some e else x)
settled true b e l i x h = refl
settled false true e l i x h = refl
settled false false e none i x h = refl
settled false false e (some r) i x h = sym h
