-- ===== src/Restore/Merge/Contents.antt =====
-- A merged manifest holds what its volumes hold, the later volume before the earlier.
use nazman.Prelude.{
  String, Bool, Option, none, some, List, [], ◌∷◌, ◌++◌, map, All, update_first, of_found, find?,
  ◌≡◌, refl, sym, ap, ◌∙◌, Bool-cases, Option-cases, inl, inr, if◌then◌else◌, arith,
}
use nazman.Prelude.Order.{sort-IsSorted}
use nazman.Prelude.Keyed.{
  has_key, find_key, replace_key, IsKeyed, IsKeyed-sort, IsKeyed-replace_key, IsKeyed-append_last,
  IsKeyed-update_first, find_key-sort, find_key-replace_key, find_key-append_last,
  find_key-update_first, same_self,
}
use nazman.Manifest.{
  RunEntry, DatasetEntry, Manifest, texts, text_eq, text_eq_iff, older_first, stream_key, name_key,
  merge_spec, blank_entry,
}
use nazman.Manifest.Index.{IsEntry, IsIndex}
use nazman.Manifest.Streams.{stream_in, stream_of, or_else, or_else_assoc, or_else-none}
use nazman.Restore.Merge.{
  spec_of, add_runs, with_runs, merge_dataset, merge_datasets, merge_one, merge_all, empty_manifest,
  sort_runs, merge_manifests,
}

abbrev Held : DatasetEntry → Type 0
Held d = IsKeyed texts stream_key d.backups

abbrev stream_at : Option String → Option String → List DatasetEntry → Option RunEntry
stream_at name file ds = stream_in file (find_key texts name_key name ds)

find_key-add_runs :
    (file : Option String) (runs old : List RunEntry)
    → IsKeyed texts stream_key runs
    → find_key texts stream_key file (add_runs runs old)
      ≡ or_else (find_key texts stream_key file runs) (find_key texts stream_key file old)
find_key-add_runs file [] old k = refl
find_key-add_runs file (run ∷ rest) old (h, k) =
    find_key-add_runs file rest (replace_key texts stream_key run old) k
    ∙ ap (or_else (find_key texts stream_key file rest))
        (find_key-replace_key texts stream_key run file old)
    ∙ elim (Bool-cases (text_eq run.stream_file file)) [
      | inl e ↦
          let same = (text_eq_iff run.stream_file file).0 e in
          let only : find_key texts stream_key file rest ≡ none = rw (← same) h in rw (e, only) refl
      | inr e ↦ rw e refl
    ]

IsKeyed-add_runs :
    (runs old : List RunEntry)
    → IsKeyed texts stream_key old
    → IsKeyed texts stream_key (add_runs runs old)
IsKeyed-add_runs [] old k = k
IsKeyed-add_runs (run ∷ rest) old k =
    IsKeyed-add_runs rest (replace_key texts stream_key run old)
      (IsKeyed-replace_key texts stream_key run old k)

All-found :
    (p : DatasetEntry → Bool) (ds : List DatasetEntry) (d : DatasetEntry)
    → All Held ds
    → find? p ds ≡ some d
    → Held d
All-found p [] d all h = absurd (cc)
All-found p (d' ∷ ds) d (e, all) h = elim (Bool-cases (p d')) [
  | inl here ↦ let same : d' ≡ d = ground arith in rw (← same) e
  | inr there ↦ All-found p ds d all (ground arith)
]

All-changed :
    (p : DatasetEntry → Bool) (f : DatasetEntry → DatasetEntry)
    → ((d : DatasetEntry) → Held d → Held (f d))
    → (ds : List DatasetEntry) → All Held ds
    → All Held (update_first p f ds)
All-changed p f keeps [] all = tt
All-changed p f keeps (d ∷ ds) (e, all) = elim (Bool-cases (p d)) [
  | inl h ↦ rw h (keeps d e, all)
  | inr h ↦ rw h (e, All-changed p f keeps ds all)
]

All-added :
    (d : DatasetEntry) (ds : List DatasetEntry) → Held d → All Held ds → All Held (ds ++ d ∷ [])
All-added d [] e all = (e, tt)
All-added d (d' ∷ ds) e (e', all) = (e', All-added d ds e all)

-- no dataset twice, and no stream of a dataset twice
record IsLoose (ds : List DatasetEntry) : Type 0 where
  names : IsKeyed texts name_key ds
  streams : All Held ds

module _ (d : DatasetEntry) (keyed : Held d) where
  abbrev change : DatasetEntry → DatasetEntry
  change t = with_runs d.backups (merge_spec (spec_of d) t)

  change-IsLoose :
      (ds : List DatasetEntry)
      → IsLoose ds
      → IsLoose (update_first (has_key texts name_key d.name) change ds)
  change-IsLoose ds l = record {
    names = IsKeyed-update_first texts name_key d.name change (λ t. refl) ds l.names;
    streams =
        All-changed (has_key texts name_key d.name) change
          (λ t h. IsKeyed-add_runs d.backups t.backups h) ds l.streams;
  }

  -- on targets that hold the name already
  stream_at-change :
      (name file : Option String) (ds : List DatasetEntry) (t : DatasetEntry)
      → IsLoose ds
      → find_key texts name_key d.name ds ≡ some t
      → stream_at name file (update_first (has_key texts name_key d.name) change ds)
        ≡ or_else
            (if text_eq d.name name then find_key texts stream_key file d.backups else none)
            (stream_at name file ds)
  stream_at-change name file ds t l found =
      rw (find_key-update_first texts name_key d.name change (λ t. refl) name ds)
        (elim (Bool-cases (text_eq d.name name)) [
          | inl e ↦
              let same = (text_eq_iff d.name name).0 e in
              let there : find_key texts name_key name ds ≡ some t = rw (← same) found in
              rw (e, there) (find_key-add_runs file d.backups t.backups keyed)
          | inr e ↦ rw e refl
        ])

  stream_at-blank :
      (name file : Option String) (ds : List DatasetEntry)
      → find_key texts name_key d.name ds ≡ none
      → stream_at name file (ds ++ blank_entry (spec_of d) ∷ []) ≡ stream_at name file ds
  stream_at-blank name file ds missing =
      rw (find_key-append_last texts name_key (blank_entry (spec_of d)) name ds missing)
        (elim (Bool-cases (text_eq d.name name)) [
          | inl e ↦
              let same = (text_eq_iff d.name name).0 e in
              let nothing : find_key texts name_key name ds ≡ none = rw (← same) missing in
              rw (e, nothing) refl
          | inr e ↦ rw e refl
        ])

  merge_dataset-IsLoose : (ds : List DatasetEntry) → IsLoose ds → IsLoose (merge_dataset d ds)
  unfolding merge_dataset
  merge_dataset-IsLoose ds l = elim (Option-cases (find_key texts name_key d.name ds)) [
    | inl missing ↦ rw missing (
        change-IsLoose (ds ++ blank_entry (spec_of d) ∷ []) record {
          names = IsKeyed-append_last texts name_key (blank_entry (spec_of d)) ds missing l.names;
          streams = All-added (blank_entry (spec_of d)) ds tt l.streams;
        })
    | inr (t, found) ↦ rw found (change-IsLoose ds l)
  ]

  stream_at-merge_dataset :
      (name file : Option String) (ds : List DatasetEntry)
      → IsLoose ds
      → stream_at name file (merge_dataset d ds)
        ≡ or_else
            (if text_eq d.name name then find_key texts stream_key file d.backups else none)
            (stream_at name file ds)
  unfolding merge_dataset
  stream_at-merge_dataset name file ds l = elim (Option-cases (find_key texts name_key d.name ds)) [
    | inl missing ↦
        let blank = blank_entry (spec_of d) in
        rw missing (
          stream_at-change name file (ds ++ blank ∷ []) blank
            record {
              names = IsKeyed-append_last texts name_key blank ds missing l.names;
              streams = All-added blank ds tt l.streams;
            }
            (find_key-append_last texts name_key blank d.name ds missing
              ∙ rw (same_self texts name_key d.name) refl)
          ∙ ap
              (or_else
                (if text_eq d.name name then find_key texts stream_key file d.backups else none))
              (stream_at-blank name file ds missing))
    | inr (t, found) ↦ rw found (stream_at-change name file ds t l found)
  ]

merge_datasets-IsLoose :
    (ds merged : List DatasetEntry)
    → All Held ds
    → IsLoose merged
    → IsLoose (merge_datasets ds merged)
unfolding merge_datasets
merge_datasets-IsLoose [] merged all l = l
merge_datasets-IsLoose (d ∷ ds) merged (h, all) l =
    merge_datasets-IsLoose ds (merge_dataset d merged) all (merge_dataset-IsLoose d h merged l)

stream_at-merge_datasets :
    (name file : Option String) (ds merged : List DatasetEntry)
    → IsKeyed texts name_key ds
    → All Held ds
    → IsLoose merged
    → stream_at name file (merge_datasets ds merged)
      ≡ or_else (stream_at name file ds) (stream_at name file merged)
unfolding merge_datasets
stream_at-merge_datasets name file [] merged k all l = refl
stream_at-merge_datasets name file (d ∷ ds) merged (h, k) (held, all) l =
    stream_at-merge_datasets name file ds (merge_dataset d merged) k all
      (merge_dataset-IsLoose d held merged l)
    ∙ ap (or_else (stream_at name file ds)) (stream_at-merge_dataset d held name file merged l)
    ∙ elim (Bool-cases (text_eq d.name name)) [
      | inl e ↦
          let same = (text_eq_iff d.name name).0 e in
          let only : find_key texts name_key name ds ≡ none = rw (← same) h in rw (e, only) refl
      | inr e ↦ rw e refl
    ]

IsIndex-Held : (ds : List DatasetEntry) → All IsEntry ds → All Held ds
IsIndex-Held [] all = tt
IsIndex-Held (d ∷ ds) (e, all) = (e.keyed, IsIndex-Held ds all)

-- what the last of the manifests that holds the file says of it
abbrev pub last_held : Option String → Option String → List Manifest → Option RunEntry
last_held name file [] = none
last_held name file (m ∷ ms) = or_else (last_held name file ms) (stream_of name file m)

merge_all_lem :
    (name file : Option String) (ms : List Manifest) (merged : Manifest)
    → All IsIndex ms
    → IsLoose merged.datasets
    → IsLoose (merge_all ms merged).datasets
      × (stream_of name file (merge_all ms merged)
          ≡ or_else (last_held name file ms) (stream_of name file merged))
unfolding merge_all merge_one
merge_all_lem name file [] merged all l = (l, refl)
merge_all_lem name file (m ∷ ms) merged (i, all) l =
    let held = IsIndex-Held m.datasets i.entries in
    let (loose, rest) =
      merge_all_lem name file ms (merge_one m merged) all
        (merge_datasets-IsLoose m.datasets merged.datasets held l) in
    (
      loose,
      rest
          ∙ ap (or_else (last_held name file ms))
              (stream_at-merge_datasets name file m.datasets merged.datasets i.names held l)
          ∙ sym (
              or_else_assoc (last_held name file ms) (stream_of name file m)
                (stream_of name file merged)),
    )

sorted_entries : (ds : List DatasetEntry) → All Held ds → All IsEntry (map sort_runs ds)
sorted_entries [] all = tt
sorted_entries (d ∷ ds) (h, all) = (
  record {
    keyed = IsKeyed-sort texts stream_key older_first d.backups h;
    sorted =
        sort-IsSorted older_first (λ r s h. ground arith) (λ r s t h k. ground arith) d.backups;
  },
  sorted_entries ds all,
)

find_key-sort_runs :
    (name : Option String) (ds : List DatasetEntry)
    → find_key texts name_key name (map sort_runs ds)
      ≡ of_found sort_runs (find_key texts name_key name ds)
find_key-sort_runs name [] = refl
find_key-sort_runs name (d ∷ ds) = elim (Bool-cases (text_eq d.name name)) [
  | inl e ↦ rw e refl
  | inr e ↦ rw e (find_key-sort_runs name ds)
]

sorted_names :
    (ds : List DatasetEntry) → IsKeyed texts name_key ds → IsKeyed texts name_key (map sort_runs ds)
sorted_names [] k = tt
sorted_names (d ∷ ds) (h, k) = (find_key-sort_runs d.name ds ∙ rw h refl, sorted_names ds k)

stream_at-sort_runs :
    (name file : Option String) (ds : List DatasetEntry)
    → All Held ds
    → stream_at name file (map sort_runs ds) ≡ stream_at name file ds
stream_at-sort_runs name file ds all =
    rw (find_key-sort_runs name ds) (elim (Option-cases (find_key texts name_key name ds)) [
      | inl missing ↦ rw missing refl
      | inr (d, found) ↦ rw found (
          find_key-sort texts stream_key older_first file d.backups
            (All-found (has_key texts name_key name) ds d all found))
    ])

-- The manifest merged from well formed manifests records under each file of each dataset what the
-- last of them that holds the file says of it, and nothing else; each dataset stands in it once, and
-- each stream of a dataset once with the oldest first.
pub merge_manifests_lem :
    (name file : Option String) (manifests : List Manifest)
    → All IsIndex manifests
    → (stream_of name file (merge_manifests manifests) ≡ last_held name file manifests)
      × IsKeyed texts name_key (merge_manifests manifests).datasets
      × All IsEntry (merge_manifests manifests).datasets
unfolding merge_manifests
merge_manifests_lem name file manifests all =
    let (loose, contents) =
      merge_all_lem name file manifests empty_manifest all record { names = tt; streams = tt } in
    let ds = (merge_all manifests empty_manifest).datasets in
    (
      stream_at-sort_runs name file ds loose.streams
          ∙ contents
          ∙ or_else-none (last_held name file manifests),
      sorted_names ds loose.names,
      sorted_entries ds loose.streams,
    )
