-- ===== src/Manifest/Sidecars.antt =====
-- The file beside a stream, when it is written: it speaks of its own stream, and the others of theirs.
use nazman.Prelude.{
  String, Bool, true, false, not, ◌&&◌, Option, none, some, List, [], ◌∷◌, All, is_some,
  option_or_none, select, ◌≡◌, refl, sym, ap, subst, ◌∙◌, Bool-cases, ◌⊎◌, inl, inr, if◌then◌else◌,
  arith, str_eq, str_eq_iff,
}
use nazman.Prelude.Order.{insert}
use text.Mathlib.TextLemmas.{append_cancel_right}
use nazman.Manifest.{
  RunEntry, DatasetSpec, Info, dataset_info, config_info, other_info, SidecarFile, is_own, text_eq,
  text_eq_iff, sidecar_path,
}
use nazman.Manifest.Streams.{or_else, recorded_by, last_recorded, or_else_assoc, or_else-none}

abbrev pub stands_beside : String → Option String → Bool
stands_beside path none = true
stands_beside path (some file) = str_eq path (sidecar_path file)

or_else-none_left : (a b : Option RunEntry) → or_else a b ≡ none → a ≡ none
or_else-none_left none b h = refl
or_else-none_left (some r) b h = absurd (cc)

or_else-swap : (r a : Option RunEntry) → (r ≡ none) ⊎ (a ≡ none) → or_else a r ≡ or_else r a
or_else-swap none a either = or_else-none a
or_else-swap (some r) none either = refl
or_else-swap (some r) (some q) either = absurd (elim either [ inl h ↦ cc | inr h ↦ cc ])

abbrev pub beside : String → Option Info → Bool
beside path none = true
beside path (some (dataset_info spec run)) = stands_beside path run.stream_file
beside path (some (config_info entry)) = true
beside path (some other_info) = true

-- a sidecar of a stream stands beside the stream
abbrev pub is_beside : SidecarFile → Bool
is_beside s = beside s.path s.info

module _ (name : Option String) (file : String) where
  -- A sidecar at another path says nothing of the file.
  recorded_by-elsewhere :
      (path : String) (info : Option Info)
      → beside path info ≡ true
      → str_eq path (sidecar_path file) ≡ false
      → recorded_by name (some file) info ≡ none
  recorded_by-elsewhere path none is apart = refl
  recorded_by-elsewhere path (some (config_info entry)) is apart = refl
  recorded_by-elsewhere path (some other_info) is apart = refl
  recorded_by-elsewhere path (some (dataset_info spec run)) is apart =
      elim (Bool-cases (text_eq run.stream_file (some file))) [
        | inl same ↦
            let here =
              subst (λ f. stands_beside path f ≡ true)
                ((text_eq_iff run.stream_file (some file)).0 same) is in
            absurd (cc)
        | inr other ↦ ground arith
      ]

  last_recorded-others :
      (files : List SidecarFile)
      → All (λ s. is_beside s ≡ true) files
      → last_recorded name (some file) (select (λ s. not (str_eq s.path (sidecar_path file))) files)
        ≡ none
  last_recorded-others [] all = refl
  last_recorded-others (s ∷ rest) (is, all) =
      elim (Bool-cases (str_eq s.path (sidecar_path file))) [
        | inl e ↦ rw e (last_recorded-others rest all)
        | inr e ↦ elim (Bool-cases (is_own s)) [
          | inl own ↦ rw (e, own, last_recorded-others rest all) refl
          | inr other ↦
              rw (e, other, last_recorded-others rest all)
                (recorded_by-elsewhere s.path s.info is e)
        ]
      ]

  last_recorded-kept :
      (written : String) (files : List SidecarFile)
      → str_eq (sidecar_path written) (sidecar_path file) ≡ false
      → All (λ s. is_beside s ≡ true) files
      → last_recorded name
          (some file)
          (select (λ s. not (str_eq s.path (sidecar_path written))) files)
        ≡ last_recorded name (some file) files
  last_recorded-kept written [] apart all = refl
  last_recorded-kept written (s ∷ rest) apart (is, all) =
      elim (Bool-cases (str_eq s.path (sidecar_path written))) [
        | inl e ↦
            let there = (str_eq_iff s.path (sidecar_path written)).0 e in
            let silent =
              recorded_by-elsewhere s.path s.info is
                (ap (λ p. str_eq p (sidecar_path file)) there ∙ apart) in
            rw (e, silent)
              (last_recorded-kept written rest apart all ∙ elim (Bool-cases (is_own s)) [
                | inl own ↦ rw own (sym (or_else-none (last_recorded name (some file) rest)))
                | inr other ↦ rw other (sym (or_else-none (last_recorded name (some file) rest)))
              ])
        | inr e ↦ rw (e, last_recorded-kept written rest apart all) refl
      ]

  last_recorded-insert :
      (le : SidecarFile → SidecarFile → Bool) (s : SidecarFile) (files : List SidecarFile)
      → is_own s ≡ false
      → (recorded_by name (some file) s.info ≡ none) ⊎ (last_recorded name (some file) files ≡ none)
      → last_recorded name (some file) (insert le s files)
        ≡ or_else (recorded_by name (some file) s.info) (last_recorded name (some file) files)
  unfolding insert
  last_recorded-insert le s [] other either =
      rw other (sym (or_else-none (recorded_by name (some file) s.info)))
  last_recorded-insert le s (t ∷ ts) other either = elim (Bool-cases (le s t)) [
    | inl e ↦
        rw (e, other)
          (or_else-swap (recorded_by name (some file) s.info)
            (last_recorded name (some file) (t ∷ ts)) either)
    | inr e ↦ rw e (
        ap (λ r. or_else r (if is_own t then none else recorded_by name (some file) t.info))
          (last_recorded-insert le s ts other (elim either [
            | inl silent ↦ inl silent
            | inr nothing ↦ inr (
                or_else-none_left (last_recorded name (some file) ts)
                  (if is_own t then none else recorded_by name (some file) t.info) nothing)
          ]))
        ∙ or_else_assoc (recorded_by name (some file) s.info) (last_recorded name (some file) ts)
            (if is_own t then none else recorded_by name (some file) t.info))
  ]

  -- After the sidecar of a stream is written, the sidecars say of its file what it says, and of the
  -- other files what they said.
  pub last_recorded-write :
      (le : SidecarFile → SidecarFile → Bool) (written base : String) (spec : DatasetSpec)
      (run : RunEntry) (files : List SidecarFile)
      → All (λ s. is_beside s ≡ true) files
      → run.stream_file ≡ some written
      → is_some (option_or_none spec.name) && is_some (option_or_none (some written)) ≡ true
      → str_eq base "nazman-backup.json.info.json" ≡ false
      → last_recorded name (some file) (
          insert le
            (record {
              path = sidecar_path written;
              name = base;
              info = some (dataset_info spec run);
            })
            (select (λ s. not (str_eq s.path (sidecar_path written))) files))
        ≡ or_else
            (if text_eq spec.name name && str_eq written file then some run else none)
            (if str_eq written file then none else last_recorded name (some file) files)
  last_recorded-write le written base spec run files all at named own =
      let others = select (λ s. not (str_eq s.path (sidecar_path written))) files in
      let s : SidecarFile = record {
        path = sidecar_path written;
        name = base;
        info = some (dataset_info spec run);
      } in
      elim (Bool-cases (str_eq written file)) [
        | inl same ↦
            let nothing : last_recorded name (some file) others ≡ none =
              subst
                (λ w.
                  last_recorded name (some file)
                    (select (λ s. not (str_eq s.path (sidecar_path w))) files)
                  ≡ none)
                (sym ((str_eq_iff written file).0 same)) (last_recorded-others files all) in
            last_recorded-insert le s others own (inr nothing) ∙ rw (said, nothing, same) refl
        | inr other ↦
            let apart = paths_apart other in
            let silent = said ∙ unsaid other in
            last_recorded-insert le s others own (inl silent)
            ∙ rw (silent, other, last_recorded-kept written files apart all) (kept other)
      ]
    where
      said :
          recorded_by name (some file) (some (dataset_info spec run))
          ≡ (if text_eq spec.name name && str_eq written file then some run else none)
      said = rw (at, named) refl

      unsaid :
          str_eq written file ≡ false
          → ◌≡◌ {A = Option RunEntry}
              (if text_eq spec.name name && str_eq written file then some run else none)
              none
      unsaid other = ground arith

      kept :
          str_eq written file ≡ false
          → last_recorded name (some file) files
            ≡ or_else
                (if text_eq spec.name name && false then some run else none)
                (last_recorded name (some file) files)
      kept other = elim (Bool-cases (text_eq spec.name name)) [
        | inl e ↦ rw e refl
        | inr e ↦ rw e refl
      ]

      paths_apart :
          str_eq written file ≡ false → str_eq (sidecar_path written) (sidecar_path file) ≡ false
      paths_apart other = elim (Bool-cases (str_eq (sidecar_path written) (sidecar_path file))) [
        | inl same ↦
            let whole = (str_eq_iff (sidecar_path written) (sidecar_path file)).0 same in
            let equal =
              (str_eq_iff written file).1 (append_cancel_right written file ".info.json" whole) in
            absurd (cc)
        | inr apart ↦ apart
      ]
