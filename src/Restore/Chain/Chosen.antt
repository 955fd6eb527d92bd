-- ===== src/Restore/Chain/Chosen.antt =====
-- What is chosen for a restore, and its order.
use nazman.Prelude.{
  String, true, false, Option, none, some, List, [], ◌∷◌, is_empty, option_or_none, ◌≡◌, refl, sym,
  ap, ◌∙◌, Bool-cases, Option-cases, inl, inr, arith,
}
use nazman.Prelude.Order.{IsSorted, sort-IsSorted}
use nazman.Prelude.Occurs.{Occurs, Occurs-sort, Occurs-cases, Occurs-cons, not-Occurs-nil}
use nazman.Manifest.{RunEntry, DatasetEntry, Manifest}
use nazman.Restore.Chain.{
  Selection, Choice, chain, by_name, choice_of, choose_into, choose, choices, shallow_first,
  chosen_datasets, fits_media,
}

-- a choice comes from an enabled selection of its dataset, and has its whole chain
pub record IsChosen (datasets : List DatasetEntry) (media : Option String) (c : Choice)
    (sel : Selection) : Type 0 where
  enabled : sel.enabled ≡ true
  named : c.source ≡ sel.source_dataset
  entry : DatasetEntry
  held : by_name sel.source_dataset datasets ≡ some entry
  whole : c.chain ≡ chain entry.backups
  nonempty : is_empty c.chain ≡ false
  fits : fits_media media c.chain ≡ true

none-ne-some : {c : Choice} → ◌≡◌ {A = Option Choice} none (some c) → ⊥
none-ne-some h = cc

choice_made : {c d : Choice} → ◌≡◌ {A = Option Choice} (some c) (some d) → c ≡ d
choice_made h = cc

choice_of_lem :
    (sel : Selection) (pool : String) (media : Option String) (streams : List RunEntry) (c : Choice)
    → choice_of sel pool media streams ≡ some c
    → (c.source ≡ sel.source_dataset)
      × (c.chain ≡ streams)
      × (is_empty streams ≡ false)
      × (fits_media media streams ≡ true)
choice_of_lem sel pool media streams c h = elim (Bool-cases (is_empty streams)) [
  | inl e ↦ absurd (none-ne-some (rw e at h))
  | inr e ↦ elim (Bool-cases (fits_media media streams)) [
    | inr f ↦ absurd (none-ne-some (rw (e, f) at h))
    | inl f ↦
        let made = choice_made (rw (e, f) at h) in
        (sym (ap (λ d. d.source) made), sym (ap (λ d. d.chain) made), e, f)
  ]
]

choose_into_lem :
    (datasets : List DatasetEntry) (media : Option String) (sel : Selection) (pool : Option String)
    (d : Option DatasetEntry) (c : Choice)
    → sel.enabled ≡ true
    → by_name sel.source_dataset datasets ≡ d
    → choose_into sel media pool d ≡ some c
    → IsChosen datasets media c sel
choose_into_lem datasets media sel (some pool) (some d) c on held h =
    let (named, whole, nonempty, fits) = choice_of_lem sel pool media (chain d.backups) c h in
    record {
      enabled = on;
      named = named;
      entry = d;
      held = held;
      whole = whole;
      nonempty = rw whole nonempty;
      fits = rw whole fits;
    }
choose_into_lem datasets media sel none d c on held h = absurd (none-ne-some h)
choose_into_lem datasets media sel (some pool) none c on held h = absurd (none-ne-some h)

choose-IsChosen :
    (datasets : List DatasetEntry) (media : Option String) (sel : Selection) (c : Choice)
    → choose datasets media sel ≡ some c
    → IsChosen datasets media c sel
unfolding choose
choose-IsChosen datasets media sel c h = elim (Bool-cases sel.enabled) [
  | inl on ↦
      choose_into_lem datasets media sel (option_or_none sel.target_pool)
        (by_name sel.source_dataset datasets) c on refl (rw on at h)
  | inr off ↦ absurd (none-ne-some (rw off at h))
]

abbrev pub ChosenFrom : List DatasetEntry → Option String → Choice → List Selection → Type 0
ChosenFrom datasets media c sels =
    (sel : Selection) × Occurs sel sels × IsChosen datasets media c sel

chosen_later :
    (datasets : List DatasetEntry) (media : Option String) (c : Choice) (sel : Selection)
    (sels : List Selection)
    → ChosenFrom datasets media c sels
    → ChosenFrom datasets media c (sel ∷ sels)
chosen_later datasets media c sel sels (sel', at, chosen) =
    (sel', Occurs-cons sel' sel sels at, chosen)

choices-IsChosen :
    (datasets : List DatasetEntry) (media : Option String) (sels : List Selection) (c : Choice)
    → Occurs c (choices datasets media sels)
    → ChosenFrom datasets media c sels
choices-IsChosen datasets media [] c o = absurd (not-Occurs-nil c o)
choices-IsChosen datasets media (sel ∷ sels) c o =
    let later = λ (o' : Occurs c (choices datasets media sels)).
      chosen_later datasets media c sel sels (choices-IsChosen datasets media sels c o') in
    elim (Option-cases (choose datasets media sel)) [
      | inl none_made ↦ later (rw none_made at o)
      | inr (c', made) ↦ elim (Occurs-cases c c' (choices datasets media sels) (rw made at o)) [
        | inl same ↦ (sel, (0, refl), choose-IsChosen datasets media sel c (made ∙ ap some same))
        | inr there ↦ later there
      ]
    ]

-- Every dataset that is chosen for a restore is one that an enabled selection names, with its whole
-- chain, which is not empty and lies on the volume that the restore is restricted to; and a dataset
-- stands before those that lie deeper.
pub chosen_datasets_lem :
    (manifest : Manifest) (selections : List Selection) (media_fs_uuid : Option String) (c : Choice)
    → Occurs c (chosen_datasets manifest selections media_fs_uuid)
    → ChosenFrom manifest.datasets media_fs_uuid c selections
      × IsSorted shallow_first (chosen_datasets manifest selections media_fs_uuid)
unfolding chosen_datasets
chosen_datasets_lem manifest selections media_fs_uuid c o = (
  choices-IsChosen manifest.datasets media_fs_uuid selections c
      (Occurs-sort shallow_first c (choices manifest.datasets media_fs_uuid selections) o),
  sort-IsSorted shallow_first (λ c d h. ground arith) (λ c d e h k. ground arith)
      (choices manifest.datasets media_fs_uuid selections),
)
