-- ===== src/Restore/Chain/Latest.antt =====
-- The chain of a dataset is its latest full stream and what follows it.
use nazman.Prelude.{
  ℕ, suc, ◌+◌, true, false, Option, none, some, List, [], ◌∷◌, ◌++◌, drop, All, ◌≡◌, refl, sym, ap,
  subst, ◌∙◌, ◌⊎◌, ◌↔◌, length, Bool-cases, inl, inr, if◌then◌else◌, arith,
}
use nazman.Prelude.Order.{sort}
use nazman.Manifest.{RunEntry, older_first}
use nazman.Restore.Chain.{is_full, last_full, chain}

abbrev pub Incremental : RunEntry → Type 0
Incremental b = is_full b ≡ false

-- a full stream and incremental ones after it
abbrev pub StartsFull : List RunEntry → Type 0
StartsFull [] = ⊥
StartsFull (b ∷ bs) = (is_full b ≡ true) × All Incremental bs

last_full-Incremental :
    (i : ℕ) (found : Option ℕ) (bs : List RunEntry)
    → All Incremental bs
    → last_full i found bs ≡ found
last_full-Incremental i found [] all = refl
last_full-Incremental i found (b ∷ bs) (h, all) = rw h (last_full-Incremental (suc i) found bs all)

last_full_split :
    (i : ℕ) (found : Option ℕ) (before c : List RunEntry)
    → StartsFull c
    → last_full i found (before ++ c) ≡ some (i + length before)
last_full_split i found [] [] s = absurd s
last_full_split i found [] (b ∷ bs) (h, all) =
    rw (last_full, h) (last_full-Incremental (suc i) (some i) bs all ∙ ap some (omega arith))
last_full_split i found (x ∷ before) c s =
    last_full_split (suc i) (if is_full x then some i else found) before c s ∙ ap some (omega arith)

drop-append : (before c : List RunEntry) → drop (length before) (before ++ c) ≡ c
drop-append [] c = refl
drop-append (x ∷ before) c = drop-append before c

-- the streams before the last full one, and from it on
abbrev pub SplitAt : List RunEntry → List RunEntry → Type 0
SplitAt ordered c = (before : List RunEntry) × (ordered ≡ before ++ c) × StartsFull c

split_lem : (bs : List RunEntry) → All Incremental bs ⊎ ((c : List RunEntry) × SplitAt bs c)
split_lem [] = inl tt
split_lem (b ∷ bs) = elim (split_lem bs) [
  | inr (c, (before, same, s)) ↦ inr (c, (b ∷ before, ap (λ l. b ∷ l) same, s))
  | inl all ↦ elim (Bool-cases (is_full b)) [
    | inl e ↦ inr (b ∷ bs, ([], refl, (e, all)))
    | inr e ↦ inl (e, all)
  ]
]

chain-split : (backups c : List RunEntry) → SplitAt (sort older_first backups) c → chain backups ≡ c
unfolding chain
chain-split backups c (before, same, s) =
    let place : last_full 0 none (before ++ c) ≡ some (length before) =
      last_full_split 0 none before c s ∙ ap some (omega arith) in
    rw (same, place) (drop-append before c)

chain-Incremental :
    (backups : List RunEntry)
    → All Incremental (sort older_first backups)
    → chain backups ≡ sort older_first backups
unfolding chain
chain-Incremental backups all =
    rw (last_full-Incremental 0 none (sort older_first backups) all) refl

-- The chain of a dataset's streams is the part of them, oldest first, that begins with a full stream
-- and has only incremental ones after it, up to the newest; it is all of them when none is full. No
-- other list is.
pub chain_lem :
    (backups c : List RunEntry)
    → (chain backups ≡ c) ↔ (
        SplitAt (sort older_first backups) c
        ⊎ (All Incremental (sort older_first backups) × (c ≡ sort older_first backups)))
chain_lem backups c = (
  λ same. elim (split_lem (sort older_first backups)) [
    | inl all ↦ inr (all, sym same ∙ chain-Incremental backups all)
    | inr (c', at) ↦
        inl (subst (SplitAt (sort older_first backups)) (sym (chain-split backups c' at) ∙ same) at)
  ],
  λ parts. elim parts [
    | inl at ↦ chain-split backups c at
    | inr (all, same) ↦ chain-Incremental backups all ∙ sym same
  ],
)
