-- ===== src/Restore/Adoption/Settled.antt =====
-- The table of declared disks, and the volumes that an adoption has nothing left to do for.
use nazman.Prelude.{
  ℕ, String, Bool, true, false, Option, none, some, List, [], ◌∷◌, ◌++◌, any, option_or_none,
  str_eq, str_eq_iff, ◌==◌, ==_iff, ◌≡◌, refl, ap, Bool-cases, inl, inr, if◌then◌else◌, arith,
  is_some, not,
}
use nazman.Prelude.Keyed.{Keys, find_key, IsKeyed}
use nazman.Restore.Volumes.{Candidate}
use nazman.Restore.Adoption.{KnownDisk, DeclaredDisk, disk_of, declared_as}

abbrev pub by_uuid : Keys String
by_uuid = record { same = str_eq; same_iff = str_eq_iff }

abbrev pub by_disk : Keys ℕ
by_disk = record { same = ◌==◌; same_iff = ==_iff }

abbrev pub uuid_of : DeclaredDisk → String
uuid_of x = x.fs_uuid

abbrev pub disk_id_of : DeclaredDisk → ℕ
disk_id_of x = x.disk_id

-- The volumes of the declared disks are different, and so are the disks.
pub record IsTable (rows : List DeclaredDisk) : Type 0 where
  pub volumes : IsKeyed by_uuid uuid_of rows
  pub disks : IsKeyed by_disk disk_id_of rows

-- no row has the disk
pub any-find :
    (n : ℕ) (rows : List DeclaredDisk)
    → any (λ x. x.disk_id == n) rows ≡ false
    → find_key by_disk disk_id_of n rows ≡ none
any-find n [] h = refl
any-find n (x ∷ xs) h = ground (arith, any-find n xs)

declared_as-append :
    (uuid : String) (rows new : List DeclaredDisk)
    → is_some (declared_as uuid rows) ≡ true
    → is_some (declared_as uuid (rows ++ new)) ≡ true
declared_as-append uuid [] new h = absurd (cc)
declared_as-append uuid (x ∷ xs) new h = elim (Bool-cases (str_eq x.fs_uuid uuid)) [
  | inl e ↦ rw e refl
  | inr e ↦ rw e (declared_as-append uuid xs new (rw e at h))
]

-- a volume without a UUID, one that is declared, or one on no known disk
abbrev pub is_settled_as : List KnownDisk → List DeclaredDisk → Candidate → Option String → Bool
is_settled_as disks rows c none = true
is_settled_as disks rows c (some uuid) =
    if is_some (declared_as uuid rows) then true else not (is_some (disk_of disks c))

abbrev pub is_settled : List KnownDisk → List DeclaredDisk → Candidate → Bool
is_settled disks rows c = is_settled_as disks rows c (option_or_none c.fs_uuid)

pub settled-append :
    (disks : List KnownDisk) (rows new : List DeclaredDisk) (c : Candidate)
    → is_settled disks rows c ≡ true
    → is_settled disks (rows ++ new) c ≡ true
settled-append disks rows new c = go (option_or_none c.fs_uuid)
  where
    go :
        (u : Option String)
        → is_settled_as disks rows c u ≡ true
        → is_settled_as disks (rows ++ new) c u ≡ true
    go none h = refl
    go (some uuid) h = elim (Bool-cases (is_some (declared_as uuid rows))) [
      | inl e ↦ rw (declared_as-append uuid rows new e) refl
      | inr e ↦ elim (Bool-cases (is_some (declared_as uuid (rows ++ new)))) [
        | inl e' ↦ rw e' refl
        | inr e' ↦ rw e' (rw e at h)
      ]
    ]

pub append-nil : (rows : List DeclaredDisk) → rows ++ [] ≡ rows
append-nil [] = refl
append-nil (x ∷ xs) = ap (λ ys. x ∷ ys) (append-nil xs)

pub append_assoc : (a b c : List DeclaredDisk) → (a ++ b) ++ c ≡ a ++ (b ++ c)
append_assoc [] b c = refl
append_assoc (x ∷ xs) b c = ap (λ ys. x ∷ ys) (append_assoc xs b c)

pub declared_as-last :
    (uuid : String) (rows : List DeclaredDisk) (x : DeclaredDisk)
    → str_eq x.fs_uuid uuid ≡ true
    → is_some (declared_as uuid (rows ++ x ∷ [])) ≡ true
declared_as-last uuid [] x h = rw h refl
declared_as-last uuid (y ∷ ys) x h = elim (Bool-cases (str_eq y.fs_uuid uuid)) [
  | inl e ↦ rw e refl
  | inr e ↦ rw e (declared_as-last uuid ys x h)
]
