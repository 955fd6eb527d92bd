-- ===== src/BackupGroup/Cycle.antt =====
-- The rotation of nazman/services/backup_group_service.py: `_active_set`, `_target_sets` and
-- `_rotate`, over the group's sets in cycle order. A set is found in the cycle by its id, which
-- is what the identity of ORM objects comes to.
pub mod Rotation
pub mod Fairness
use nazman.Prelude.{
  ℕ, zero, suc, ◌+◌, ◌%◌, min, max, Option, none, some, List, [], ◌∷◌, length, find?, if◌then◌else◌,
  ◌==◌, holds,
}
use nazman.BackupGroup.Rows.{Group, BackupSet}

abbrev shift : Option ℕ → Option ℕ
shift none = none
shift (some i) = some (suc i)

-- `order.index(x)` over ids; `none` where Python raises ValueError
pub index_of : ℕ → List BackupSet → Option ℕ
index_of n [] = none
index_of n (s ∷ ss) = let rest = shift (index_of n ss) in if s.id == n then some 0 else rest

-- `order[i % len(order)]`; the default is never read, since the cycle is not empty
abbrev get_or {ℓ} : {A : Type ℓ} → List A → ℕ → A → A
get_or [] i d = d
get_or (x ∷ xs) zero d = x
get_or (x ∷ xs) (suc i) d = get_or xs i d

-- `n or 1`
abbrev or_one : ℕ → ℕ
or_one zero = 1
or_one (suc n) = suc n

-- `max(1, min(group.copies or 1, len(sets)))`
pub copies_of : ℕ → ℕ → ℕ
copies_of copies n = max 1 (min (or_one copies) n)

-- `[order[(start + i) % len(order)] for i in range(i, i + k)]`
window : BackupSet → List BackupSet → ℕ → ℕ → ℕ → List BackupSet
window d sets start i zero = []
window d sets start i (suc k) =
    get_or sets ((start + i) % length sets) d ∷ window d sets start (suc i) k

abbrev or_zero : Option ℕ → ℕ
or_zero none = 0
or_zero (some i) = i

unfoldable pub target_sets : Group → List BackupSet → BackupSet → List BackupSet
unfolding window copies_of index_of
target_sets group sets active =
    window active sets (or_zero (index_of active.id sets)) 0 (copies_of group.copies (length sets))

-- The set that the group points at, or the first one, which then becomes the active one.
unfoldable pub active_set : Group → BackupSet → List BackupSet → Group × BackupSet
active_set group first rest = elim (find? (λ s. holds group.active_set_id s.id) (first ∷ rest)) [
  | none ↦ (record group { active_set_id = some first.id }, first)
  | some bset ↦ (group, bset)
]

-- The group after the move and the id of its new active set; nothing moves if the set is unknown.
unfoldable pub rotate : Group → List BackupSet → BackupSet → ℕ → Group × Option ℕ
unfolding index_of
rotate group sets current steps = elim (index_of current.id sets) [
  | none ↦ (group, none)
  | some i ↦
      let nxt = (get_or sets ((i + or_one steps % length sets) % length sets) current).id in
      (record group { active_set_id = some nxt }, some nxt)
]
