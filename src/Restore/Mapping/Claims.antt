-- ===== src/Restore/Mapping/Claims.antt =====
-- No part of a disk is given to two devices.
use nazman.Prelude.{
  ℕ, String, Bool, true, false, not, ◌&&◌, ◌||◌, Option, none, some, List, [], ◌∷◌, ◌++◌, find?,
  any, str_eq, ◌==◌, ◌≡◌, refl, ap, ◌∙◌, find?-some-holds, Option-cases, Bool-cases, inl, inr,
  arith,
}
use nazman.Prelude.Occurs.{
  Occurs, Occurs-any, Occurs-cases, Occurs-cons, not-Occurs-nil, find?-Occurs,
}
use nazman.Manifest.{DeviceSpec}
use nazman.Restore.Mapping.{
  AttachedDisk, Claim, whole, slot, same_claim, disk_of, slot_of, claim_for, taken, in_pool_usable,
  is_used, usable, matches, match_disk, DevicePlan, VdevPlan, plan_devices,
}

-- two claims that want the same part of a disk
abbrev pub conflict : Claim → Claim → Bool
conflict (whole a) (whole b) = a == b
conflict (whole a) (slot b t) = a == b
conflict (slot a s) (whole b) = a == b
conflict (slot a s) (slot b t) = a == b && str_eq s t

-- what a plan claims
abbrev pub claim_of : DevicePlan → List Claim
claim_of p = elim p.matched_disk_id [ none ↦ [] | some n ↦ claim_for (slot_of p.spec) n ∷ [] ]

abbrev pub device_claims : List DevicePlan → List Claim
device_claims [] = []
device_claims (p ∷ ps) = claim_of p ++ device_claims ps

abbrev pub vdev_claims : List VdevPlan → List Claim
vdev_claims [] = []
vdev_claims (v ∷ vs) = device_claims v.devices ++ vdev_claims vs

-- none of the claims wants what another has
abbrev pub Disjoint : List Claim → Type 0
Disjoint [] = Unit
Disjoint (c ∷ cs) = ((d : Claim) → Occurs d cs → conflict d c ≡ false) × Disjoint cs

abbrev pub FreeOf : List Claim → List Claim → Type 0
FreeOf used cs = (c u : Claim) → Occurs c cs → Occurs u used → conflict c u ≡ false

any-false :
    (p : Claim → Bool) (u : Claim) (used : List Claim)
    → any p used ≡ false
    → Occurs u used
    → p u ≡ false
any-false p u used h o = elim (Bool-cases (p u)) [
  | inl e ↦ absurd (let there = Occurs-any p u used o e in cc)
  | inr e ↦ e
]

or-false : (a b : Bool) → (a || b) ≡ false → (a ≡ false) × (b ≡ false)
or-false a b h = ground arith

not_taken :
    (wanted : Option String) (n : ℕ) (used : List Claim)
    → taken wanted n used ≡ false
    → (u : Claim) → Occurs u used
    → conflict (claim_for wanted n) u ≡ false
not_taken none n used h (whole b) o =
    let apart : (b == n) ≡ false =
      any-false (λ u. disk_of u == n) (whole b) used
        (or-false (is_used (whole n) used) (any (λ u. disk_of u == n) used) h).1 o in
    ground arith
not_taken none n used h (slot b t) o =
    let apart : (b == n) ≡ false =
      any-false (λ u. disk_of u == n) (slot b t) used
        (or-false (is_used (whole n) used) (any (λ u. disk_of u == n) used) h).1 o in
    ground arith
not_taken (some s) n used h (whole b) o =
    any-false (same_claim (whole n)) (whole b) used (or-false _ _ h).1 o
not_taken (some s) n used h (slot b t) o =
    any-false (same_claim (slot n s)) (slot b t) used (or-false _ _ h).0 o

usable_lem :
    (wanted : Option String) (used : List Claim) (d : AttachedDisk)
    → usable wanted used d ≡ true
    → taken wanted d.disk_id used ≡ false
unfolding usable
usable_lem wanted used d h =
    go (not d.in_pool || in_pool_usable wanted d) (taken wanted d.disk_id used) h
  where
    go : (a b : Bool) → (a && not b) ≡ true → b ≡ false
    go a b h = ground arith

-- the disk of a match is attached, is the one recorded, and is free
pub record IsMatch (spec : DeviceSpec) (attached : List AttachedDisk) (used : List Claim)
    (d : AttachedDisk) : Type 0 where
  pub there : Occurs d attached
  pub known : (matches spec.by_id d.by_id || matches spec.serial d.serial) ≡ true
  pub free : usable (slot_of spec) used d ≡ true

pub match_disk-IsMatch :
    (spec : DeviceSpec) (attached : List AttachedDisk) (used : List Claim) (d : AttachedDisk)
    → match_disk spec attached used ≡ some d
    → IsMatch spec attached used d
unfolding match_disk
match_disk-IsMatch spec attached used d h =
    let by_ids = λ (d : AttachedDisk). usable (slot_of spec) used d && matches spec.by_id d.by_id in
    let by_serials =
      λ (d : AttachedDisk). usable (slot_of spec) used d && matches spec.serial d.serial in
    elim (Option-cases (find? by_ids attached)) [
      | inl missing ↦
          let found : find? by_serials attached ≡ some d = rw (match_disk, missing) at h in
          let test = find?-some-holds by_serials attached d found in
          record {
            there = find?-Occurs by_serials attached d found;
            known = ground arith;
            free = ground arith;
          }
      | inr (d', found) ↦
          let same : d' ≡ d = some-inj (rw (match_disk, found) at h) in
          let found' : find? by_ids attached ≡ some d = found ∙ ap some same in
          let test = find?-some-holds by_ids attached d found' in
          record {
            there = find?-Occurs by_ids attached d found';
            known = ground arith;
            free = ground arith;
          }
    ]
  where
    some-inj : {a b : AttachedDisk} → ◌≡◌ {A = Option AttachedDisk} (some a) (some b) → a ≡ b
    some-inj h = cc

-- What the devices of a plan claim, and what the loop keeps in `used`.
module _ (attached : List AttachedDisk) where
  pub record IsApart (used : List Claim) (claims : List Claim) (used' : List Claim) : Type 0 where
    pub disjoint : Disjoint claims
    pub free : FreeOf used claims
    pub old : (u : Claim) → Occurs u used → Occurs u used'
    pub new : (u : Claim) → Occurs u claims → Occurs u used'

  claim_free :
      (spec : DeviceSpec) (used : List Claim) (d : AttachedDisk)
      → match_disk spec attached used ≡ some d
      → (u : Claim) → Occurs u used
      → conflict (claim_for (slot_of spec) d.disk_id) u ≡ false
  claim_free spec used d h u o =
      not_taken (slot_of spec) d.disk_id used
        (usable_lem (slot_of spec) used d (match_disk-IsMatch spec attached used d h).free) u o

  IsApart-cons :
      (c : Claim) (used claims used' : List Claim)
      → ((u : Claim) → Occurs u used → conflict c u ≡ false)
      → IsApart (c ∷ used) claims used'
      → IsApart used (c ∷ claims) used'
  IsApart-cons c used claims used' free_c rest = record {
    disjoint = ((λ d o. rest.free d c o (0, refl)), rest.disjoint);
    free = λ d u o at. elim (Occurs-cases d c claims o) [
      | inl same ↦ rw (← same) (free_c u at)
      | inr later ↦ rest.free d u later (Occurs-cons u c used at)
    ];
    old = λ u at. rest.old u (Occurs-cons u c used at);
    new = λ u o. elim (Occurs-cases u c claims o) [
      | inl same ↦ rw (← same) (rest.old c (0, refl))
      | inr later ↦ rest.new u later
    ];
  }

  pub plan_devices-IsApart :
      (specs : List DeviceSpec) (used : List Claim)
      → IsApart used
          (device_claims (plan_devices attached specs used).0)
          (plan_devices attached specs used).1
  unfolding plan_devices
  plan_devices-IsApart [] used = record {
    disjoint = tt;
    free = λ c u o at. absurd (not-Occurs-nil c o);
    old = λ u at. at;
    new = λ u o. absurd (not-Occurs-nil u o);
  }
  plan_devices-IsApart (spec ∷ specs) used = elim (Option-cases (match_disk spec attached used)) [
    | inl missing ↦ rw (plan_devices, missing) (plan_devices-IsApart specs used)
    | inr (d, found) ↦
        let c = claim_for (slot_of spec) d.disk_id in
        rw (plan_devices, found)
          (IsApart-cons c used (device_claims (plan_devices attached specs (c ∷ used)).0)
            (plan_devices attached specs (c ∷ used)).1 (claim_free spec used d found)
            (plan_devices-IsApart specs (c ∷ used)))
  ]
