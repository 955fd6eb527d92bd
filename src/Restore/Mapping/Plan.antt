-- ===== src/Restore/Mapping/Plan.antt =====
-- The plan of a pool: its devices get different parts of attached disks, and the right ones.
use nazman.Prelude.{
  String, true, ◌||◌, Option, none, some, List, [], ◌∷◌, ◌++◌, All, find?, ◌≡◌, refl, ◌⊎◌, ok,
  Option-cases, inl, inr,
}
use nazman.Prelude.Occurs.{Occurs, Occurs-cons, Occurs-append}
use nazman.Manifest.{DeviceSpec, VdevSpec, PoolEntry, Manifest, text_eq}
use nazman.Restore.Mapping.{
  AttachedDisk, Claim, claimed, matches, match_disk, DevicePlan, plan_devices, plan_vdevs, PoolPlan,
  plan_of, plan_found, plan_pool_mapping,
}
use nazman.Restore.Mapping.Claims.{
  Disjoint, FreeOf, device_claims, vdev_claims, IsApart, plan_devices-IsApart, match_disk-IsMatch,
}

Disjoint-append :
    (cs ds : List Claim) → Disjoint cs → Disjoint ds → FreeOf cs ds → Disjoint (cs ++ ds)
Disjoint-append [] ds _ h free = h
Disjoint-append (c ∷ cs) ds (first, rest) h free = (
  λ d o. elim (Occurs-append d cs ds o) [ inl l ↦ first d l | inr r ↦ free d c r (0, refl) ],
  Disjoint-append cs ds rest h (λ d u o at. free d u o (Occurs-cons u c cs at)),
)

module _ (attached : List AttachedDisk) where
  IsApart-append :
      (used cs mid ds used' : List Claim)
      → IsApart attached used cs mid
      → IsApart attached mid ds used'
      → IsApart attached used (cs ++ ds) used'
  IsApart-append used cs mid ds used' first rest = record {
    disjoint =
        Disjoint-append cs ds first.disjoint rest.disjoint
          (λ d u o at. rest.free d u o (first.new u at));
    free = λ c u o at. elim (Occurs-append c cs ds o) [
      | inl l ↦ first.free c u l at
      | inr r ↦ rest.free c u r (first.old u at)
    ];
    old = λ u at. rest.old u (first.old u at);
    new = λ u o. elim (Occurs-append u cs ds o) [
      | inl l ↦ rest.old u (first.new u l)
      | inr r ↦ rest.new u r
    ];
  }

  plan_vdevs-IsApart :
      (vdevs : List VdevSpec) (used : List Claim)
      → IsApart attached used
          (vdev_claims (plan_vdevs attached vdevs used).0)
          (plan_vdevs attached vdevs used).1
  unfolding plan_vdevs
  plan_vdevs-IsApart [] used = plan_devices-IsApart attached [] used
  plan_vdevs-IsApart (vdev ∷ vdevs) used =
      IsApart-append used (device_claims (plan_devices attached vdev.devices used).0)
        (plan_devices attached vdev.devices used).1
        (vdev_claims (plan_vdevs attached vdevs (plan_devices attached vdev.devices used).1).0)
        (plan_vdevs attached vdevs (plan_devices attached vdev.devices used).1).1
        (plan_devices-IsApart attached vdev.devices used)
        (plan_vdevs-IsApart vdevs (plan_devices attached vdev.devices used).1)

  -- a device is left open, or filled by an attached disk with its recorded by-id path or serial
  abbrev pub IsFilled : DevicePlan → Type 0
  IsFilled p =
      (p.matched_disk_id ≡ none)
      ⊎ ((d : AttachedDisk) × Occurs d attached
          × (p.matched_disk_id ≡ some d.disk_id)
          × ((matches p.spec.by_id d.by_id || matches p.spec.serial d.serial) ≡ true))

  plan_devices-IsFilled :
      (specs : List DeviceSpec) (used : List Claim)
      → All IsFilled (plan_devices attached specs used).0
  unfolding plan_devices
  plan_devices-IsFilled [] used = tt
  plan_devices-IsFilled (spec ∷ specs) used = elim (Option-cases (match_disk spec attached used)) [
    | inl missing ↦ rw (plan_devices, missing) (inl refl, plan_devices-IsFilled specs used)
    | inr (d, found) ↦
        let m = match_disk-IsMatch spec attached used d found in
        rw (plan_devices, found)
          (
            inr (d, m.there, refl, m.known),
            plan_devices-IsFilled specs (claimed spec (some d) used),
          )
  ]

  plan_vdevs-IsFilled :
      (vdevs : List VdevSpec) (used : List Claim)
      → All (λ v. All IsFilled v.devices) (plan_vdevs attached vdevs used).0
  unfolding plan_vdevs
  plan_vdevs-IsFilled [] used = tt
  plan_vdevs-IsFilled (vdev ∷ vdevs) used = (
    plan_devices-IsFilled vdev.devices used,
    plan_vdevs-IsFilled vdevs (plan_devices attached vdev.devices used).1,
  )

-- In the plan of a pool no two devices get the same slot of a disk, and a disk that one device gets
-- as a whole is given to no other; every device that is filled gets an attached disk with its
-- recorded by-id path or its recorded serial number.
pub plan_pool_mapping_lem :
    (manifest : Manifest) (pool_name : String) (attached : List AttachedDisk) (plan : PoolPlan)
    → plan_pool_mapping manifest pool_name attached ≡ ok plan
    → Disjoint (vdev_claims plan.vdevs) × All (λ v. All (IsFilled attached) v.devices) plan.vdevs
unfolding plan_pool_mapping
plan_pool_mapping_lem manifest pool_name attached plan h =
    go (find? (λ p. text_eq p.name (some pool_name)) manifest.pools) h
  where
    go :
        (found : Option PoolEntry)
        → plan_found pool_name attached found ≡ ok plan
        → Disjoint (vdev_claims plan.vdevs)
          × All (λ v. All (IsFilled attached) v.devices) plan.vdevs
    go none h = absurd (cc)
    go (some pool) h =
        let same : plan_of attached (plan_vdevs attached pool.vdevs []) ≡ plan = cc in
        rw (← same) (
          (plan_vdevs-IsApart attached pool.vdevs []).disjoint,
          plan_vdevs-IsFilled attached pool.vdevs [],
        )
