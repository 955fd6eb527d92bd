-- ===== src/Restore/Mapping.antt =====
-- `_match_disk` and `plan_pool_mapping` of nazman/services/system_restore.py: which attached disk
-- fills each device of a recorded pool. The disks that are attached are an argument.
pub mod Claims
pub mod Plan
use nazman.Prelude.{
  ℕ, String, Bool, true, false, not, ◌&&◌, ◌||◌, Option, none, some, List, [], ◌∷◌, ◌++◌, find?,
  select, any, leb, is_some, str_eq, option_or_none, ◌==◌, Result, ok, err, if◌then◌else◌,
}
use nazman.Manifest.{DeviceSpec, VdevSpec, PoolEntry, Manifest, text_eq}

pub record AttachedPartition : Type 0 where
  pub number : ℕ
  pub slot_uuid : String
  pub size_bytes : ℕ

pub record AttachedDisk : Type 0 where
  pub disk_id : ℕ
  pub by_id : Option String
  pub serial : Option String
  pub size_bytes : ℕ
  pub partitions : List AttachedPartition
  pub in_pool : Bool
  pub member_slot_uuids : List String

-- The texts of the set `used`: "<disk>" and "<disk>:<slot>".
pub data Claim : Type 0 where
  whole : ℕ → Claim
  slot : ℕ → String → Claim

abbrev pub same_claim : Claim → Claim → Bool
same_claim (whole a) (whole b) = a == b
same_claim (whole a) (slot b t) = false
same_claim (slot a s) (whole b) = false
same_claim (slot a s) (slot b t) = a == b && str_eq s t

abbrev pub disk_of : Claim → ℕ
disk_of (whole a) = a
disk_of (slot a s) = a

-- `slot`, empty or missing alike
abbrev pub slot_of : DeviceSpec → Option String
slot_of spec = option_or_none spec.slot_uuid

abbrev pub claim_for : Option String → ℕ → Claim
claim_for none disk_id = whole disk_id
claim_for (some s) disk_id = slot disk_id s

abbrev pub is_used : Claim → List Claim → Bool
is_used c used = any (same_claim c) used

-- A slot is taken with its disk; a whole disk is taken with any of its slots.
abbrev pub taken : Option String → ℕ → List Claim → Bool
taken none disk_id used = is_used (whole disk_id) used || any (λ u. disk_of u == disk_id) used
taken (some s) disk_id used = is_used (slot disk_id s) used || is_used (whole disk_id) used

-- A disk that a pool uses in part is offered only for one of its free slots.
abbrev pub in_pool_usable : Option String → AttachedDisk → Bool
in_pool_usable none d = false
in_pool_usable (some s) d =
    not (any (str_eq s) d.member_slot_uuids) && any (λ p. str_eq p.slot_uuid s) d.partitions

unfoldable pub usable : Option String → List Claim → AttachedDisk → Bool
usable wanted used d =
    (not d.in_pool || in_pool_usable wanted d) && not (taken wanted d.disk_id used)

-- `by_id and d["by_id"] == by_id`
abbrev pub matches : Option String → Option String → Bool
matches wanted its = is_some (option_or_none wanted) && text_eq its wanted

abbrev pub or_next : Option AttachedDisk → Option AttachedDisk → Option AttachedDisk
or_next none next = next
or_next (some d) next = some d

unfoldable pub match_disk : DeviceSpec → List AttachedDisk → List Claim → Option AttachedDisk
unfolding usable
match_disk spec attached used =
    let wanted = slot_of spec in
    or_next (find? (λ d. usable wanted used d && matches spec.by_id d.by_id) attached)
      (find? (λ d. usable wanted used d && matches spec.serial d.serial) attached)

pub data MatchKind : Type 0 where
  by_id serial : MatchKind

pub record DevicePlan : Type 0 where
  pub spec : DeviceSpec
  pub matched_disk_id : Option ℕ
  pub match_kind : Option MatchKind
  pub size_ok : Bool
  pub matched_partition : Option AttachedPartition

pub record VdevPlan : Type 0 where
  pub role : Option String
  pub devices : List DevicePlan

abbrev pub partition_for : Option String → AttachedDisk → Option AttachedPartition
partition_for none d = none
partition_for (some s) d = find? (λ p. str_eq p.slot_uuid s) d.partitions

-- `not wanted or has >= wanted`
abbrev pub large_enough : Option ℕ → ℕ → Bool
large_enough none has = true
large_enough (some n) has = n == 0 || leb n has

abbrev pub nonzero : Option ℕ → Option ℕ
nonzero none = none
nonzero (some n) = if n == 0 then none else some n

abbrev pub size_fits : DeviceSpec → AttachedDisk → Option AttachedPartition → Bool
size_fits spec d none = large_enough spec.size_bytes d.size_bytes
size_fits spec d (some p) = elim (nonzero spec.partition_size_bytes) [
  | none ↦ large_enough spec.size_bytes d.size_bytes
  | some n ↦ leb n p.size_bytes
]

abbrev pub plan_device : DeviceSpec → Option AttachedDisk → DevicePlan
plan_device spec none = record {
  spec = spec;
  matched_disk_id = none;
  match_kind = none;
  size_ok = false;
  matched_partition = none;
}
plan_device spec (some d) =
    let partition = partition_for (slot_of spec) d in
    record {
      spec = spec;
      matched_disk_id = some d.disk_id;
      match_kind = some (if text_eq d.by_id spec.by_id then MatchKind.by_id else MatchKind.serial);
      size_ok = size_fits spec d partition;
      matched_partition = partition;
    }

abbrev pub claimed : DeviceSpec → Option AttachedDisk → List Claim → List Claim
claimed spec none used = used
claimed spec (some d) used = claim_for (slot_of spec) d.disk_id ∷ used

abbrev pub cons_device : DevicePlan → List DevicePlan × List Claim → List DevicePlan × List Claim
cons_device p (ps, used) = (p ∷ ps, used)

unfoldable pub plan_devices :
    List AttachedDisk → List DeviceSpec → List Claim → List DevicePlan × List Claim
unfolding match_disk
plan_devices attached [] used = ([], used)
plan_devices attached (spec ∷ specs) used =
    let found = match_disk spec attached used in
    cons_device (plan_device spec found) (plan_devices attached specs (claimed spec found used))

abbrev pub cons_vdev : VdevPlan → List VdevPlan × List Claim → List VdevPlan × List Claim
cons_vdev v (vs, used) = (v ∷ vs, used)

unfoldable pub plan_vdevs :
    List AttachedDisk → List VdevSpec → List Claim → List VdevPlan × List Claim
unfolding plan_devices
plan_vdevs attached [] used = ([], used)
plan_vdevs attached (vdev ∷ vdevs) used =
    let (devices, used') = plan_devices attached vdev.devices used in
    cons_vdev record { role = vdev.role; devices = devices } (plan_vdevs attached vdevs used')

pub record PoolPlan : Type 0 where
  pub vdevs : List VdevPlan
  pub available_disks : List AttachedDisk

pub data MappingError : Type 0 where
  pool_not_found : String → MappingError

abbrev pub plan_of : List AttachedDisk → List VdevPlan × List Claim → PoolPlan
plan_of attached (vdevs, used) = record {
  vdevs = vdevs;
  available_disks = select (λ d. not (any (λ u. disk_of u == d.disk_id) used)) attached;
}

abbrev pub plan_found : String → List AttachedDisk → Option PoolEntry → Result MappingError PoolPlan
plan_found pool_name attached none = err (pool_not_found pool_name)
plan_found pool_name attached (some pool) =
    ok (plan_of attached (plan_vdevs attached pool.vdevs []))

unfoldable pub plan_pool_mapping :
    Manifest → String → List AttachedDisk → Result MappingError PoolPlan
unfolding plan_vdevs
plan_pool_mapping manifest pool_name attached =
    plan_found pool_name attached (find? (λ p. text_eq p.name (some pool_name)) manifest.pools)
