-- ===== src/Restore/Adoption/Samples.antt =====
-- Two volumes, one of them declared, and the adoption of both.
use nazman.Prelude.{ℕ, String, Bool, true, none, some, List, [], ◌∷◌, ◌++◌, ◌≡◌, refl, ok, All}
use nazman.Restore.Volumes.{Candidate}
use nazman.Restore.Adoption.{KnownDisk, DeclaredDisk, Store, Report, nothing_yet, adopt_volumes}
use nazman.Restore.Adoption.Twice.{adopt_volumes_lem}
use nazman.Restore.Adoption.Settled.{IsTable, is_settled}

abbrev volume : String → String → Candidate
volume uuid disk = record {
  device = "/dev/sdb1";
  device_name = "sdb1";
  by_id = none;
  fstype = "ext4";
  fs_uuid = some uuid;
  label = none;
  base_by_id = some disk;
  base_name = "sdb";
  partition_number = some 1;
}

abbrev both : List Candidate
both = volume "uuid-1" "usb-1" ∷ volume "uuid-2" "usb-2" ∷ []

abbrev known : List KnownDisk
known = record { id = 1; by_id = some "usb-1" } ∷ record { id = 2; by_id = some "usb-2" } ∷ []

abbrev mount : Candidate → ℕ → Bool × ℕ
mount c w = (true, w)

abbrev first_declared : Store ℕ
first_declared = record {
  declared = record { id = 5; disk_id = 1; fs_uuid = "uuid-1"; label = none } ∷ [];
  next_id = 6;
  world = 0;
}

abbrev answer : Report
answer = record { adopted = 6 ∷ []; already = 5 ∷ []; missing = [] }

adopt_volumes_example :
    let s' = (adopt_volumes mount known both nothing_yet first_declared).1 in
    IsTable s'.declared
    × ((new : List DeclaredDisk) × (s'.declared ≡ first_declared.declared ++ new))
    × All (λ c. is_settled known s'.declared c ≡ true) both
    × ((r' : Report) × (adopt_volumes mount known both nothing_yet s' ≡ (ok r', s'))
        × (r'.adopted ≡ []))
unfolding adopt_volumes
adopt_volumes_example =
    adopt_volumes_lem mount known both first_declared answer
      (record { volumes = (refl, tt); disks = (refl, tt) }) refl
