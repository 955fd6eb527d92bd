-- ===== src/Restore/Adoption.antt =====
-- nazman/services/system_restore.py, `adopt_media`: the attached volumes of a set become declared
-- backup disks. The columns of a declared disk that the method only copies are left out; the
-- table refuses a second row of a disk. A parameter is the mount, which may raise.
pub mod Settled
pub mod Twice
mod Samples
use nazman.Prelude.{
  ℕ, ◌+◌, String, Bool, true, false, Option, none, some, List, [], ◌∷◌, ◌++◌, map, find?, any,
  option_or_none, str_eq, ◌==◌, Result, ok, err, continue, if◌then◌else◌,
}
use nazman.Manifest.{text_eq}
use nazman.Restore.Volumes.{Candidate, Outside, SetVolume, volumes_of}

pub record KnownDisk : Type 0 where
  pub id : ℕ
  pub by_id : Option String

pub record DeclaredDisk : Type 0 where
  pub id : ℕ
  pub disk_id : ℕ
  pub fs_uuid : String
  pub label : Option String

pub record Store (W : Type 0) : Type 0 where
  pub declared : List DeclaredDisk
  pub next_id : ℕ
  pub world : W

pub data Missing : Type 0 where
  no_uuid no_disk : Candidate → Missing

pub record Report : Type 0 where
  pub adopted : List ℕ
  pub already : List ℕ
  pub missing : List Missing

pub data AdoptError : Type 0 where
  set_not_found : String → AdoptError
  command_error integrity_error : AdoptError

abbrev pub nothing_yet : Report
nothing_yet = record { adopted = []; already = []; missing = [] }

abbrev pub disk_named : List KnownDisk → Option String → Option KnownDisk
disk_named disks none = none
disk_named disks (some by_id) = find? (λ d. text_eq d.by_id (some by_id)) disks

-- the disk that a volume lies on
abbrev pub disk_of : List KnownDisk → Candidate → Option KnownDisk
disk_of disks c = disk_named disks (option_or_none c.base_by_id)

abbrev pub declared_as : String → List DeclaredDisk → Option DeclaredDisk
declared_as uuid rows = find? (λ x. str_eq x.fs_uuid uuid) rows

abbrev pub Outcome : Type 0 → Type 0
Outcome W = Result AdoptError Report × Store W

module _ {W : Type 0} (mount : Candidate → W → Bool × W) (disks : List KnownDisk) where
  abbrev pub add_row : String → Candidate → KnownDisk → Report → Store W → Outcome W
  add_row uuid c d r s =
      if any (λ x. x.disk_id == d.id) s.declared then (err integrity_error, s) else (
        ok (record r { adopted = r.adopted ++ s.next_id ∷ [] }),
        record s {
          declared =
              s.declared
              ++ record { id = s.next_id; disk_id = d.id; fs_uuid = uuid; label = c.label } ∷ [];
          next_id = s.next_id + 1;
        },
      )

  abbrev pub mounted_row : String → Candidate → KnownDisk → Report → Store W → Bool × W → Outcome W
  mounted_row uuid c d r s (true, w) = add_row uuid c d r (record s { world = w })
  mounted_row uuid c d r s (false, w) = (err command_error, record s { world = w })

  abbrev pub adopt_new : String → Candidate → Option KnownDisk → Report → Store W → Outcome W
  adopt_new uuid c none r s = (ok (record r { missing = r.missing ++ no_disk c ∷ [] }), s)
  adopt_new uuid c (some d) r s = mounted_row uuid c d r s (mount c s.world)

  abbrev pub adopt_uuid : String → Candidate → Option DeclaredDisk → Report → Store W → Outcome W
  adopt_uuid uuid c (some e) r s = (ok (record r { already = r.already ++ e.id ∷ [] }), s)
  adopt_uuid uuid c none r s = adopt_new uuid c (disk_of disks c) r s

  abbrev pub adopt_found : Candidate → Option String → Report → Store W → Outcome W
  adopt_found c none r s = (ok (record r { missing = r.missing ++ no_uuid c ∷ [] }), s)
  adopt_found c (some uuid) r s = adopt_uuid uuid c (declared_as uuid s.declared) r s

  -- the loop over the volumes
  unfoldable pub adopt_volumes : List Candidate → Report → Store W → Outcome W
  adopt_volumes [] r s = (ok r, s)
  adopt_volumes (c ∷ cs) r s =
      let (r', s') = adopt_found c (option_or_none c.fs_uuid) r s in
      continue r' (adopt_volumes cs) s'

  abbrev pub adopt_listed : String → List SetVolume → Store W → Outcome W
  adopt_listed set_id [] s = (err (set_not_found set_id), s)
  adopt_listed set_id (v ∷ vs) s = adopt_volumes (map (λ x. x.candidate) (v ∷ vs)) nothing_yet s

  unfoldable pub adopt_media : Outside W → String → Store W → Outcome W
  unfolding adopt_volumes volumes_of
  adopt_media outside set_id s =
      let (vs, w) = volumes_of outside set_id s.world in
      adopt_listed set_id vs (record s { world = w })
