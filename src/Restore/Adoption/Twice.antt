-- ===== src/Restore/Adoption/Twice.antt =====
-- The adoption of volumes keeps the table of declared disks well formed, and done twice it is as done
-- once.
use nazman.Prelude.{
  String, Bool, true, false, Option, none, some, List, [], ◌∷◌, ◌++◌, All, any, option_or_none,
  str_eq_self, ◌==◌, ok, err, continue, ◌≡◌, refl, sym, ap, subst, ◌∙◌, Bool-cases, Option-cases,
  inl, inr, arith,
}
use nazman.Prelude.Keyed.{IsKeyed-append_last}
use nazman.Restore.Volumes.{Candidate}
use nazman.Restore.Adoption.{
  KnownDisk, DeclaredDisk, Store, Report, Outcome, nothing_yet, disk_of, declared_as, adopt_found,
  adopt_new, adopt_uuid, mounted_row, add_row, adopt_volumes,
}
use nazman.Restore.Adoption.Settled.{
  by_uuid, by_disk, uuid_of, disk_id_of, IsTable, any-find, is_settled_as, is_settled,
  settled-append, append-nil, append_assoc, declared_as-last,
}

module _ {W : Type 0} (mount : Candidate → W → Bool × W) (disks : List KnownDisk) where
  -- What a volume leaves: a well formed table that has grown, in which it is settled.
  record Adopted (c : Candidate) (s : Store W) (o : Outcome W) : Type 0 where
    pub table : IsTable o.1.declared
    pub grown : (new : List DeclaredDisk) × (o.1.declared ≡ s.declared ++ new)
    pub settled : (r : Report) → o.0 ≡ ok r → is_settled disks o.1.declared c ≡ true

  unchanged :
      (c : Candidate) (s : Store W) (o : Outcome W)
      → IsTable s.declared
      → o.1.declared ≡ s.declared
      → ((r : Report) → o.0 ≡ ok r → is_settled disks s.declared c ≡ true)
      → Adopted c s o
  unchanged c s o table same settled = record {
    table = subst IsTable (sym same) table;
    grown = ([], same ∙ sym (append-nil s.declared));
    settled = λ r h. subst (λ rows. is_settled disks rows c ≡ true) (sym same) (settled r h);
  }

  add_row-Adopted :
      (uuid : String) (c : Candidate) (d : KnownDisk) (r : Report) (s : Store W)
      → option_or_none c.fs_uuid ≡ some uuid
      → declared_as uuid s.declared ≡ none
      → IsTable s.declared
      → Adopted c s (add_row mount disks uuid c d r s)
  add_row-Adopted uuid c d r s at unknown table =
      elim (Bool-cases (any (λ x. x.disk_id == d.id) s.declared)) [
        | inl used ↦ rw used (unchanged c s _ table refl (λ r' h. absurd (cc)))
        | inr free ↦
            let row : DeclaredDisk = record {
              id = s.next_id;
              disk_id = d.id;
              fs_uuid = uuid;
              label = c.label;
            } in
            rw free (record {
              table = record {
                volumes = IsKeyed-append_last by_uuid uuid_of row s.declared unknown table.volumes;
                disks =
                    IsKeyed-append_last by_disk disk_id_of row s.declared
                      (any-find d.id s.declared free) table.disks;
              };
              grown = (row ∷ [], refl);
              settled =
                  λ r' h. rw (at, declared_as-last uuid s.declared row (str_eq_self uuid)) refl;
            })
      ]

  adopt_found-Adopted :
      (c : Candidate) (r : Report) (s : Store W)
      → IsTable s.declared
      → Adopted c s (adopt_found mount disks c (option_or_none c.fs_uuid) r s)
  adopt_found-Adopted c r s table = go (option_or_none c.fs_uuid) refl
    where
      with_disk :
          (uuid : String) (d : Option KnownDisk)
          → option_or_none c.fs_uuid ≡ some uuid
          → declared_as uuid s.declared ≡ none
          → disk_of disks c ≡ d
          → Adopted c s (adopt_new mount disks uuid c d r s)
      with_disk uuid none at unknown no_disk =
          unchanged c s _ table refl (λ r' h. rw (at, unknown, no_disk) refl)
      with_disk uuid (some d) at unknown known = mounted (mount c s.world)
        where
          mounted : (m : Bool × W) → Adopted c s (mounted_row mount disks uuid c d r s m)
          mounted (true, w) =
              let done = add_row-Adopted uuid c d r (record s { world = w }) at unknown table in
              record { table = done.table; grown = done.grown; settled = done.settled }
          mounted (false, w) = unchanged c s _ table refl (λ r' h. absurd (cc))

      with_row :
          (uuid : String) (e : Option DeclaredDisk)
          → option_or_none c.fs_uuid ≡ some uuid
          → declared_as uuid s.declared ≡ e
          → Adopted c s (adopt_uuid mount disks uuid c e r s)
      with_row uuid (some e) at declared =
          unchanged c s _ table refl (λ r' h. rw (at, declared) refl)
      with_row uuid none at unknown = with_disk uuid (disk_of disks c) at unknown refl

      go :
          (u : Option String)
          → option_or_none c.fs_uuid ≡ u
          → Adopted c s (adopt_found mount disks c u r s)
      go none at = unchanged c s _ table refl (λ r' h. rw at refl)
      go (some uuid) at = with_row uuid (declared_as uuid s.declared) at refl

  record AllAdopted (cs : List Candidate) (s : Store W) (o : Outcome W) : Type 0 where
    pub table : IsTable o.1.declared
    pub grown : (new : List DeclaredDisk) × (o.1.declared ≡ s.declared ++ new)
    pub settled : (r : Report) → o.0 ≡ ok r → All (λ c. is_settled disks o.1.declared c ≡ true) cs

  adopt_volumes-AllAdopted :
      (cs : List Candidate) (r : Report) (s : Store W)
      → IsTable s.declared
      → AllAdopted cs s (adopt_volumes mount disks cs r s)
  unfolding adopt_volumes
  adopt_volumes-AllAdopted [] r s table = record {
    table = table;
    grown = ([], sym (append-nil s.declared));
    settled = λ r' h. tt;
  }
  adopt_volumes-AllAdopted (c ∷ cs) r s table =
      go (adopt_volumes-AllAdopted cs) (adopt_found mount disks c (option_or_none c.fs_uuid) r s)
        (adopt_found-Adopted c r s table)
    where
      go :
          ((r : Report) (s : Store W)
            → IsTable s.declared
            → AllAdopted cs s (adopt_volumes mount disks cs r s))
          → (o : Outcome W) → Adopted c s o
          → AllAdopted (c ∷ cs) s (continue o.0 (adopt_volumes mount disks cs) o.1)
      go rest (err e, s') one = record {
        table = one.table;
        grown = one.grown;
        settled = λ r' h. absurd (cc);
      }
      go rest (ok r1, s') one =
          let later = rest r1 s' one.table in
          let (new, at) = one.grown in
          let (more, at') = later.grown in
          record {
            table = later.table;
            grown = (
              new ++ more,
              at' ∙ ap (λ rows. rows ++ more) at ∙ append_assoc s.declared new more,
            );
            settled = λ r' h. (
              subst (λ rows. is_settled disks rows c ≡ true) (sym at')
                  (settled-append disks s'.declared more c (one.settled r1 refl)),
              later.settled r' h,
            );
          }

  -- volumes that are settled are not adopted again
  settled-again :
      (c : Candidate) (u : Option String) (r : Report) (s : Store W)
      → is_settled_as disks s.declared c u ≡ true
      → (r' : Report) × (adopt_found mount disks c u r s ≡ (ok r', s)) × (r'.adopted ≡ r.adopted)
  settled-again c none r s h = (_, refl, refl)
  settled-again c (some uuid) r s h = elim (Option-cases (declared_as uuid s.declared)) [
    | inr (e, declared) ↦ rw declared (_, refl, refl)
    | inl unknown ↦ elim (Option-cases (disk_of disks c)) [
      | inl no_disk ↦ rw (unknown, no_disk) (_, refl, refl)
      | inr (d, known) ↦ absurd (ground arith)
    ]
  ]

  adopt_volumes-again :
      (cs : List Candidate) (r : Report) (s : Store W)
      → All (λ c. is_settled disks s.declared c ≡ true) cs
      → (r' : Report) × (adopt_volumes mount disks cs r s ≡ (ok r', s)) × (r'.adopted ≡ r.adopted)
  unfolding adopt_volumes
  adopt_volumes-again [] r s all = (r, refl, refl)
  adopt_volumes-again (c ∷ cs) r s (h, all) =
      let (r1, first, same) = settled-again c (option_or_none c.fs_uuid) r s h in
      let (r2, rest, same') = adopt_volumes-again cs r1 s all in (r2, rw first rest, same' ∙ same)

  -- Where the volumes of the declared disks are different, and so are the disks, an adoption that
  -- returns only adds rows, keeps both different, and leaves every volume declared that has a UUID
  -- and lies on a known disk. Done again it returns, changes nothing and adopts nothing.
  pub adopt_volumes_lem :
      (cs : List Candidate) (s : Store W) (r : Report)
      → IsTable s.declared
      → (adopt_volumes mount disks cs nothing_yet s).0 ≡ ok r
      → let s' = (adopt_volumes mount disks cs nothing_yet s).1 in
        IsTable s'.declared
        × ((new : List DeclaredDisk) × (s'.declared ≡ s.declared ++ new))
        × All (λ c. is_settled disks s'.declared c ≡ true) cs
        × ((r' : Report) × (adopt_volumes mount disks cs nothing_yet s' ≡ (ok r', s'))
            × (r'.adopted ≡ []))
  adopt_volumes_lem cs s r table returned =
      let done = adopt_volumes-AllAdopted cs nothing_yet s table in
      let settled = done.settled r returned in
      (
        done.table,
        done.grown,
        settled,
        adopt_volumes-again cs nothing_yet (adopt_volumes mount disks cs nothing_yet s).1 settled,
      )
