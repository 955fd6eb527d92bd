-- ===== src/BackupGroup/Disks/Detached.antt =====
-- What `detach_disk` leaves behind: it clears the disk's membership before it deregisters the
-- disk, so that the set is not found any more and its pointer is not realigned.
use nazman.Prelude.{
  ℕ, ◌≡◌, refl, ap, ◌∙◌, Bool, true, false, not, ◌&&◌, Option, none, some, List, [], ◌∷◌, find?,
  find?-some-holds, select, update_where, holds, or_raise_ind, continue_ind, pure, ◌>>=◌, ◌>>◌,
  guard_not_ind, Result, ok, err, ◌==◌, ==_iff, arith, String,
}
use nazman.BackupGroup.Rows.{Db, BackupSet, BackupDisk}
use nazman.BackupGroup.Tables.{
  Error, get_set, is_session_running, set_not_found, session_running, disk_not_in_set,
  disk_not_found,
}
use nazman.BackupGroup.Disks.{
  deregister_backup_disk, detach_disk, update_disk_row, realign_owner, owner, chain_dependencies,
}

nothing_left :
    (n : ℕ) (disks : List BackupDisk)
    → find? (λ d. d.id == n) (select (λ d. not (d.id == n)) disks) ≡ none
nothing_left n [] = refl
nothing_left n (d ∷ ds) = ground (arith, nothing_left n ds)

-- After a call on disk `n` that began with the tables `db`: no set has changed, and if the call
-- returned there is no disk `n` any more.
record Left {A : Type 0} (n : ℕ) (db : Db) (r : Result Error A × Db) : Type 0 where
  sets : r.1.sets ≡ db.sets
  gone : (a : A) → r.0 ≡ ok a → find? (λ d. d.id == n) r.1.disks ≡ none

Left-err : {A : Type 0} (n : ℕ) (db : Db) (e : Error) → Left {A = A} n db (err e, db)
Left-err n db e = record { sets = refl; gone = λ a h. absurd (cc) }

-- a disk that is in no set is deregistered without a look at any set
Left-deregister :
    (n : ℕ) (db : Db)
    → ((d : BackupDisk) → find? (λ d. d.id == n) db.disks ≡ some d → d.backup_set_id ≡ none)
    → Left n db (deregister_backup_disk n db)
unfolding deregister_backup_disk
Left-deregister n db unfiled =
    or_raise_ind (Left n db) (find? (λ d. d.id == n) db.disks) disk_not_found _ db
      (λ _. Left-err n db disk_not_found)
      λ rec found.
        let left : Db = record db { runs = select (λ r. not (r.backup_disk_id == n)) db.runs } in
        let named =
          (==_iff rec.id n).0
            (find?-some-holds (λ (d : BackupDisk). d.id == n) db.disks rec found) in
        let same : realign_owner rec (owner rec.backup_set_id left) left ≡ left =
          ap (λ (o : Option ℕ). realign_owner rec (owner o left) left) (unfiled rec found) in
        record {
          sets = ap (λ (x : Db). x.sets) same;
          gone = λ a h.
              ap (λ (x : Db). find? (λ d. d.id == n) (select (λ d. not (d.id == rec.id)) x.disks))
                same
              ∙ ap (λ (m : ℕ). find? (λ d. d.id == n) (select (λ d. not (d.id == m)) db.disks))
                  named
              ∙ nothing_left n db.disks;
        }

and_left : (a b : Bool) → (a && b) ≡ true → a ≡ true
and_left true b h = refl
and_left false b h = h

-- the disk whose membership was cleared is found with none
unfiled_cleared :
    (n : ℕ) (rec : BackupDisk) (disks : List BackupDisk) (d : BackupDisk)
    → rec.id ≡ n
    → find?
        (λ d. d.id == n)
        (update_where (λ d. d.id == rec.id) (λ d. record d { backup_set_id = none }) disks)
      ≡ some d
    → d.backup_set_id ≡ none
unfiled_cleared n rec [] d named h = absurd (cc)
unfiled_cleared n rec (x ∷ xs) d named h = ground (arith, unfiled_cleared n rec xs d named)

module _ (set_id disk_id : ℕ) (db : Db) where
  abbrev cleared : BackupDisk → Db
  cleared rec = update_disk_row rec.id (λ d. record d { backup_set_id = none }) db

  -- the deregistration that follows, and the return of the list of datasets
  Left-then :
      (bset : BackupSet) (rec : BackupDisk)
      → find? (λ d. d.id == disk_id && holds d.backup_set_id bset.id) db.disks ≡ some rec
      → Left disk_id db (
          (deregister_backup_disk disk_id >> pure (chain_dependencies bset.id disk_id db))
            (cleared rec))
  unfolding ◌>>=◌
  Left-then bset rec found =
      let test = λ (d : BackupDisk). d.id == disk_id && holds d.backup_set_id bset.id in
      let named = (==_iff rec.id disk_id).0 (
        and_left (rec.id == disk_id) (holds rec.backup_set_id bset.id)
          (find?-some-holds test db.disks rec found)) in
      let done =
        Left-deregister disk_id (cleared rec)
          (λ d there. unfiled_cleared disk_id rec db.disks d named there) in
      let after = deregister_backup_disk disk_id (cleared rec) in
      continue_ind (Left disk_id db) after.0 (λ _. pure (chain_dependencies bset.id disk_id db))
        after.1 (λ e h. record { sets = done.sets; gone = λ a k. absurd (cc) })
        (λ a h. record { sets = done.sets; gone = λ _ _. done.gone a h })

  Left-detach_disk : Left disk_id db (detach_disk set_id disk_id db)
  unfolding detach_disk get_set
  Left-detach_disk =
      or_raise_ind (Left disk_id db) (find? (λ s. s.id == set_id) db.sets) (set_not_found set_id) _
        db (λ _. Left-err disk_id db (set_not_found set_id))
        λ bset _.
          or_raise_ind (Left disk_id db)
            (find? (λ d. d.id == disk_id && holds d.backup_set_id bset.id) db.disks) disk_not_in_set
            _ db (λ _. Left-err disk_id db disk_not_in_set)
            λ rec found.
              guard_not_ind (Left disk_id db) (is_session_running bset.group_id db) session_running
                _ db (λ _. Left-err disk_id db session_running) λ _. Left-then bset rec found

  -- When `detach_disk` returns, the disk is gone from the table of disks, and no set has changed:
  -- a set whose pointer was at the disk still points at it.
  pub detach_disk_lem :
      (broken : List String)
      → (detach_disk set_id disk_id db).0 ≡ ok broken
      → ((detach_disk set_id disk_id db).1.sets ≡ db.sets)
        × (find? (λ d. d.id == disk_id) (detach_disk set_id disk_id db).1.disks ≡ none)
  detach_disk_lem broken returned = (Left-detach_disk.sets, Left-detach_disk.gone broken returned)
