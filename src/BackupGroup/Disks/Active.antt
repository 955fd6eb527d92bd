-- ===== src/BackupGroup/Disks/Active.antt =====
-- A set's pointer is at one of its own disks, after `advance_disk` and `set_active_disk`.
use nazman.Prelude.{
  ℕ, zero, suc, ◌≡◌, refl, sym, ap, ◌∙◌, Bool, true, false, ◌&&◌, Option, some, List, [], ◌∷◌,
  find?, find?-some-holds, is_empty, holds, or_raise_ind, guard_not_ind, ◌==◌, ==_iff, Bool-cases,
  inl, inr,
}
use nazman.Prelude.Occurs.{Occurs, Occurs-cons, Occurs-select, Occurs-update_where, find?-Occurs}
use nazman.BackupGroup.Rows.{Db, BackupSet, BackupDisk}
use nazman.BackupGroup.Tables.{
  get_set, set_disks, is_session_running, update_set_row, set_not_found, session_running, no_disks,
  disk_not_in_set,
}
use nazman.BackupGroup.Disks.{advance_disk, set_active_disk, nth_id, next_index}

-- Disk `a` is declared and filed under set `n`.
pub record Filed (disks : List BackupDisk) (n a : ℕ) : Type 0 where
  pub disk : BackupDisk
  pub listed : Occurs disk disks
  pub named : disk.id ≡ a
  pub filed : holds disk.backup_set_id n ≡ true

-- Every set that points at a disk points at one of its own.
abbrev pub IsFiled : Db → Type 0
IsFiled db =
    (s : BackupSet) (a : ℕ) → Occurs s db.sets → s.active_disk_id ≡ some a → Filed db.disks s.id a

both : (a b : Bool) → (a && b) ≡ true → (a ≡ true) × (b ≡ true)
both true b h = (refl, h)
both false b h = absurd (cc)

nth_id-Occurs :
    (disks : List BackupDisk) (i a : ℕ)
    → nth_id disks i ≡ some a
    → (d : BackupDisk) × Occurs d disks × (d.id ≡ a)
nth_id-Occurs [] i a h = absurd (cc)
nth_id-Occurs (d ∷ ds) zero a h = (d, (0, refl), cc)
nth_id-Occurs (d ∷ ds) (suc i) a h =
    let (x, there, named) = nth_id-Occurs ds i a h in (x, Occurs-cons x d ds there, named)

module _ (db : Db) (filed : IsFiled db) where
  -- a new pointer that is at a disk of its set
  pointed :
      (n : ℕ) (p : Option ℕ)
      → ((a : ℕ) → p ≡ some a → Filed db.disks n a)
      → IsFiled (update_set_row n (λ s. record s { active_disk_id = p }) db)
  pointed n p own s a listed points =
      let here = λ (x : BackupSet). x.id == n in
      let (x, there, same) =
        Occurs-update_where here (λ y. record y { active_disk_id = p }) db.sets s listed in
      elim (Bool-cases (here x)) [
        | inl mine ↦
            let new = rw mine at same in
            let id_n : s.id ≡ n = ap (λ (y : BackupSet). y.id) new ∙ (==_iff x.id n).0 mine in
            rw id_n (own a (ap (λ (y : BackupSet). y.active_disk_id) (sym new) ∙ points))
        | inr other ↦
            let old = rw other at same in
            rw old (filed x a there (ap (λ (y : BackupSet). y.active_disk_id) (sym old) ∙ points))
      ]

  set_id_of :
      (set_id : ℕ) (bset : BackupSet)
      → find? (λ s. s.id == set_id) db.sets ≡ some bset
      → bset.id ≡ set_id
  set_id_of set_id bset found =
      (==_iff bset.id set_id).0
        (find?-some-holds (λ (s : BackupSet). s.id == set_id) db.sets bset found)

  IsFiled-advance_disk : (set_id : ℕ) → IsFiled (advance_disk set_id db).1
  unfolding advance_disk get_set set_disks
  IsFiled-advance_disk set_id =
      or_raise_ind (λ r. IsFiled r.1) (find? (λ s. s.id == set_id) db.sets) (set_not_found set_id) _
        db (λ _. filed)
        λ bset found.
          guard_not_ind (λ r. IsFiled r.1) (is_session_running bset.group_id db) session_running _
            db (λ _. filed)
            λ _.
              guard_not_ind (λ r. IsFiled r.1) (is_empty (set_disks set_id db)) no_disks _ db
                (λ _. filed)
                λ _. pointed bset.id _ λ a points.
                  let (d, there, named) =
                    nth_id-Occurs (set_disks set_id db)
                      (next_index (set_disks set_id db) bset.active_disk_id) a points in
                  let (listed, in_set) =
                    Occurs-select (λ (x : BackupDisk). holds x.backup_set_id set_id) d db.disks
                      there in
                  record {
                    disk = d;
                    listed = listed;
                    named = named;
                    filed = rw (set_id_of set_id bset found) in_set;
                  }

  IsFiled-set_active_disk : (set_id disk_id : ℕ) → IsFiled (set_active_disk set_id disk_id db).1
  unfolding set_active_disk get_set
  IsFiled-set_active_disk set_id disk_id =
      or_raise_ind (λ r. IsFiled r.1) (find? (λ s. s.id == set_id) db.sets) (set_not_found set_id) _
        db (λ _. filed)
        λ bset found.
          guard_not_ind (λ r. IsFiled r.1) (is_session_running bset.group_id db) session_running _
            db (λ _. filed)
            λ _.
              let test = λ (d : BackupDisk). d.id == disk_id && holds d.backup_set_id bset.id in
              or_raise_ind (λ r. IsFiled r.1) (find? test db.disks) disk_not_in_set _ db
                (λ _. filed)
                λ rec chosen. pointed bset.id _ λ a points. record {
                  disk = rec;
                  listed = find?-Occurs test db.disks rec chosen;
                  named = cc;
                  filed =
                      (both (rec.id == disk_id) (holds rec.backup_set_id bset.id)
                        (find?-some-holds test db.disks rec chosen)).1;
                }

  -- Where every set that points at a disk points at one of its own, it still does after
  -- `advance_disk`, whether the call went through or was refused.
  pub advance_disk_lem :
      (set_id : ℕ) (s : BackupSet) (a : ℕ)
      → Occurs s (advance_disk set_id db).1.sets
      → s.active_disk_id ≡ some a
      → Filed (advance_disk set_id db).1.disks s.id a
  advance_disk_lem = IsFiled-advance_disk

  -- Where every set that points at a disk points at one of its own, it still does after
  -- `set_active_disk`, whether the call went through or was refused.
  set_active_disk_lem :
      (set_id disk_id : ℕ) (s : BackupSet) (a : ℕ)
      → Occurs s (set_active_disk set_id disk_id db).1.sets
      → s.active_disk_id ≡ some a
      → Filed (set_active_disk set_id disk_id db).1.disks s.id a
  set_active_disk_lem = IsFiled-set_active_disk
