-- ===== src/BackupGroup/Groups/Links.antt =====
-- The links of a group to its datasets, and what goes with a group.
use nazman.Prelude.{
  ℕ, ◌≡◌, refl, ap, String, Bool, true, false, not, none, List, [], ◌∷◌, map, select, any,
  update_where, Result, ok, err, ◌>>=◌, ◌==◌, ==_self, ==_iff, find?-some-holds, str_eq_self,
  Bool-cases, inl, inr, or_raise_ind, guard_not_ind, find?,
}
use nazman.Prelude.Occurs.{Occurs-append_last, Occurs-any}
use nazman.Validation.{Invalid, validate_dataset_name}
use nazman.BackupGroup.Rows.{Db, Group, GroupDataset, BackupSet, BackupDisk, Session}
use nazman.BackupGroup.Tables.{
  get_group, is_session_running, group_not_found, session_running, Error,
}
use nazman.BackupGroup.Groups.{
  link_dataset, link_if_new, is_link, add_row, drop_group, delete_group,
}

linked :
    (group_id : ℕ) (name : String) (db : Db)
    → any (is_link group_id name) (add_row group_id name db).datasets ≡ true
linked group_id name db =
    Occurs-any (is_link group_id name) _ (add_row group_id name db).datasets
      (Occurs-append_last _ db.datasets) (rw (==_self group_id, str_eq_self name) refl)

once :
    (group_id : ℕ) (name : String) (db : Db) (b : Bool)
    → any (is_link group_id name) db.datasets ≡ b
    → let after = link_if_new b group_id name db in
      link_if_new (any (is_link group_id name) after.datasets) group_id name after ≡ after
once group_id name db true e = rw e refl
once group_id name db false e = rw (linked group_id name db) refl

-- Linking a dataset to a group a second time changes nothing, and neither does a refused link.
link_dataset_lem :
    (group_id : ℕ) (dataset_name : String) (db : Db)
    → let after = (link_dataset group_id dataset_name db).1 in
      (link_dataset group_id dataset_name after).1 ≡ after
unfolding link_dataset ◌>>=◌
link_dataset_lem group_id dataset_name db = go (validate_dataset_name dataset_name) refl
  where
    go :
        (v : Result Invalid String)
        → validate_dataset_name dataset_name ≡ v
        → let after = (link_dataset group_id dataset_name db).1 in
          (link_dataset group_id dataset_name after).1 ≡ after
    go (err e) h = rw h refl
    go (ok name) h = rw h (once group_id name db (any (is_link group_id name) db.datasets) refl)

select-gone : {A : Type 0} (p : A → Bool) (xs : List A) → any p (select (λ x. not (p x)) xs) ≡ false
select-gone p [] = refl
select-gone p (x ∷ xs) = elim (Bool-cases (p x)) [
  | inl e ↦ rw e (select-gone p xs)
  | inr e ↦ rw (e, select-gone p xs, e) refl
]

kept_ids :
    (p : BackupDisk → Bool) (disks : List BackupDisk)
    → map (λ d. d.id) (update_where p (λ d. record d { backup_set_id = none }) disks)
      ≡ map (λ d. d.id) disks
kept_ids p [] = refl
kept_ids p (d ∷ ds) = elim (Bool-cases (p d)) [
  | inl e ↦ rw e (ap (λ ids. d.id ∷ ids) (kept_ids p ds))
  | inr e ↦ rw e (ap (λ ids. d.id ∷ ids) (kept_ids p ds))
]

-- A group that was deleted has left no set, no session and no dataset, and every disk is still
-- declared.
pub delete_group_lem :
    (group_id n : ℕ) (db : Db)
    → (delete_group group_id db).0 ≡ ok n
    → (any (λ s. s.group_id == group_id) (delete_group group_id db).1.sets ≡ false)
      × (any (λ s. s.group_id == group_id) (delete_group group_id db).1.sessions ≡ false)
      × (any (λ d. d.group_id == group_id) (delete_group group_id db).1.datasets ≡ false)
      × (map (λ d. d.id) (delete_group group_id db).1.disks ≡ map (λ d. d.id) db.disks)
unfolding delete_group get_group
delete_group_lem group_id n db =
    let Q = λ (r : Result Error ℕ × Db).
      r.0 ≡ ok n
      → (any (λ s. s.group_id == group_id) r.1.sets ≡ false)
        × (any (λ s. s.group_id == group_id) r.1.sessions ≡ false)
        × (any (λ d. d.group_id == group_id) r.1.datasets ≡ false)
        × (map (λ d. d.id) r.1.disks ≡ map (λ d. d.id) db.disks) in
    or_raise_ind Q (find? (λ g. g.id == group_id) db.groups) (group_not_found group_id) _ db
      (λ _ h. absurd (cc))
      λ group found.
        guard_not_ind Q (is_session_running group_id db) session_running _ db (λ _ h. absurd (cc))
          λ idle h. dropped group.id (
            (==_iff group.id group_id).0
              (find?-some-holds (λ (g : Group). g.id == group_id) db.groups group found))
  where
    dropped :
        (m : ℕ)
        → m ≡ group_id
        → (any (λ s. s.group_id == group_id) (drop_group m db).sets ≡ false)
          × (any (λ s. s.group_id == group_id) (drop_group m db).sessions ≡ false)
          × (any (λ d. d.group_id == group_id) (drop_group m db).datasets ≡ false)
          × (map (λ d. d.id) (drop_group m db).disks ≡ map (λ d. d.id) db.disks)
    dropped m same = rw same (
      select-gone (λ (s : BackupSet). s.group_id == group_id) db.sets,
      select-gone (λ (s : Session). s.group_id == group_id) db.sessions,
      select-gone (λ (d : GroupDataset). d.group_id == group_id) db.datasets,
      kept_ids _ db.disks,
    )
