-- ===== src/BackupGroup/Starts/Running.antt =====
-- At most one session of a group runs, and none does after a restart.
use nazman.Prelude.{
  ℕ, ◌+◌, ◌≤◌, ◌≡◌, refl, sym, ◌∙◌, String, Bool, false, ◌&&◌, List, [], ◌∷◌, ◌++◌, length, select,
  any, Result, ◌==◌, arith, Bool-cases, inl, inr, or_raise_ind, guard_not_ind, find?, is_empty,
  str_eq, ==_iff, find?-some-holds,
}
use nazman.BackupGroup.Rows.{Db, Group, Session, BackupType, full, incremental}
use nazman.BackupGroup.Tables.{
  Error, get_group, group_datasets, group_sets, is_running, is_session_running, group_not_found,
  no_datasets, no_backup_sets, already_running,
}
use nazman.BackupGroup.Starts.{check_trigger, start_after, start_session, add_session, new_session}

abbrev runs_for : ℕ → Session → Bool
runs_for group_id s = s.group_id == group_id && is_running s.status

-- the sessions of a group that are running
unfoldable pub running_of : ℕ → List Session → ℕ
running_of group_id sessions = length (select (runs_for group_id) sessions)

any-select : (p : Session → Bool) (xs : List Session) → any p xs ≡ false → length (select p xs) ≡ 0
any-select p [] h = refl
any-select p (x ∷ xs) h = elim (Bool-cases (p x)) [
  | inl e ↦ absurd (let h' = rw e at h in cc)
  | inr e ↦ rw e (any-select p xs (rw e at h))
]

select-append :
    (p : Session → Bool) (xs ys : List Session)
    → length (select p (xs ++ ys)) ≡ length (select p xs) + length (select p ys)
select-append p [] ys = omega arith
select-append p (x ∷ xs) ys = ground (arith, select-append p xs ys)

module _ (group_id : ℕ) (db : Db) (before : (g : ℕ) → running_of g db.sessions ≤ 1) where
  abbrev AtMostOne : {A : Type 0} → Result Error A × Db → Type 0
  AtMostOne r = (g : ℕ) → running_of g r.1.sessions ≤ 1

  added :
      (group : Group) (trigger : BackupType) (total n : ℕ)
      → group.id ≡ group_id
      → is_session_running group_id db ≡ false
      → (g : ℕ) → running_of g (add_session (new_session group.id trigger total n) db).sessions ≤ 1
  unfolding running_of is_session_running
  added group trigger total n same idle g =
      let new = new_session group.id trigger total n in
      let split = select-append (runs_for g) db.sessions (new ∷ []) in
      elim (Bool-cases (group.id == g)) [
        | inl e ↦
            let here : length (select (runs_for g) (new ∷ [])) ≡ 1 = rw e refl in
            let g_is : g ≡ group_id = sym ((==_iff group.id g).0 e) ∙ same in
            let none_yet = any-select (runs_for g) db.sessions (rw g_is idle) in omega arith
        | inr e ↦
            let here : length (select (runs_for g) (new ∷ [])) ≡ 0 = rw e refl in
            omega (arith, before g)
      ]

  started : (trigger : BackupType) → AtMostOne (start_after group_id trigger db)
  unfolding start_after get_group
  started trigger =
      or_raise_ind AtMostOne (find? (λ g. g.id == group_id) db.groups) (group_not_found group_id) _
        db (λ _. before)
        λ group found.
          guard_not_ind AtMostOne (is_empty (group_datasets group_id db)) no_datasets _ db
            (λ _. before)
            λ _.
              guard_not_ind AtMostOne (is_empty (group_sets group_id db)) no_backup_sets _ db
                (λ _. before)
                λ _.
                  guard_not_ind AtMostOne (is_session_running group_id db) already_running _ db
                    (λ _. before)
                    λ idle.
                      added group trigger (length (group_datasets group_id db)) db.next_id
                        ((==_iff group.id group_id).0 (
                          find?-some-holds (λ (g : Group). g.id == group_id) db.groups group found))
                        idle

  -- If no group has two running sessions, none has after a call of `start_session`.
  pub start_session_lem :
      (backup_type : String) (g : ℕ)
      → running_of g (start_session group_id backup_type db).1.sessions ≤ 1
  unfolding start_session check_trigger
  start_session_lem backup_type = elim (Bool-cases (str_eq backup_type "full")) [
    | inl e ↦ rw e (started full)
    | inr e ↦ elim (Bool-cases (str_eq backup_type "incremental")) [
      | inl e' ↦ rw (e, e') (started incremental)
      | inr e' ↦ rw (e, e') before
    ]
  ]
