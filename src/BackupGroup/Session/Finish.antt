-- ===== src/BackupGroup/Session/Finish.antt =====
-- The end of a session: `_finish`, the rotation of the group and the alert, and
-- `_execute_session`.
use nazman.Prelude.{
  ℕ, String, true, false, Option, none, some, List, [], ◌∷◌, ◌++◌, length, map, ok, pure, gets,
  modify, ◌>>=◌, ◌>>◌,
}
use nazman.BackupGroup.Rows.{
  BackupSet, BackupDisk, Note, SessionStatus, SessionError, resolving, no_backup_sets,
  copies_written,
}
use nazman.BackupGroup.Cycle.{target_sets, active_set, rotate}
use nazman.BackupGroup.Session.{Alert, Severity}
use nazman.BackupGroup.Session.Media.{Media, Act, with_session, with_group, with_set, note, alert}
use nazman.BackupGroup.Session.Writes.{Tally, nothing_yet}
use nazman.BackupGroup.Session.Execute.{Written, verdict, write_sets}

module _ {W : Type 0} (media : Media W) (now : ℕ) where
  abbrev pub new_notes : List Note → List Note → List Note
  new_notes [] old = old
  new_notes (n ∷ ns) old = n ∷ ns

  unfoldable pub finish : SessionStatus → Option SessionError → Tally → Act W SessionStatus
  finish status error t = do
    notes ← gets (λ c. c.notes)
    with_session (λ s. record s {
      status = status;
      error = error;
      notes = new_notes notes s.notes;
      datasets_done = t.done;
      datasets_skipped = t.skipped;
      datasets_failed = t.failed;
      bytes_written = t.total_bytes;
      phase = none;
      completed_at = some now;
    })
    pure status

  unfoldable pub mark_used : List BackupSet → Act W Unit
  mark_used [] = pure tt
  mark_used (s ∷ ss) =
      let rest = mark_used ss in do with_set s.id (λ b. record b { last_used_at = some now }); rest

  abbrev pub capture : List BackupDisk → Act W Unit
  capture recs = modify (λ c. record c { captured = c.captured ++ map (λ d. d.id) recs })

  -- a session that wrote something moves the group past the sets that it wrote
  abbrev pub rotate_group : List BackupSet → BackupSet → List BackupSet → Act W (Option ℕ)
  rotate_group sets bset targets c =
      let (group', rotated_to) = rotate c.group sets bset (length targets) in
      (
        ok rotated_to,
        record c { group = record group' { needs_disk = false; last_session_at = some now } },
      )

  abbrev pub after_writes :
      SessionStatus
      → List BackupSet
      → BackupSet
      → List BackupSet
      → List BackupDisk
      → Act W (Option ℕ)
  after_writes SessionStatus.failed sets bset targets recs = pure none
  after_writes _ sets bset targets recs = do
    mark_used targets
    rotated_to ← rotate_group sets bset targets
    capture recs
    pure rotated_to

  abbrev pub notify_finished : BackupSet → SessionStatus → Option ℕ → Act W Unit
  notify_finished bset SessionStatus.needs_disk rotated_to = pure tt
  notify_finished bset SessionStatus.failed rotated_to = do
    group ← gets (λ c. c.group)
    alert (Alert.failed group.id bset.id)
  notify_finished bset SessionStatus.partial rotated_to = do
    group ← gets (λ c. c.group)
    alert (Alert.complete group.id bset.id Severity.warning rotated_to)
  notify_finished bset status rotated_to = do
    group ← gets (λ c. c.group)
    alert (Alert.complete group.id bset.id Severity.info rotated_to)

  abbrev pub after_sets :
      List BackupSet
      → BackupSet
      → List BackupSet
      → Written
      → Option (BackupSet × SessionError × Option String)
      → Act W SessionStatus
  after_sets sets bset targets written (some (cur, error, dataset)) = do
    with_group (λ g. record g { needs_disk = true })
    group ← gets (λ c. c.group)
    alert (Alert.needs_disk group.id cur.id dataset)
    finish SessionStatus.needs_disk (some error) written.tally
  after_sets sets bset targets written none = do
    let status = verdict written.tally
    rotated_to ← after_writes status sets bset targets written.recs
    finish status none written.tally
    notify_finished bset status rotated_to
    pure status

  abbrev pub note_copies : List BackupSet → Act W Unit
  note_copies (a ∷ b ∷ rest) = note (copies_written (map (λ s. s.id) (a ∷ b ∷ rest)))
  note_copies _ = pure tt

  -- the session on a group that has sets, the first of them given
  abbrev pub on_sets : List BackupSet → Act W SessionStatus
  on_sets [] = finish SessionStatus.failed (some no_backup_sets) nothing_yet
  on_sets (first ∷ rest) = do
    chosen ← gets (λ c. active_set c.group first rest)
    let sets = first ∷ rest
    let bset = chosen.1
    with_group (λ _. chosen.0)
    let targets = target_sets chosen.0 sets bset
    with_session (λ s. record s { backup_set_id = some bset.id; phase = some resolving })
    note_copies targets
    datasets ← gets (λ c. c.datasets)
    written ← write_sets media now targets datasets nothing_yet []
    after_sets sets bset targets written written.stopped

  unfoldable pub execute_session : Act W SessionStatus
  unfolding finish mark_used write_sets
  execute_session = do sets ← gets (λ c. c.sets); on_sets sets
