-- ===== src/BackupGroup/Session/Execute.antt =====
-- The loops of `_write_one_set` and `_execute_session`, and `_finish`.
use nazman.Prelude.{
  ℕ, ◌+◌, String, not, ◌&&◌, ◌||◌, Option, none, some, List, [], ◌∷◌, ◌++◌, is_some, pure, gets,
  ◌>>=◌, ◌>>◌, ltb, if◌then◌else◌,
}
use nazman.BackupGroup.Rows.{
  BackupSet, BackupDisk, Run, SessionStatus, BackupType, SessionError, full, snapshotting, sending,
  no_usable_disk, no_room_for, first_full, advanced_to, promoted,
}
use nazman.BackupGroup.Session.{Alert}
use nazman.BackupGroup.Session.Media.{
  Media, Sent, SendStatus, Act, lift, with_session, with_run, note, alert,
}
use nazman.BackupGroup.Session.Writes.{
  Tally, nothing_yet, Outcome, is_incremental, disk_written_this_session, active_disk,
  advance_for_space, new_run, send, record_missing, update_progress, pending_again,
  recycle_for_space,
}

-- What follows the write of one dataset: the next one, on this disk, or the end of the session.
pub data Step : Type 0 where
  next : BackupDisk → Tally → Step
  blocked : Outcome → Step

abbrev pub count_done : ℕ → Tally → Tally
count_done bytes t = record t { done = t.done + 1; total_bytes = t.total_bytes + bytes }

abbrev pub count_skipped : Tally → Tally
count_skipped t = record t { skipped = t.skipped + 1 }

abbrev pub count_failed : Tally → Tally
count_failed t = record t { failed = t.failed + 1 }

-- What the loop over the target sets returns.
pub record Written : Type 0 where
  pub tally : Tally
  pub recs : List BackupDisk
  pub stopped : Option (BackupSet × SessionError × Option String)

abbrev pub add_tally : Tally → Tally → Tally
add_tally a b = record {
  done = a.done + b.done;
  skipped = a.skipped + b.skipped;
  failed = a.failed + b.failed;
  total_bytes = a.total_bytes + b.total_bytes;
}

-- The status of a session that no set has blocked.
abbrev pub verdict : Tally → SessionStatus
verdict t =
    if ltb 0 t.failed
    then if ltb 0 t.done || ltb 0 t.skipped then SessionStatus.partial else SessionStatus.failed
    else SessionStatus.success

module _ {W : Type 0} (media : Media W) (now : ℕ) where
  unfoldable pub progress : BackupDisk → Tally → Act W Step
  unfolding update_progress
  progress rec t = do update_progress media now t; pure (next rec t)

  abbrev pub tell_promoted : BackupSet → String → Run → Act W Unit
  tell_promoted bset dataset run =
      if is_some run.promoted_from
      then (do note (promoted dataset); alert (Alert.promoted bset.id dataset))
      else pure tt

  -- the last part of the loop's body, by the status that the write came back with
  abbrev pub count_as : BackupSet → String → BackupDisk → Tally → Run → SendStatus → Act W Step
  count_as bset dataset rec t run SendStatus.success = do
    tell_promoted bset dataset run
    progress rec (count_done run.size_bytes t)
  count_as bset dataset rec t run SendStatus.skipped = progress rec (count_skipped t)
  count_as bset dataset rec t run SendStatus.failed = progress rec (count_failed t)
  count_as bset dataset rec t run (SendStatus.needs_space needed) = progress rec (count_failed t)

  unfoldable pub count_sent : BackupSet → String → BackupDisk → Tally → Sent → Act W Step
  unfolding progress
  count_sent bset dataset rec t sent = count_as bset dataset rec t sent.run sent.status

  abbrev pub stop_for_room : BackupSet → String → BackupDisk → Tally → Step
  stop_for_room bset dataset rec t = blocked (record {
    tally = count_failed t;
    stopped = some (no_room_for bset.id dataset, some dataset);
    last_rec = some rec;
  })

  abbrev pub after_recycling : BackupSet → String → BackupDisk → Tally → Option Sent → Act W Step
  after_recycling bset dataset rec t none = pure (stop_for_room bset dataset rec t)
  after_recycling bset dataset rec t (some sent) = count_sent bset dataset rec t sent

  -- a full disk: the next one of the set with room, else the disk itself, wiped
  abbrev pub after_advance :
      BackupSet → String → BackupDisk → Run → Tally → Option BackupDisk → Act W Step
  after_advance bset dataset rec run t (some moved) = do
    with_session (λ s. record s { backup_disk_id = some moved.id })
    note (advanced_to moved.id dataset)
    with_run run.id (pending_again moved.id)
    sent ← send media now moved (pending_again moved.id run)
    count_sent bset dataset moved t sent
  after_advance bset dataset rec run t none = do
    may_recycle ← gets (λ c. c.group.recycle_full_disks && not (disk_written_this_session rec.id c))
    if may_recycle
        then (do
          recycled ← recycle_for_space media now rec run
          after_recycling bset dataset rec t recycled)
        else pure (stop_for_room bset dataset rec t)

  abbrev pub after_status : BackupSet → String → BackupDisk → Tally → Sent → SendStatus → Act W Step
  after_status bset dataset rec t sent (SendStatus.needs_space needed) = do
    moved ← advance_for_space media now bset rec needed
    after_advance bset dataset rec sent.run t moved
  after_status bset dataset rec t sent SendStatus.success = count_sent bset dataset rec t sent
  after_status bset dataset rec t sent SendStatus.skipped = count_sent bset dataset rec t sent
  after_status bset dataset rec t sent SendStatus.failed = count_sent bset dataset rec t sent

  abbrev pub after_send : BackupSet → String → BackupDisk → Tally → Sent → Act W Step
  after_send bset dataset rec t sent = after_status bset dataset rec t sent sent.status

  -- the body of the loop over the datasets
  unfoldable pub write_dataset : BackupSet → BackupType → String → BackupDisk → Tally → Act W Step
  unfolding count_sent
  write_dataset bset trigger dataset rec t = do
    exists ← lift (media.dataset_exists dataset)
    if exists
        then (do
          with_session (λ s. record s { phase = some sending })
          run ← new_run media now dataset trigger rec (some bset.id)
          sent ← send media now rec run
          after_send bset dataset rec t sent)
        else (do record_missing media now dataset rec; progress rec (count_failed t))

  abbrev pub after_step : (BackupDisk → Tally → Act W Outcome) → Step → Act W Outcome
  after_step goes_on (next rec t) = goes_on rec t
  after_step goes_on (blocked out) = pure out

  unfoldable pub write_datasets :
      BackupSet → BackupType → List String → BackupDisk → Tally → Act W Outcome
  write_datasets bset trigger [] rec t =
      pure (record { tally = t; stopped = none; last_rec = some rec })
  write_datasets bset trigger (dataset ∷ rest) rec t =
      let goes_on = write_datasets bset trigger rest in
      do step ← write_dataset bset trigger dataset rec t; after_step goes_on step

  -- the first write to a set starts its chain, so it is a full
  abbrev pub trigger_for : BackupSet → BackupType → BackupType
  trigger_for bset asked = if is_some bset.last_used_at then asked else full

  abbrev pub note_first : BackupSet → BackupType → Act W Unit
  note_first bset asked =
      if not (is_some bset.last_used_at) && is_incremental asked
      then note (first_full bset.id)
      else pure tt

  abbrev pub on_disk : BackupSet → List String → Option BackupDisk → Act W Outcome
  on_disk bset datasets none = pure (record {
    tally = nothing_yet;
    stopped = some (no_usable_disk bset.id, none);
    last_rec = none;
  })
  on_disk bset datasets (some rec) = do
    asked ← gets (λ c. c.session.trigger)
    note_first bset asked
    with_session (λ s. record s { backup_disk_id = some rec.id; phase = some snapshotting })
    write_datasets bset (trigger_for bset asked) datasets rec nothing_yet

  unfoldable pub write_one_set : BackupSet → List String → Act W Outcome
  unfolding write_datasets
  write_one_set bset datasets = do rec ← active_disk media now bset; on_disk bset datasets rec

  abbrev pub with_last : List BackupDisk → Option BackupDisk → List BackupDisk
  with_last recs none = recs
  with_last recs (some rec) = recs ++ rec ∷ []

  abbrev pub after_set :
      (List BackupDisk → Act W Written)
      → BackupSet
      → Tally
      → List BackupDisk
      → Option (SessionError × Option String)
      → Act W Written
  after_set goes_on cur t recs none = goes_on recs
  after_set goes_on cur t recs (some (error, dataset)) =
      pure (record { tally = t; recs = recs; stopped = some (cur, error, dataset) })

  -- The loop over the target sets. A set that is blocked ends it.
  unfoldable pub write_sets : List BackupSet → List String → Tally → List BackupDisk → Act W Written
  write_sets [] datasets t recs = pure (record { tally = t; recs = recs; stopped = none })
  write_sets (cur ∷ others) datasets t recs =
      let goes_on = write_sets others datasets in
      do
        out ← write_one_set cur datasets
        let t' = add_tally t out.tally
        after_set (goes_on t') cur t' (with_last recs out.last_rec) out.stopped
