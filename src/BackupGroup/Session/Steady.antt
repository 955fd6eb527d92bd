-- ===== src/BackupGroup/Session/Steady.antt =====
-- The calls of a session leave the status of its row and its group alone, up to the loop over the
-- sets.
use nazman.Prelude.{
  ℕ, refl, not, ◌&&◌, String, Option, none, some, List, [], ◌∷◌, gets, modify, ◌==◌, is_some,
}
use nazman.BackupGroup.Rows.{BackupDisk, BackupSet, Run, BackupType, SessionError}
use nazman.BackupGroup.Session.Media.{
  Media, Act, Sent, SendStatus, lift, ask, with_session, with_set, with_run, note,
}
use nazman.BackupGroup.Session.Writes.{
  Tally, mount_first, active_disk, take_first_fit, advance_for_space, new_run, send, record_missing,
  update_progress, recycle_for_space, after_recycle, disks_of, Outcome, disk_written_this_session,
}
use nazman.BackupGroup.Session.Execute.{
  progress, tell_promoted, count_sent, count_as, after_status, after_step, after_set, add_tally,
  after_recycling, after_advance, write_dataset, write_datasets, on_disk, note_first, write_one_set,
  write_sets, Written, Step,
}
use nazman.BackupGroup.Session.Finish.{mark_used}
use nazman.BackupGroup.Session.Keeps.{
  Keeps, Keeps-bind, Keeps-if, Keeps-pure, Keeps-gets, Keeps-ask, Keeps-lift, Keeps-set, Keeps-run,
  Keeps-note, Keeps-alert, Keeps-session,
}

module _ {W : Type 0} (media : Media W) (now : ℕ) where
  Keeps-mount_first :
      (set_id : ℕ) (disks : List BackupDisk) → Keeps (mount_first media now set_id disks)
  unfolding mount_first
  Keeps-mount_first set_id [] = Keeps-pure none
  Keeps-mount_first set_id (rec ∷ others) =
      Keeps-bind (ask (media.mount_backup_disk rec.id)) _ (Keeps-ask _) λ mounted.
        Keeps-if mounted _ _
          (Keeps-bind (with_set set_id _) _ (Keeps-set set_id _) λ _. Keeps-pure _)
          (Keeps-mount_first set_id others)

  Keeps-active_disk : (bset : BackupSet) → Keeps (active_disk media now bset)
  unfolding active_disk
  Keeps-active_disk bset = record {
    at = λ c. (Keeps-mount_first bset.id _).at c;
    same_group = λ c. (Keeps-mount_first bset.id _).same_group c;
  }

  Keeps-take_first_fit :
      (set_id full_id needed : ℕ) (disks : List BackupDisk)
      → Keeps (take_first_fit media now set_id full_id needed disks)
  unfolding take_first_fit
  Keeps-take_first_fit set_id full_id needed [] = Keeps-pure none
  Keeps-take_first_fit set_id full_id needed (d ∷ others) =
      let rest = Keeps-take_first_fit set_id full_id needed others in
      Keeps-if (d.id == full_id) _ _ rest (
        Keeps-bind (ask (media.mount_backup_disk d.id)) _ (Keeps-ask _) λ mounted.
          Keeps-bind (gets (λ c. media.fits d.id needed c.world)) _ (Keeps-gets _) λ fits.
            Keeps-if mounted _ _
              (Keeps-if fits _ _
                (Keeps-bind (with_set set_id _) _ (Keeps-set set_id _) λ _. Keeps-pure _)
                (Keeps-bind (ask (media.restore_idle_state d.id)) _ (Keeps-ask _) λ _. rest))
              rest)

  Keeps-advance_for_space :
      (bset : BackupSet) (rec : BackupDisk) (needed : ℕ)
      → Keeps (advance_for_space media now bset rec needed)
  unfolding advance_for_space
  Keeps-advance_for_space bset rec needed =
      Keeps-bind (lift (media.restore_idle_state rec.id)) _ (Keeps-lift _) λ _.
        Keeps-bind (gets (disks_of bset.id)) _ (Keeps-gets _)
          (Keeps-take_first_fit bset.id rec.id needed)

  Keeps-send : (rec : BackupDisk) (run : Run) → Keeps (send media now rec run)
  unfolding send
  Keeps-send rec run = record { at = λ c. refl; same_group = λ c. refl }

  Keeps-recycle_for_space :
      (rec : BackupDisk) (run : Run) → Keeps (recycle_for_space media now rec run)
  unfolding recycle_for_space
  Keeps-recycle_for_space rec run =
      Keeps-bind (ask (media.recycle rec.id)) _ (Keeps-ask _) wiped_then_sent
    where
      wiped_then_sent : (fs_uuid : Option String) → Keeps (after_recycle media now rec run fs_uuid)
      wiped_then_sent none = Keeps-pure none
      wiped_then_sent (some fs_uuid) =
          Keeps-bind (modify _) _ (record { at = λ c. refl; same_group = λ c. refl })
            λ _. Keeps-bind (note _) _ (Keeps-note _) λ _.
              Keeps-bind (with_run run.id _) _ (Keeps-run run.id _)
                λ _. Keeps-bind (send media now rec _) _ (Keeps-send rec _) λ sent. Keeps-pure _

  Keeps-new_run :
      (dataset : String) (kind : BackupType) (rec : BackupDisk) (set_id : Option ℕ)
      → Keeps (new_run media now dataset kind rec set_id)
  unfolding new_run
  Keeps-new_run dataset kind rec set_id = Keeps-bind (gets _) _ (Keeps-gets _) λ run.
      Keeps-bind (modify _) _ (record { at = λ c. refl; same_group = λ c. refl })
        λ _. Keeps-pure run

  Keeps-record_missing :
      (dataset : String) (rec : BackupDisk) → Keeps (record_missing media now dataset rec)
  unfolding record_missing
  Keeps-record_missing dataset rec =
      Keeps-bind (new_run media now dataset _ rec none) _ (Keeps-new_run dataset _ rec none)
        λ run. Keeps-run run.id _

  Keeps-progress : (rec : BackupDisk) (t : Tally) → Keeps (progress media now rec t)
  unfolding progress update_progress
  Keeps-progress rec t =
      Keeps-bind (with_session _) _ (Keeps-session _ (λ s. refl)) λ _. Keeps-pure _

  Keeps-told :
      (bset : BackupSet) (dataset : String) (run : Run)
      → Keeps (tell_promoted media now bset dataset run)
  Keeps-told bset dataset run =
      Keeps-if (is_some run.promoted_from) _ _
        (Keeps-bind (note _) _ (Keeps-note _) λ _. Keeps-alert _) (Keeps-pure tt)

  Keeps-counted :
      (bset : BackupSet) (dataset : String) (rec : BackupDisk) (t : Tally) (run : Run)
      (status : SendStatus)
      → Keeps (count_as media now bset dataset rec t run status)
  Keeps-counted bset dataset rec t run SendStatus.success =
      Keeps-bind (tell_promoted media now bset dataset run) _ (Keeps-told bset dataset run)
        λ _. Keeps-progress rec _
  Keeps-counted bset dataset rec t run SendStatus.skipped = Keeps-progress rec _
  Keeps-counted bset dataset rec t run SendStatus.failed = Keeps-progress rec _
  Keeps-counted bset dataset rec t run (SendStatus.needs_space needed) = Keeps-progress rec _

  Keeps-count_sent :
      (bset : BackupSet) (dataset : String) (rec : BackupDisk) (t : Tally) (sent : Sent)
      → Keeps (count_sent media now bset dataset rec t sent)
  unfolding count_sent
  Keeps-count_sent bset dataset rec t sent = Keeps-counted bset dataset rec t sent.run sent.status

  Keeps-after_recycling :
      (bset : BackupSet) (dataset : String) (rec : BackupDisk) (t : Tally) (sent : Option Sent)
      → Keeps (after_recycling media now bset dataset rec t sent)
  Keeps-after_recycling bset dataset rec t none = Keeps-pure _
  Keeps-after_recycling bset dataset rec t (some sent) = Keeps-count_sent bset dataset rec t sent

  Keeps-after_advance :
      (bset : BackupSet) (dataset : String) (rec : BackupDisk) (run : Run) (t : Tally)
      (moved : Option BackupDisk)
      → Keeps (after_advance media now bset dataset rec run t moved)
  Keeps-after_advance bset dataset rec run t none =
      Keeps-bind
        (gets (λ c. c.group.recycle_full_disks && not (disk_written_this_session rec.id c))) _
        (Keeps-gets _)
        λ may_recycle.
          Keeps-if may_recycle _ _
            (Keeps-bind (recycle_for_space media now rec run) _ (Keeps-recycle_for_space rec run)
              (Keeps-after_recycling bset dataset rec t))
            (Keeps-pure _)
  Keeps-after_advance bset dataset rec run t (some moved) =
      Keeps-bind (with_session _) _ (Keeps-session _ (λ s. refl)) λ _.
        Keeps-bind (note _) _ (Keeps-note _) λ _.
          Keeps-bind (with_run run.id _) _ (Keeps-run run.id _) λ _.
            Keeps-bind (send media now moved _) _ (Keeps-send moved _)
              (Keeps-count_sent bset dataset moved t)

  Keeps-after_status :
      (bset : BackupSet) (dataset : String) (rec : BackupDisk) (t : Tally) (sent : Sent)
      (status : SendStatus)
      → Keeps (after_status media now bset dataset rec t sent status)
  Keeps-after_status bset dataset rec t sent (SendStatus.needs_space needed) =
      Keeps-bind (advance_for_space media now bset rec needed) _
        (Keeps-advance_for_space bset rec needed) (Keeps-after_advance bset dataset rec sent.run t)
  Keeps-after_status bset dataset rec t sent SendStatus.success =
      Keeps-count_sent bset dataset rec t sent
  Keeps-after_status bset dataset rec t sent SendStatus.skipped =
      Keeps-count_sent bset dataset rec t sent
  Keeps-after_status bset dataset rec t sent SendStatus.failed =
      Keeps-count_sent bset dataset rec t sent

  Keeps-write_dataset :
      (bset : BackupSet) (kind : BackupType) (dataset : String) (rec : BackupDisk) (t : Tally)
      → Keeps (write_dataset media now bset kind dataset rec t)
  unfolding write_dataset
  Keeps-write_dataset bset kind dataset rec t =
      Keeps-bind (lift (media.dataset_exists dataset)) _ (Keeps-lift _) λ exists.
        Keeps-if exists _ _
          (Keeps-bind (with_session _) _ (Keeps-session _ (λ s. refl)) λ _.
            Keeps-bind (new_run media now dataset kind rec (some bset.id)) _
              (Keeps-new_run dataset kind rec _)
              λ run.
                Keeps-bind (send media now rec run) _ (Keeps-send rec run)
                  (λ sent. Keeps-after_status bset dataset rec t sent sent.status))
          (Keeps-bind (record_missing media now dataset rec) _ (Keeps-record_missing dataset rec)
            λ _. Keeps-progress rec _)

  Keeps-after_step :
      (goes_on : BackupDisk → Tally → Act W Outcome) (step : Step)
      → ((rec : BackupDisk) (t : Tally) → Keeps (goes_on rec t))
      → Keeps (after_step media now goes_on step)
  Keeps-after_step goes_on (Step.next rec t) kept = kept rec t
  Keeps-after_step goes_on (Step.blocked out) kept = Keeps-pure out

  Keeps-write_datasets :
      (bset : BackupSet) (kind : BackupType) (datasets : List String) (rec : BackupDisk) (t : Tally)
      → Keeps (write_datasets media now bset kind datasets rec t)
  unfolding write_datasets
  Keeps-write_datasets bset kind [] rec t = Keeps-pure _
  Keeps-write_datasets bset kind (dataset ∷ rest) rec t =
      let kept = Keeps-write_datasets bset kind rest in
      Keeps-bind (write_dataset media now bset kind dataset rec t) _
        (Keeps-write_dataset bset kind dataset rec t)
        λ step. Keeps-after_step (write_datasets media now bset kind rest) step kept

  Keeps-on_disk :
      (bset : BackupSet) (datasets : List String) (rec : Option BackupDisk)
      → Keeps (on_disk media now bset datasets rec)
  Keeps-on_disk bset datasets none = Keeps-pure _
  Keeps-on_disk bset datasets (some rec) =
      Keeps-bind (gets (λ c. c.session.trigger)) _ (Keeps-gets _) λ asked.
        Keeps-bind (note_first media now bset asked) _
          (Keeps-if _ _ _ (Keeps-note _) (Keeps-pure tt))
          λ _.
            Keeps-bind (with_session _) _ (Keeps-session _ (λ s. refl))
              λ _. Keeps-write_datasets bset _ datasets rec _

  Keeps-write_one_set :
      (bset : BackupSet) (datasets : List String) → Keeps (write_one_set media now bset datasets)
  unfolding write_one_set
  Keeps-write_one_set bset datasets =
      Keeps-bind (active_disk media now bset) _ (Keeps-active_disk bset)
        (Keeps-on_disk bset datasets)

  Keeps-after_set :
      (goes_on : List BackupDisk → Act W Written) (cur : BackupSet) (t : Tally)
      (recs : List BackupDisk) (stopped : Option (SessionError × Option String))
      → ((recs' : List BackupDisk) → Keeps (goes_on recs'))
      → Keeps (after_set media now goes_on cur t recs stopped)
  Keeps-after_set goes_on cur t recs none kept = kept recs
  Keeps-after_set goes_on cur t recs (some (error, dataset)) kept = Keeps-pure _

  pub Keeps-write_sets :
      (sets : List BackupSet) (datasets : List String) (t : Tally) (recs : List BackupDisk)
      → Keeps (write_sets media now sets datasets t recs)
  unfolding write_sets
  Keeps-write_sets [] datasets t recs = Keeps-pure _
  Keeps-write_sets (cur ∷ others) datasets t recs =
      let kept = Keeps-write_sets others datasets in
      Keeps-bind (write_one_set media now cur datasets) _ (Keeps-write_one_set cur datasets) λ out.
        Keeps-after_set (write_sets media now others datasets (add_tally t out.tally)) cur _ _
          out.stopped (kept (add_tally t out.tally))

  pub Keeps-mark_used : (sets : List BackupSet) → Keeps {W = W} (mark_used media now sets)
  unfolding mark_used
  Keeps-mark_used [] = Keeps-pure tt
  Keeps-mark_used (s ∷ ss) =
      Keeps-bind (with_set s.id _) _ (Keeps-set s.id _) λ _. Keeps-mark_used ss
