-- ===== src/Restore/Replay/Datasets.antt =====
-- A restore as a whole: what it answers, and what its job counts.
use nazman.Prelude.{
  ℕ, suc, ◌+◌, String, Bool, true, ◌||◌, Option, none, some, List, [], ◌∷◌, ◌++◌, map, length,
  str_eq_self, Result, ok, err, ◌≡◌, refl, sym, ap, ◌∙◌, Option-cases, inl, inr, arith,
}
use mathlib.Core.List.{append-nil, append_assoc}
use nazman.Manifest.{RunEntry}
use nazman.Restore.Chain.{Selection, Choice, chosen_datasets}
use nazman.Restore.Volumes.{Candidate, Outside, SetVolume, volumes_of, mount_each, locate_stream}
use nazman.Restore.Job.{Current, start_dataset, start_stream}
use nazman.Restore.Job.Steps.{
  JobSteps, JobSteps-trans, begin_dataset, finish_dataset, at_once, then_step,
}
use nazman.Restore.Replay.{
  restore_streams, RestoreError, Receipt, RestoreEntry, RestoreJob, Service, changed, with_job,
  on_current, failure_of, dataset_finished, is_incremental, receive_stream, after_receive,
  restore_one, restore_choices,
}
use nazman.Restore.Run.{
  is_tracked, manifest_of, restore_mounted, mount_and_restore, restore_found, restore_datasets,
  in_world,
}
use nazman.Restore.Replay.Jobs.{Ascending, Moved, Any, restore_streams-Moved}

-- the dataset and the target of an entry, and of a choice
abbrev pub names_of : RestoreEntry → String × String
names_of e = (e.source, e.target)

abbrev pub names_chosen : Choice → String × String
names_chosen c = (c.source, c.target)

abbrev pub failures : List RestoreEntry → ℕ
failures [] = 0
failures (e ∷ es) = failure_of e.status + failures es

module _ {W : Type 0} (outside : Outside W) (source target : String)
    (mounted : List (Candidate × String)) where
  after_receive-named :
      (index : ℕ) (got : List Receipt) (rest : Receipt → Service W → RestoreEntry × Service W)
      → ((r : Receipt) (s : Service W) → names_of (rest r s).0 ≡ (source, target))
      → (answer : Result RestoreError Receipt × Service W)
      → names_of (after_receive outside true source target got index rest answer).0
        ≡ (source, target)
  after_receive-named index got rest ih (err e, s) = refl
  after_receive-named index got rest ih (ok r, s) = ih r _

  restore_streams-named :
      (index : ℕ) (exists : Bool) (got : List Receipt) (bs : List RunEntry) (s : Service W)
      → names_of (restore_streams outside true source target mounted index exists got bs s).0
        ≡ (source, target)
  unfolding restore_streams
  restore_streams-named index exists got [] s = refl
  restore_streams-named index exists got (b ∷ bs) s =
      elim (Option-cases (locate_stream outside b mounted s.world)) [
        | inl missing ↦ rw (restore_streams, missing) refl
        | inr (file, found) ↦
            rw (restore_streams, found)
              (after_receive-named index got
                (λ r s'.
                  restore_streams outside true source target mounted (suc index) true
                    (got ++ r ∷ []) bs s')
                (λ r s'. restore_streams-named (suc index) true (got ++ r ∷ []) bs s')
                (receive_stream outside true file target (exists || is_incremental b)
                  (with_job true (on_current (start_stream index b.size_bytes)) s)))
      ]

module _ {W : Type 0} (outside : Outside W)
    (polled : (gzip : Bool) (file : String) (force : Bool) (target : String) (w : W)
      → Ascending 0 (outside.receive gzip file force target w).0.0)
    (mounted : List (Candidate × String)) where
  -- the job after the choices were restored, in their order
  record IsFinished (old : List RestoreEntry) (cs : List Choice) (j : RestoreJob)
      (r : List RestoreEntry × Service W) : Type 0 where
    entries : List RestoreEntry
    results : r.0 ≡ old ++ entries
    named : map names_of entries ≡ map names_chosen cs
    job : RestoreJob
    there : r.1.job ≡ some job
    steps : JobSteps j job
    status : job.status ≡ j.status
    total : job.datasets_total ≡ j.datasets_total
    finished : job.datasets_done ≡ j.datasets_done + length cs
    failed : job.datasets_failed ≡ j.datasets_failed + failures entries
    idle : job.current ≡ none

  restore_one-Moved :
      (c : Choice) (j : RestoreJob) (s : Service W)
      → s.job ≡ some j
      → j.current ≡ none
      → Moved Any j
          (restore_one outside true c.source c.target c.chain mounted (
            with_job true
              (λ j. record j { current = some (start_dataset c.source c.target (length c.chain)) })
              s)).1
  unfolding restore_one
  restore_one-Moved c j s at idle =
      let start = λ (j : RestoreJob). record j {
        current = some (start_dataset c.source c.target (length c.chain));
      } in
      let s' = with_job true start s in
      let m =
        restore_streams-Moved outside polled c.source c.target mounted 1
          (outside.dataset_exists c.target s'.world) [] c.chain (start j) s' (ap (changed start) at)
          (start_dataset c.source c.target (length c.chain), refl, refl, refl) in
      record {
        job = m.job;
        there = m.there;
        steps =
            JobSteps-trans
              (then_step at_once (begin_dataset j c.source c.target (length c.chain) idle)) m.steps;
        same = record {
          status = m.same.status;
          total = m.same.total;
          finished = m.same.finished;
          failures = m.same.failures;
        };
        holds = tt;
      }

  restore_one-named :
      (c : Choice) (s : Service W)
      → names_of (restore_one outside true c.source c.target c.chain mounted s).0 ≡ names_chosen c
  unfolding restore_one
  restore_one-named c s =
      restore_streams-named outside c.source c.target mounted 1
        (outside.dataset_exists c.target s.world) [] c.chain s

  cons_path :
      {p q : String × String} {ps qs : List (String × String)}
      → p ≡ q
      → ps ≡ qs
      → (p ∷ ps) ≡ (q ∷ qs)
  cons_path h k = cc

  restore_choices-IsFinished :
      (old : List RestoreEntry) (cs : List Choice) (j : RestoreJob) (s : Service W)
      → s.job ≡ some j
      → j.current ≡ none
      → IsFinished old cs j (restore_choices outside true mounted old cs s)
  unfolding restore_choices
  restore_choices-IsFinished old [] j s at idle = record {
    entries = [];
    results = sym (append-nil old);
    named = refl;
    job = j;
    there = at;
    steps = at_once;
    status = refl;
    total = refl;
    finished = omega arith;
    failed = omega arith;
    idle = idle;
  }
  restore_choices-IsFinished old (c ∷ cs) j s at idle =
      let start = λ (j : RestoreJob). record j {
        current = some (start_dataset c.source c.target (length c.chain));
      } in
      let done =
        restore_one outside true c.source c.target c.chain mounted (with_job true start s) in
      let entry = done.0 in
      let m = restore_one-Moved c j s at idle in
      let s' = with_job true (dataset_finished old entry) done.1 in
      let j' = dataset_finished old entry m.job in
      let rest =
        restore_choices-IsFinished (old ++ entry ∷ []) cs j' s'
          (ap (changed (dataset_finished old entry)) m.there) refl in
      let named = restore_one-named c (with_job true start s) in
      record {
        entries = entry ∷ rest.entries;
        results = rest.results ∙ append_assoc old (entry ∷ []) rest.entries;
        named = cons_path named rest.named;
        job = rest.job;
        there = rest.there;
        steps =
            JobSteps-trans
              (then_step m.steps (
                finish_dataset m.job (old ++ entry ∷ [])
                  (m.job.datasets_failed + failure_of entry.status)))
              rest.steps;
        status = rest.status ∙ m.same.status;
        total = rest.total ∙ m.same.total;
        finished = omega (arith, rest.finished, m.same.finished);
        failed = omega (arith, rest.failed, m.same.failures);
        idle = rest.idle;
      }

-- What a restore that returned has done to the job of its set: it has moved on by the steps of the
-- restore from the job with the number of results as its total, and counts every dataset that was
-- chosen as finished, and those whose restore failed as failed.
pub record IsRestored {W : Type 0} (chosen : List Choice) (j : RestoreJob)
    (results : List RestoreEntry) (s : Service W) : Type 0 where
  pub job : RestoreJob
  pub there : s.job ≡ some job
  pub steps : JobSteps (record j { datasets_total = length results }) job
  pub named : map names_of results ≡ map names_chosen chosen
  pub finished : job.datasets_done ≡ j.datasets_done + length results
  pub failed : job.datasets_failed ≡ j.datasets_failed + failures results
  pub idle : job.current ≡ none

length_of_map :
    (es : List RestoreEntry) (cs : List Choice)
    → map names_of es ≡ map names_chosen cs
    → length es ≡ length cs
length_of_map [] [] h = refl
length_of_map [] (c ∷ cs) h = cc
length_of_map (e ∷ es) [] h = cc
length_of_map (e ∷ es) (c ∷ cs) h = ap suc (length_of_map es cs (cc))

module _ {W : Type 0} (outside : Outside W)
    (polled : (gzip : Bool) (file : String) (force : Bool) (target : String) (w : W)
      → Ascending 0 (outside.receive gzip file force target w).0.0)
    (set_id : String) (results : List RestoreEntry) where
  restore_mounted-IsRestored :
      (chosen : List Choice) (mounted : List (Candidate × String)) (j : RestoreJob) (s : Service W)
      → s.job ≡ some (record j { datasets_total = length chosen })
      → j.current ≡ none
      → (restore_mounted outside true set_id chosen mounted s).0 ≡ ok results
      → IsRestored chosen j results (restore_mounted outside true set_id chosen mounted s).1
  restore_mounted-IsRestored chosen [] j s at idle h = absurd (cc)
  restore_mounted-IsRestored chosen (m ∷ ms) j s at idle h =
      let j' : RestoreJob = record j { datasets_total = length chosen } in
      let f = restore_choices-IsFinished outside polled (m ∷ ms) [] chosen j' s at idle in
      let same : f.entries ≡ results = sym f.results ∙ ok_path h in
      let named : map names_of results ≡ map names_chosen chosen = rw (← same) f.named in
      let counted = length_of_map results chosen named in
      let still : record f.job { current = none } ≡ f.job =
        ap (λ (o : Option Current). record f.job { current = o }) (sym f.idle) in
      record {
        job = f.job;
        there = ap (changed (λ j. record j { current = none })) f.there ∙ ap some still;
        steps = rw counted f.steps;
        named = named;
        finished = rw counted f.finished;
        failed = rw (← same) f.failed;
        idle = f.idle;
      }
    where
      ok_path :
          {a b : List RestoreEntry}
          → ◌≡◌ {A = Result RestoreError (List RestoreEntry)} (ok a) (ok b)
          → a ≡ b
      ok_path h = cc

  mount_and_restore-IsRestored :
      (chosen : List Choice) (found : List SetVolume × W) (j : RestoreJob) (s : Service W)
      → s.job ≡ some (record j { datasets_total = length chosen })
      → j.current ≡ none
      → (mount_and_restore outside true set_id chosen found s).0 ≡ ok results
      → IsRestored chosen j results (mount_and_restore outside true set_id chosen found s).1
  mount_and_restore-IsRestored chosen ([], w) j s at idle h = absurd (cc)
  mount_and_restore-IsRestored chosen (v ∷ vs, w) j s at idle h =
      let (mounted, w') = mount_each outside (v ∷ vs) w in
      restore_mounted-IsRestored chosen mounted j (in_world outside w' s) at idle h

  restore_found-IsRestored :
      (selections : List Selection) (media : Option String) (found : List SetVolume × W)
      (j : RestoreJob) (s : Service W)
      → s.job ≡ some j
      → j.set_id ≡ set_id
      → j.current ≡ none
      → (restore_found outside set_id selections media found s).0 ≡ ok results
      → IsRestored
          (chosen_datasets (manifest_of outside found.0) selections media)
          j
          results
          (restore_found outside set_id selections media found s).1
  restore_found-IsRestored selections media ([], w) j s at its idle h = absurd (cc)
  restore_found-IsRestored selections media (v ∷ vs, w) j s at its idle h =
      let chosen = chosen_datasets (manifest_of outside (v ∷ vs)) selections media in
      let total = λ (j : RestoreJob). record j { datasets_total = length chosen } in
      let tracked : is_tracked set_id s.job ≡ true = rw at (rw its (str_eq_self set_id)) in
      let s' = with_job true total (in_world outside w s) in
      let made =
        mount_and_restore-IsRestored chosen (volumes_of outside set_id s'.world) j s'
          (ap (changed total) at) idle in
      rw tracked (made (rw tracked at h))

  -- A restore of a set that returns, for the job of the set while nothing is under way, answers an
  -- entry for each dataset that is chosen from the merged manifest of the attached volumes, in their
  -- order. Its job has moved on by steps of the restore alone, with the number of these datasets as
  -- its total, counts each of them as finished and those that failed as failed, and nothing is under
  -- way, provided that the counts of bytes that a receive is polled for do not fall.
  pub restore_datasets_lem :
      (selections : List Selection) (media_fs_uuid : Option String) (j : RestoreJob) (s : Service W)
      → s.job ≡ some j
      → j.set_id ≡ set_id
      → j.current ≡ none
      → (restore_datasets outside set_id selections media_fs_uuid s).0 ≡ ok results
      → IsRestored
          (chosen_datasets
            (manifest_of outside (volumes_of outside set_id s.world).0)
            selections
            media_fs_uuid)
          j
          results
          (restore_datasets outside set_id selections media_fs_uuid s).1
  unfolding restore_datasets
  restore_datasets_lem selections media_fs_uuid j s at its idle returned =
      restore_found-IsRestored selections media_fs_uuid (volumes_of outside set_id s.world) j s at
        its idle returned
