-- ===== src/Restore/Replay/Jobs.antt =====
-- What a restore does to the job that it reports to.
use nazman.Prelude.{
  ℕ, suc, ◌+◌, ◌≤◌, String, Bool, true, ◌||◌, Option, none, some, List, [], ◌∷◌, ◌++◌, Result, ok,
  err, ◌≡◌, refl, sym, ap, subst, ◌∙◌, Bool-cases, Option-cases, inl, inr, arith,
}
use nazman.Validation.{Invalid, validate_dataset_name}
use nazman.Manifest.{RunEntry}
use nazman.Restore.Volumes.{Candidate, Outside, locate_stream}
use nazman.Restore.Job.{Current, start_stream, report, end_stream}
use nazman.Restore.Job.Steps.{
  JobSteps, JobSteps-trans, begin_stream, read_bytes, finish_stream, at_once, then_step,
}
use nazman.Restore.Replay.{
  restore_streams, RestoreError, Receipt, RestoreEntry, RestoreJob, Service, changed, with_job,
  change_current, on_current, report_all, bytes_of, stream_finished, is_incremental, received,
  receive_file, receive_valid, receive_stream, after_receive,
}

-- counts that do not fall, from a bound on
abbrev pub Ascending : ℕ → List ℕ → Type 0
Ascending n [] = Unit
Ascending n (m ∷ ms) = (n ≤ m) × Ascending m ms

-- what the steps within a dataset leave alone
pub record IsSameJob (j j' : RestoreJob) : Type 0 where
  pub status : j'.status ≡ j.status
  pub total : j'.datasets_total ≡ j.datasets_total
  pub finished : j'.datasets_done ≡ j.datasets_done
  pub failures : j'.datasets_failed ≡ j.datasets_failed

-- the job has moved on by steps, to a state of which P holds
pub record Moved {W : Type 0} (P : RestoreJob → Type 0) (j : RestoreJob) (s : Service W)
    : Type 0 where
  pub job : RestoreJob
  pub there : s.job ≡ some job
  pub steps : JobSteps j job
  pub same : IsSameJob j job
  pub holds : P job

abbrev pub IsSameJob-refl : (j : RestoreJob) → IsSameJob j j
IsSameJob-refl j = record { status = refl; total = refl; finished = refl; failures = refl }

abbrev pub IsSameJob-trans :
    {j j' j'' : RestoreJob} → IsSameJob j j' → IsSameJob j' j'' → IsSameJob j j''
IsSameJob-trans a b = record {
  status = b.status ∙ a.status;
  total = b.total ∙ a.total;
  finished = b.finished ∙ a.finished;
  failures = b.failures ∙ a.failures;
}

abbrev pub Any : RestoreJob → Type 0
Any j = Unit

-- a dataset is under way, and nothing of the stream with the index is read
abbrev pub Fresh : ℕ → RestoreJob → Type 0
Fresh index j =
    (c : Current) × (j.current ≡ some c) × (suc c.streams_done ≡ index) × (c.bytes_done ≡ 0)

-- a stream is under way
abbrev Within : ℕ → RestoreJob → Type 0
Within index j = (c : Current) × (j.current ≡ some c) × (suc c.streams_done ≡ index)

on_current_lem :
    (f : Current → Current) (j : RestoreJob) (c : Current)
    → j.current ≡ some c
    → on_current f j ≡ record j { current = some (f c) }
on_current_lem f j c at = ap (λ (o : Option Current). record j { current = change_current f o }) at

abbrev Reported : ℕ → RestoreJob → RestoreJob → Type 0
Reported index j j' = JobSteps j j' × IsSameJob j j' × Within index j'

report_all-Within :
    (index : ℕ) (reports : List ℕ) (j : RestoreJob) (c : Current)
    → j.current ≡ some c
    → suc c.streams_done ≡ index
    → Ascending c.bytes_done reports
    → Reported index j (report_all reports j)
report_all-Within index [] j c at place up = (at_once, IsSameJob-refl j, (c, at, place))
report_all-Within index (n ∷ ns) j c at place (more, up) =
    let j' : RestoreJob = record j { current = some (report n c) } in
    let (steps, same, within) = report_all-Within index ns j' (report n c) refl place up in
    subst (λ x. Reported index j (report_all ns x)) (sym (on_current_lem (report n) j c at))
      (
        JobSteps-trans (then_step at_once (read_bytes j c n at more)) steps,
        record {
          status = same.status;
          total = same.total;
          finished = same.finished;
          failures = same.failures;
        },
        within,
      )

module _ {W : Type 0} (outside : Outside W)
    (polled : (gzip : Bool) (file : String) (force : Bool) (target : String) (w : W)
      → Ascending 0 (outside.receive gzip file force target w).0.0) where
  received-Moved :
      (index : ℕ) (receipt : Receipt) (answer : (List ℕ × Option Bool) × W) (j : RestoreJob)
      (s : Service W)
      → s.job ≡ some j
      → Fresh index j
      → Ascending 0 answer.0.0
      → Moved (Within index) j (received outside true receipt answer s).1
  received-Moved index receipt ((reports, rc), w) j s at (c, current, place, fresh) up =
      let (steps, same, within) = report_all-Within index reports j c current place (rw fresh up) in
      record {
        job = report_all reports j;
        there = ap (changed (report_all reports)) at;
        steps = steps;
        same = same;
        holds = within;
      }

  stay :
      (index : ℕ) (j : RestoreJob) (s : Service W)
      → s.job ≡ some j
      → Fresh index j
      → Moved (Within index) j s
  stay index j s at (c, current, place, fresh) = record {
    job = j;
    there = at;
    steps = at_once;
    same = IsSameJob-refl j;
    holds = (c, current, place);
  }

  receive_stream-Moved :
      (index : ℕ) (file target : String) (force : Bool) (j : RestoreJob) (s : Service W)
      → s.job ≡ some j
      → Fresh index j
      → Moved (Within index) j (receive_stream outside true file target force s).1
  unfolding receive_stream
  receive_stream-Moved index file target force j s at fresh = go (validate_dataset_name target)
    where
      head :
          (o : Option Bool)
          → Moved (Within index) j (receive_file outside true o file target force s).1
      head none = stay index j s at fresh
      head (some gzip) =
          received-Moved index record { dataset = target; source = file; force = force }
            (outside.receive gzip file force target s.world) j s at fresh
            (polled gzip file force target s.world)

      go :
          (v : Result Invalid String)
          → Moved (Within index) j (receive_valid outside true v file target force s).1
      go (err e) = stay index j s at fresh
      go (ok name) = elim (Bool-cases (outside.path_exists file s.world)) [
        | inl there ↦ rw there (head (outside.is_gzip file s.world))
        | inr gone ↦ rw gone (stay index j s at fresh)
      ]

  Moved-trans :
      {P Q : RestoreJob → Type 0} {j : RestoreJob} {s s' : Service W}
      → (m : Moved P j s) → Moved Q m.job s'
      → Moved Q j s'
  Moved-trans m n = record {
    job = n.job;
    there = n.there;
    steps = JobSteps-trans m.steps n.steps;
    same = IsSameJob-trans m.same n.same;
    holds = n.holds;
  }

  start_stream-Moved :
      (index : ℕ) (size : Option ℕ) (j : RestoreJob) (s : Service W)
      → s.job ≡ some j
      → Fresh index j
      → Moved (Fresh index) j (with_job true (on_current (start_stream index size)) s)
  start_stream-Moved index size j s at (c, current, place, fresh) =
      let j' : RestoreJob = record j {
        current = some (start_stream (suc c.streams_done) size c);
      } in
      let begun : on_current (start_stream index size) j ≡ j' =
        on_current_lem (start_stream index size) j c current
        ∙ ap (λ (i : ℕ). record j { current = some (start_stream i size c) }) (sym place) in
      record {
        job = j';
        there = ap (changed (on_current (start_stream index size))) at ∙ ap some begun;
        steps = then_step at_once (begin_stream j c size current fresh);
        same = record { status = refl; total = refl; finished = refl; failures = refl };
        holds = (start_stream (suc c.streams_done) size c, refl, (omega arith), refl);
      }

  stream_finished-Moved :
      (index : ℕ) (j : RestoreJob) (s : Service W)
      → s.job ≡ some j
      → Within index j
      → Moved (Fresh (suc index)) j (with_job true (stream_finished index) s)
  stream_finished-Moved index j s at (c, current, place) =
      let bytes = j.bytes_total + bytes_of j.current in
      let j' : RestoreJob = record j {
        bytes_total = bytes;
        current = some (end_stream (suc c.streams_done) c);
      } in
      let finished : stream_finished index j ≡ j' =
        ap
          (λ (o : Option Current). record j {
            bytes_total = bytes;
            current = change_current (end_stream index) o;
          })
          current
        ∙ ap (λ (i : ℕ). record j { bytes_total = bytes; current = some (end_stream i c) })
            (sym place) in
      record {
        job = j';
        there = ap (changed (stream_finished index)) at ∙ ap some finished;
        steps = then_step at_once (finish_stream j c bytes current);
        same = record { status = refl; total = refl; finished = refl; failures = refl };
        holds = (end_stream (suc c.streams_done) c, refl, ap suc place, refl);
      }

  module _ (source target : String) (mounted : List (Candidate × String)) where
    after_receive-Moved :
        (index : ℕ) (got : List Receipt) (rest : Receipt → Service W → RestoreEntry × Service W)
        → ((r : Receipt) (j : RestoreJob) (s : Service W)
            → s.job ≡ some j
            → Fresh (suc index) j
            → Moved Any j (rest r s).1)
        → (answer : Result RestoreError Receipt × Service W) (j : RestoreJob)
        → Moved (Within index) j answer.1
        → Moved Any j (after_receive outside true source target got index rest answer).1
    after_receive-Moved index got rest ih (err e, s) j m = record {
      job = m.job;
      there = m.there;
      steps = m.steps;
      same = m.same;
      holds = tt;
    }
    after_receive-Moved index got rest ih (ok r, s) j m =
        let m' = Moved-trans m (stream_finished-Moved index m.job s m.there m.holds) in
        Moved-trans m' (ih r m'.job (with_job true (stream_finished index) s) m'.there m'.holds)

    pub restore_streams-Moved :
        (index : ℕ) (exists : Bool) (got : List Receipt) (bs : List RunEntry) (j : RestoreJob)
        (s : Service W)
        → s.job ≡ some j
        → Fresh index j
        → Moved Any j (restore_streams outside true source target mounted index exists got bs s).1
    unfolding restore_streams
    restore_streams-Moved index exists got [] j s at fresh = record {
      job = j;
      there = at;
      steps = at_once;
      same = IsSameJob-refl j;
      holds = tt;
    }
    restore_streams-Moved index exists got (b ∷ bs) j s at fresh =
        elim (Option-cases (locate_stream outside b mounted s.world)) [
          | inl missing ↦
              rw (restore_streams, missing)
                record { job = j; there = at; steps = at_once; same = IsSameJob-refl j; holds = tt }
          | inr (file, found) ↦
              let started = start_stream-Moved index b.size_bytes j s at fresh in
              let s' = with_job true (on_current (start_stream index b.size_bytes)) s in
              let force = exists || is_incremental b in
              let read =
                receive_stream-Moved index file target force started.job s' started.there
                  started.holds in
              rw (restore_streams, found)
                (after_receive-Moved index got
                  (λ r s'.
                    restore_streams outside true source target mounted (suc index) true
                      (got ++ r ∷ []) bs s')
                  (λ r j' s'. restore_streams-Moved (suc index) true (got ++ r ∷ []) bs j' s')
                  (receive_stream outside true file target force s') j (Moved-trans started read))
        ]
