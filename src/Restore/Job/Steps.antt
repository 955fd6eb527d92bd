-- ===== src/Restore/Job/Steps.antt =====
-- The steps of a job while its restore runs, and its percentage through them.
use nazman.Prelude.{ℕ, zero, suc, ◌-◌, ◌≤◌, String, Option, none, some, List, ◌≡◌, arith}
use nazman.Restore.Job.{
  JobStatus, running, done, failed, Current, Job, start_dataset, start_stream, report, end_stream,
  nonzero, part_of, fraction_in, fraction, percent, percent_by, progress_pct,
}
use nazman.Restore.Job.Progress.{
  AtMost, part_mono, done_mono, fraction-IsPart, next_stream, more_bytes, stream_done,
}
use native.Mathlib.Nat.{le_refl, le_trans, min-le_left}

-- the percentage of a job by its status, its total and its place
abbrev pct_at : JobStatus → ℕ → ℕ → Option Current → ℕ
pct_at status total k o = percent_by status total k (fraction o)

by_fraction :
    (status : JobStatus) (total k : ℕ) (o o' : Option Current)
    → AtMost (fraction o) (fraction o')
    → pct_at status total k o ≤ pct_at status total k o'
by_fraction done total k o o' h = le_refl 100
by_fraction running zero k o o' h = le_refl 0
by_fraction failed zero k o o' h = le_refl 0
by_fraction running (suc t) k o o' h =
    let mono =
      part_mono (suc t) k (fraction o).0 (fraction o).1 (fraction o').0 (fraction o').1
        (omega arith) (fraction-IsPart o).1 (fraction-IsPart o').1 h in
    ground arith
by_fraction failed (suc t) k o o' h =
    let mono =
      part_mono (suc t) k (fraction o).0 (fraction o).1 (fraction o').0 (fraction o').1
        (omega arith) (fraction-IsPart o).1 (fraction-IsPart o').1 h in
    ground arith

by_dataset :
    (status : JobStatus) (total k : ℕ) (o : Option Current)
    → pct_at status total k o ≤ pct_at status total (suc k) none
by_dataset done total k o = le_refl 100
by_dataset running zero k o = le_refl 0
by_dataset failed zero k o = le_refl 0
by_dataset running (suc t) k o =
    let mono =
      done_mono (suc t) k (fraction o).0 (fraction o).1 (omega arith) (fraction-IsPart o).0
        (fraction-IsPart o).1 in
    ground arith
by_dataset failed (suc t) k o =
    let mono =
      done_mono (suc t) k (fraction o).0 (fraction o).1 (omega arith) (fraction-IsPart o).0
        (fraction-IsPart o).1 in
    ground arith

in_dataset :
    (n : ℕ) (c c' : Current)
    → ((m : ℕ) → AtMost (fraction_in (suc m) c) (fraction_in (suc m) c'))
    → AtMost (fraction_in n c) (fraction_in n c')
in_dataset zero c c' h = le_refl 0
in_dataset (suc m) c c' h = h m

begun :
    (total streams bytes : ℕ) (x y : Option ℕ)
    → bytes ≡ 0
    → AtMost
        (part_of total streams (nonzero x) bytes)
        (part_of total (suc streams - 1) (nonzero y) 0)
begun total streams bytes x y fresh =
    let same : suc streams - 1 ≡ streams = omega arith in
    rw (fresh, same) (next_stream total streams x y)

abbrev pub lowest : JobStatus → ℕ
lowest running = 0
lowest done = 100
lowest failed = 0

abbrev pub highest : JobStatus → ℕ
highest running = 99
highest done = 100
highest failed = 100

percent_by_bounds :
    (status : JobStatus) (total k : ℕ) (f : ℕ × ℕ)
    → (lowest status ≤ percent_by status total k f) × (percent_by status total k f ≤ highest status)
percent_by_bounds done total k f = omega arith
percent_by_bounds running zero k f = omega arith
percent_by_bounds failed zero k f = omega arith
percent_by_bounds running (suc t) k f = (omega arith, min-le_left 99 (percent (suc t) k f))
percent_by_bounds failed (suc t) k f = (omega arith, min-le_left 100 (percent (suc t) k f))

module _ {R E : Type 0} where
  -- The restore of a dataset begins; a stream of it begins; bytes of the stream are read, no fewer
  -- than before; the stream ends; the dataset ends, restored or not.
  pub data JobStep : Job R E → Job R E → Type 0 where
    begin_dataset :
        (j : Job R E) (source target : String) (streams : ℕ)
        → j.current ≡ none
        → JobStep j (record j { current = some (start_dataset source target streams) })
    begin_stream :
        (j : Job R E) (c : Current) (size : Option ℕ)
        → j.current ≡ some c
        → c.bytes_done ≡ 0
        → JobStep j (record j { current = some (start_stream (suc c.streams_done) size c) })
    read_bytes :
        (j : Job R E) (c : Current) (consumed : ℕ)
        → j.current ≡ some c
        → c.bytes_done ≤ consumed
        → JobStep j (record j { current = some (report consumed c) })
    finish_stream :
        (j : Job R E) (c : Current) (bytes : ℕ)
        → j.current ≡ some c
        → JobStep j
            (record j { bytes_total = bytes; current = some (end_stream (suc c.streams_done) c) })
    finish_dataset :
        (j : Job R E) (results : List R) (failures : ℕ)
        → JobStep j (record j {
          results = results;
          datasets_failed = failures;
          datasets_done = suc j.datasets_done;
          current = none;
        })

  pub data JobSteps (j : Job R E) : Job R E → Type 0 where
    at_once : JobSteps j j
    then_step : {j' j'' : Job R E} → JobSteps j j' → JobStep j' j'' → JobSteps j j''

  pub JobSteps-trans : {j j' j'' : Job R E} → JobSteps j j' → JobSteps j' j'' → JobSteps j j''
  JobSteps-trans first at_once = first
  JobSteps-trans first (then_step before step) = then_step (JobSteps-trans first before) step

  JobStep-pct : {j j' : Job R E} → JobStep j j' → progress_pct j ≤ progress_pct j'
  unfolding progress_pct
  JobStep-pct (begin_dataset j source target streams idle) =
      by_fraction j.status j.datasets_total j.datasets_done j.current
        (some (start_dataset source target streams)) (rw idle (omega arith))
  JobStep-pct (begin_stream j c size at fresh) =
      by_fraction j.status j.datasets_total j.datasets_done j.current
        (some (start_stream (suc c.streams_done) size c))
        (rw at (
          in_dataset c.streams_total c (start_stream (suc c.streams_done) size c)
            (λ m. begun (suc m) c.streams_done c.bytes_done c.bytes_expected size fresh)))
  JobStep-pct (read_bytes j c consumed at more) =
      by_fraction j.status j.datasets_total j.datasets_done j.current (some (report consumed c)) (
        rw at (
          in_dataset c.streams_total c (report consumed c)
            (λ m. more_bytes (suc m) c.streams_done c.bytes_expected c.bytes_done consumed more)))
  JobStep-pct (finish_stream j c bytes at) =
      by_fraction j.status j.datasets_total j.datasets_done j.current
        (some (end_stream (suc c.streams_done) c))
        (rw at (
          in_dataset c.streams_total c (end_stream (suc c.streams_done) c)
            (λ m. stream_done (suc m) c.streams_done c.bytes_expected c.bytes_done)))
  JobStep-pct (finish_dataset j results failures) =
      by_dataset j.status j.datasets_total j.datasets_done j.current

  JobSteps-pct : {j j' : Job R E} → JobSteps j j' → progress_pct j ≤ progress_pct j'
  JobSteps-pct {j} at_once = le_refl (progress_pct j)
  JobSteps-pct (then_step before step) = le_trans (JobSteps-pct before) (JobStep-pct step)

  -- Through any sequence of steps of a restore, with its total number of datasets and its status
  -- unchanged, the percentage that is shown does not fall. It is at most 100, at most 99 while the
  -- restore runs, and 100 when it is done.
  pub progress_pct_lem :
      {j j' : Job R E}
      → JobSteps j j'
      → (progress_pct j ≤ progress_pct j')
        × (lowest j'.status ≤ progress_pct j')
        × (progress_pct j' ≤ highest j'.status)
  unfolding progress_pct
  progress_pct_lem {j} {j'} steps =
      let (low, high) =
        percent_by_bounds j'.status j'.datasets_total j'.datasets_done (fraction j'.current) in
      (JobSteps-pct steps, low, high)
