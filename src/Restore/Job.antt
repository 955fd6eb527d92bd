-- ===== src/Restore/Job.antt =====
-- The job of a restore in nazman/services/system_restore.py: what is published while it runs, and
-- the percentage that is shown of it. The fractions are exact; the program computes them in floating
-- point and cuts them to whole per cents.
pub mod Progress
pub mod Steps
use nazman.Prelude.{
  ℕ, zero, suc, ◌+◌, ◌-◌, ◌*◌, ◌/◌, ◌≤◌, min, String, Bool, true, false, Option, none, some, List,
  [], ◌∷◌, ◌==◌, if◌then◌else◌,
}

pub data JobStatus : Type 0 where
  running done failed : JobStatus

-- what is restored at the moment
pub record Current : Type 0 where
  pub source : String
  pub target : String
  pub stream_index : ℕ
  pub streams_total : ℕ
  pub streams_done : ℕ
  pub bytes_done : ℕ
  pub bytes_expected : Option ℕ
  pub pct : Option ℕ

-- R is what is kept of a dataset's restore, E an error.
pub record Job (R E : Type 0) : Type 0 where
  pub set_id : String
  pub status : JobStatus
  pub datasets_total : ℕ
  pub datasets_done : ℕ
  pub datasets_failed : ℕ
  pub bytes_total : ℕ
  pub started_at : ℕ
  pub error : Option E
  pub results : List R
  pub current : Option Current

-- a number that is there and is not 0
abbrev pub nonzero : Option ℕ → Option ℕ
nonzero none = none
nonzero (some zero) = none
nonzero (some (suc n)) = some (suc n)

abbrev pub start_dataset : String → String → ℕ → Current
start_dataset source target streams_total = record {
  source = source;
  target = target;
  stream_index = 0;
  streams_total = streams_total;
  streams_done = 0;
  bytes_done = 0;
  bytes_expected = none;
  pct = none;
}

abbrev pub start_stream : ℕ → Option ℕ → Current → Current
start_stream index size_bytes c = record c {
  stream_index = index;
  streams_done = index - 1;
  bytes_done = 0;
  bytes_expected = size_bytes;
  pct = elim (nonzero size_bytes) [ none ↦ none | some n ↦ some 0 ];
}

-- `_stream_progress`: the callback that a receive polls
abbrev pub report : ℕ → Current → Current
report consumed c = record c {
  bytes_done = consumed;
  pct = elim (nonzero c.bytes_expected) [
    | none ↦ c.pct
    | some n ↦ some (min 99 (100 * consumed / n))
  ];
}

abbrev pub end_stream : ℕ → Current → Current
end_stream index c = record c { streams_done = index; bytes_done = 0 }

-- A part of 1, with its denominator: `min(1, (streams + min(1, bytes / expected)) / total)`.
abbrev pub part_of : ℕ → ℕ → Option ℕ → ℕ → ℕ × ℕ
part_of streams_total streams_done none bytes_done = (min streams_total streams_done, streams_total)
part_of streams_total streams_done (some e) bytes_done =
    (min (streams_total * e) (streams_done * e + min e bytes_done), streams_total * e)

abbrev pub fraction_in : ℕ → Current → ℕ × ℕ
fraction_in zero c = (0, 1)
fraction_in (suc n) c = part_of (suc n) c.streams_done (nonzero c.bytes_expected) c.bytes_done

abbrev pub fraction : Option Current → ℕ × ℕ
fraction none = (0, 1)
fraction (some c) = fraction_in c.streams_total c

-- `int(100 * min(1, (done + n / d) / total))`
abbrev pub percent : ℕ → ℕ → ℕ × ℕ → ℕ
percent total datasets_done (n, d) = 100 * min (total * d) (datasets_done * d + n) / (total * d)

abbrev pub percent_by : JobStatus → ℕ → ℕ → ℕ × ℕ → ℕ
percent_by done total datasets_done f = 100
percent_by running zero datasets_done f = 0
percent_by running (suc n) datasets_done f = min 99 (percent (suc n) datasets_done f)
percent_by failed zero datasets_done f = 0
percent_by failed (suc n) datasets_done f = min 100 (percent (suc n) datasets_done f)

unfoldable pub progress_pct : {R E : Type 0} → Job R E → ℕ
progress_pct job = percent_by job.status job.datasets_total job.datasets_done (fraction job.current)
