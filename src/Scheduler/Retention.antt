-- ===== src/Scheduler/Retention.antt =====
-- What the retention of automatic snapshots destroys.
use text.Mathlib.Text.{is_le, find? as find_text}
use Prim.Native.String.{compare}
use nazman.Prelude.{String, Bool}
use nazman.Prelude.Occurs.{Occurs}

abbrev not_before : String → String → Bool
not_before s t = is_le (compare s t)
