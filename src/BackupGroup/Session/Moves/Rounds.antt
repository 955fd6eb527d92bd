-- ===== src/BackupGroup/Session/Moves/Rounds.antt =====
-- Session after session of one group, the rotation reaches every set of its cycle.
use nazman.Prelude.{ℕ, ◌≡◌, ◌⊎◌, List, [], ◌∷◌, Result, ok, err}
use nazman.BackupGroup.Rows.{Group, BackupSet, SessionStatus}
use nazman.BackupGroup.Cycle.Rotation.{IsCycle}
use nazman.BackupGroup.Cycle.Fairness.{next_targets}
use nazman.BackupGroup.Session.{Ctx, Failure}
use nazman.BackupGroup.Session.Media.{Media}
use nazman.BackupGroup.Session.Finish.{execute_session}

-- A session has written: it ended in `success` or in `partial`.
abbrev pub HasWritten : Result Failure SessionStatus → Type 0
HasWritten r = (r ≡ ok SessionStatus.success) ⊎ (r ≡ ok SessionStatus.partial)

-- It failed, a set blocked it, or a call raised.
abbrev pub HasStopped : Result Failure SessionStatus → Type 0
HasStopped r =
    (r ≡ ok SessionStatus.failed)
    ⊎ (r ≡ ok SessionStatus.needs_disk)
    ⊎ ((e : Failure) × (r ≡ err e))

-- Sessions of a group in a row, each on the row that the one before has left, with the targets of
-- those that have written.
pub data Sessions {W : Type 0} (media : Media W) (first : BackupSet) (rest : List BackupSet)
    : Group → List (List BackupSet) → Type 0 where
  no_more : {g : Group} → Sessions media first rest g []
  has_written :
      {g : Group} {later : List (List BackupSet)} (now : ℕ) (c : Ctx W)
      → c.group ≡ g
      → c.sets ≡ first ∷ rest
      → HasWritten (execute_session media now c).0
      → Sessions media first rest (execute_session media now c).1.group later
      → Sessions media first rest g (next_targets first rest g ∷ later)
  has_stopped :
      {g : Group} {later : List (List BackupSet)} (now : ℕ) (c : Ctx W)
      → c.group ≡ g
      → c.sets ≡ first ∷ rest
      → HasStopped (execute_session media now c).0
      → Sessions media first rest (execute_session media now c).1.group later
      → Sessions media first rest g later

module _ {W : Type 0} (media : Media W) (first : BackupSet) (rest : List BackupSet)
    (distinct : IsCycle (first ∷ rest)) where
  abbrev sets : List BackupSet
  sets = first ∷ rest
