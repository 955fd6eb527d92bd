-- ===== src/BackupGroup/Session/Counts.antt =====
-- What the loops of a session count: each dataset of each set once, unless a set blocks.
use nazman.Prelude.{
  ℕ, suc, ◌+◌, ◌*◌, ◌≤◌, ◌≡◌, refl, sym, subst, String, Bool, true, false, Option, none, some, List,
  [], ◌∷◌, length, ok, continue_ind, ◌>>=◌, pure, if◌then◌else◌, is_some, arith,
}
use nazman.BackupGroup.Rows.{BackupDisk, BackupSet, SessionError, Run, BackupType}
use nazman.BackupGroup.Session.{Ctx}
use nazman.BackupGroup.Session.Media.{Media, Act, Sent, SendStatus, lift}
use nazman.BackupGroup.Session.Writes.{
  Tally, Outcome, nothing_yet, active_disk, advance_for_space, new_run, send, record_missing,
  recycle_for_space,
}
use nazman.BackupGroup.Session.Execute.{
  Step, Written, progress, tell_promoted, count_as, count_sent, after_recycling, after_advance,
  after_status, after_step, write_dataset, write_datasets, on_disk, write_one_set, after_set,
  write_sets, add_tally,
}

-- what every value that the call returns satisfies
record Yields {W A : Type 0} (P : A → Type 0) (m : Act W A) : Type 0 where
  at : (c : Ctx W) (a : A) → (m c).0 ≡ ok a → P a

module _ {W A : Type 0} (P : A → Type 0) where
  Yields-bind :
      {B : Type 0} (Q : B → Type 0) (m : Act W B) (f : B → Act W A)
      → Yields Q m
      → ((b : B) → Q b → Yields P (f b))
      → Yields P (m >>= f)
  unfolding ◌>>=◌
  Yields-bind Q m f ym yf = record {
    at = λ c.
        continue_ind (λ r. (a : A) → r.0 ≡ ok a → P a) (m c).0 f (m c).1 (λ e _ a h. absurd (cc))
          (λ b went. (yf b (ym.at c b went)).at (m c).1);
  }

  Yields-after :
      {B : Type 0} (m : Act W B) (f : B → Act W A) → ((b : B) → Yields P (f b)) → Yields P (m >>= f)
  Yields-after m f yf = Yields-bind (λ _. Unit) m f (record { at = λ _ _ _. tt }) (λ b _. yf b)

  Yields-pure : (a : A) → P a → Yields {W = W} P (pure a)
  Yields-pure a p = record { at = λ c b h. subst P (cc) p }

  Yields-if : (b : Bool) (m n : Act W A) → Yields P m → Yields P n → Yields P (if b then m else n)
  Yields-if true m n ym yn = ym
  Yields-if false m n ym yn = yn

-- the datasets that a tally has counted
pub counted : Tally → ℕ
counted t = t.done + t.skipped + t.failed

-- one more is counted, and a block has its error
One : Tally → Step → Type 0
One t (Step.next rec t') = counted t' ≡ counted t + 1
One t (Step.blocked out) = (counted out.tally ≡ counted t + 1) × is_some out.stopped ≡ true

-- `n` more are counted where nothing stopped the loop, else at most so many
pub Counted : ℕ → ℕ → Bool → ℕ → Type 0
Counted before n false after = after ≡ before + n
Counted before n true after = (before ≤ after) × (after ≤ before + n)

-- what a loop that began with a tally returns
CountedOut : Tally → ℕ → Outcome → Type 0
CountedOut t n out = Counted (counted t) n (is_some out.stopped) (counted out.tally)

CountedSets : Tally → ℕ → Written → Type 0
CountedSets t n w = Counted (counted t) n (is_some w.stopped) (counted w.tally)

Counted-add :
    (before n middle m : ℕ) (stopped : Bool) (after : ℕ)
    → middle ≡ before + n
    → Counted middle m stopped after
    → Counted before (n + m) stopped after
unfolding Counted
Counted-add before n middle m false after here rest = omega arith
Counted-add before n middle m true after here (low, high) = (omega arith, omega arith)

Counted-suc :
    (before n : ℕ) (stopped : Bool) (after next : ℕ)
    → next ≡ before + 1
    → Counted next n stopped after
    → Counted before (suc n) stopped after
unfolding Counted
Counted-suc before n false after next one rest = omega arith
Counted-suc before n true after next one (low, high) = (omega arith, omega arith)

Counted-one : (before n after : ℕ) → after ≡ before + 1 → Counted before (suc n) true after
unfolding Counted
Counted-one before n after one = (omega arith, omega arith)

module _ {W : Type 0} (media : Media W) (now : ℕ) (bset : BackupSet) (dataset : String) where
  One-progress :
      (t t' : Tally) (rec : BackupDisk)
      → counted t' ≡ counted t + 1
      → Yields (One t) (progress media now rec t')
  unfolding progress One
  One-progress t t' rec more =
      Yields-after (One t) _ _ (λ _. Yields-pure (One t) (Step.next rec t') more)

  One-count_as :
      (rec : BackupDisk) (t : Tally) (run : Run) (status : SendStatus)
      → Yields (One t) (count_as media now bset dataset rec t run status)
  unfolding counted
  One-count_as rec t run SendStatus.success =
      Yields-after (One t) (tell_promoted media now bset dataset run) _
        λ _. One-progress t _ rec (omega arith)
  One-count_as rec t run SendStatus.skipped = One-progress t _ rec (omega arith)
  One-count_as rec t run SendStatus.failed = One-progress t _ rec (omega arith)
  One-count_as rec t run (SendStatus.needs_space n) = One-progress t _ rec (omega arith)

  One-count_sent :
      (rec : BackupDisk) (t : Tally) (sent : Sent)
      → Yields (One t) (count_sent media now bset dataset rec t sent)
  unfolding count_sent
  One-count_sent rec t sent = One-count_as rec t sent.run sent.status

  One-after_recycling :
      (rec : BackupDisk) (t : Tally) (sent : Option Sent)
      → Yields (One t) (after_recycling media now bset dataset rec t sent)
  unfolding One counted
  One-after_recycling rec t none = Yields-pure (One t) _ (omega arith, refl)
  One-after_recycling rec t (some sent) = One-count_sent rec t sent

  One-after_advance :
      (rec : BackupDisk) (run : Run) (t : Tally) (moved : Option BackupDisk)
      → Yields (One t) (after_advance media now bset dataset rec run t moved)
  unfolding One counted
  One-after_advance rec run t none = Yields-after (One t) _ _ λ may_recycle.
      Yields-if (One t) may_recycle _ _
        (Yields-after (One t) (recycle_for_space media now rec run) _ (One-after_recycling rec t))
        (Yields-pure (One t) _ (omega arith, refl))
  One-after_advance rec run t (some moved) = Yields-after (One t) _ _ λ _.
      Yields-after (One t) _ _ λ _.
        Yields-after (One t) _ _
          λ _. Yields-after (One t) (send media now moved _) _ (One-count_sent moved t)

  One-after_status :
      (rec : BackupDisk) (t : Tally) (sent : Sent) (status : SendStatus)
      → Yields (One t) (after_status media now bset dataset rec t sent status)
  One-after_status rec t sent (SendStatus.needs_space n) =
      Yields-after (One t) (advance_for_space media now bset rec n) _
        (One-after_advance rec sent.run t)
  One-after_status rec t sent SendStatus.success = One-count_sent rec t sent
  One-after_status rec t sent SendStatus.skipped = One-count_sent rec t sent
  One-after_status rec t sent SendStatus.failed = One-count_sent rec t sent

  One-write_dataset :
      (kind : BackupType) (rec : BackupDisk) (t : Tally)
      → Yields (One t) (write_dataset media now bset kind dataset rec t)
  unfolding write_dataset counted
  One-write_dataset kind rec t =
      Yields-after (One t) (lift (media.dataset_exists dataset)) _ λ exists.
        Yields-if (One t) exists _ _
          (Yields-after (One t) _ _ λ _.
            Yields-after (One t) (new_run media now dataset kind rec (some bset.id)) _ λ run.
              Yields-after (One t) (send media now rec run) _
                λ sent. One-after_status rec t sent sent.status)
          (Yields-after (One t) (record_missing media now dataset rec) _
            λ _. One-progress t _ rec (omega arith))

  -- the rest of the loop after a step
  Counted-after_step :
      (t : Tally) (n : ℕ) (goes_on : BackupDisk → Tally → Act W Outcome) (step : Step)
      → One t step
      → ((rec : BackupDisk) (t' : Tally) → Yields (CountedOut t' n) (goes_on rec t'))
      → Yields (CountedOut t (suc n)) (after_step media now goes_on step)
  unfolding One CountedOut
  Counted-after_step t n goes_on (Step.next rec t') one rest = record {
    at = λ c out h.
        Counted-suc (counted t) n (is_some out.stopped) (counted out.tally) (counted t') one
          ((rest rec t').at c out h);
  }
  Counted-after_step t n goes_on (Step.blocked out) (one, stops) rest =
      Yields-pure (CountedOut t (suc n)) out (
        subst (λ b. Counted (counted t) (suc n) b (counted out.tally)) (sym stops)
          (Counted-one (counted t) n (counted out.tally) one))

module _ {W : Type 0} (media : Media W) (now : ℕ) where
  Counted-write_datasets :
      (bset : BackupSet) (kind : BackupType) (datasets : List String) (rec : BackupDisk) (t : Tally)
      → Yields (CountedOut t (length datasets)) (write_datasets media now bset kind datasets rec t)
  unfolding write_datasets CountedOut Counted
  Counted-write_datasets bset kind [] rec t = Yields-pure _ _ (omega arith)
  Counted-write_datasets bset kind (dataset ∷ rest) rec t =
      let counted_rest = Counted-write_datasets bset kind rest in
      Yields-bind _ (One t) (write_dataset media now bset kind dataset rec t) _
        (One-write_dataset media now bset dataset kind rec t)
        λ step one.
          Counted-after_step media now bset dataset t (length rest) _ step one counted_rest

  Counted-on_disk :
      (bset : BackupSet) (datasets : List String) (rec : Option BackupDisk)
      → Yields (CountedOut nothing_yet (length datasets)) (on_disk media now bset datasets rec)
  unfolding CountedOut Counted counted
  Counted-on_disk bset datasets none = Yields-pure _ _ (omega arith, omega arith)
  Counted-on_disk bset datasets (some rec) = Yields-after _ _ _ λ asked.
      Yields-after _ _ _
        λ _. Yields-after _ _ _ λ _. Counted-write_datasets bset _ datasets rec nothing_yet

  Counted-write_one_set :
      (bset : BackupSet) (datasets : List String)
      → Yields (CountedOut nothing_yet (length datasets)) (write_one_set media now bset datasets)
  unfolding write_one_set
  Counted-write_one_set bset datasets =
      Yields-after _ (active_disk media now bset) _ (Counted-on_disk bset datasets)

  -- the rest of the loop over the sets, after one of them
  Counted-after_set :
      (t : Tally) (n m : ℕ) (goes_on : List BackupDisk → Act W Written) (cur : BackupSet)
      (t' : Tally) (recs : List BackupDisk) (stopped : Option (SessionError × Option String))
      → Counted (counted t) n (is_some stopped) (counted t')
      → ((recs' : List BackupDisk) → Yields (CountedSets t' m) (goes_on recs'))
      → Yields (CountedSets t (n + m)) (after_set media now goes_on cur t' recs stopped)
  unfolding CountedSets Counted
  Counted-after_set t n m goes_on cur t' recs none here rest = record {
    at = λ c w h.
        Counted-add (counted t) n (counted t') m (is_some w.stopped) (counted w.tally) here
          ((rest recs).at c w h);
  }
  Counted-after_set t n m goes_on cur t' recs (some (error, dataset)) (low, high) rest =
      Yields-pure _ _ (low, omega arith)

  Counted-added :
      (t part : Tally) (n : ℕ) (stopped : Bool)
      → Counted (counted nothing_yet) n stopped (counted part)
      → Counted (counted t) n stopped (counted (add_tally t part))
  unfolding Counted counted
  Counted-added t part n false all = omega arith
  Counted-added t part n true (low, high) = (omega arith, omega arith)

  Counted-write_sets :
      (sets : List BackupSet) (datasets : List String) (t : Tally) (recs : List BackupDisk)
      → Yields
          (CountedSets t (length sets * length datasets))
          (write_sets media now sets datasets t recs)
  unfolding write_sets CountedSets Counted CountedOut
  Counted-write_sets [] datasets t recs = Yields-pure _ _ (omega arith)
  Counted-write_sets (cur ∷ others) datasets t recs =
      let counted_rest = Counted-write_sets others datasets in
      subst (λ n. Yields (CountedSets t n) (write_sets media now (cur ∷ others) datasets t recs))
        (omega arith)
        (Yields-bind (CountedSets t (length datasets + length others * length datasets))
          (CountedOut nothing_yet (length datasets)) (write_one_set media now cur datasets) _
          (Counted-write_one_set cur datasets)
          λ out all.
            Counted-after_set t (length datasets) (length others * length datasets) _ cur
              (add_tally t out.tally) _ out.stopped
              (Counted-added t out.tally (length datasets) (is_some out.stopped) all)
              (counted_rest (add_tally t out.tally)))

  -- The loop over the sets that returns without a block has counted every dataset of every set
  -- once more than the tally it began with, as done, skipped or failed. One that a set has blocked
  -- has counted no less than it began with and no more than that.
  pub write_sets_lem :
      (sets : List BackupSet) (datasets : List String) (t : Tally) (recs : List BackupDisk)
      (c : Ctx W) (w : Written)
      → (write_sets media now sets datasets t recs c).0 ≡ ok w
      → Counted (counted t) (length sets * length datasets) (is_some w.stopped) (counted w.tally)
  unfolding CountedSets
  write_sets_lem sets datasets t recs c w returned =
      (Counted-write_sets sets datasets t recs).at c w returned
