-- ===== src/ZfsBackup/Steps.antt =====
-- The steps of `backup_dataset`, and what each leaves of the run's row.
use nazman.Prelude.{
  ℕ, ◌≡◌, refl, sym, ap, ◌∙◌, String, Bool, true, false, Option, none, some, is_some,
}
use nazman.BackupGroup.Rows.{
  BackupDisk, Run, RunStatus, BackupType, full, incremental, snapshotting, sending, pruning,
  insufficient_space,
}
use nazman.BackupGroup.Session.Media.{SendStatus}
use nazman.ZfsBackup.Stream.{
  Target, Plan, call, set_run, set_snap, row, asks, plan_on, plan_for, take, snapshot_after,
  snapshot_of_run, sent_with, estimate, send_if, write_stream, write_changed, compare_with, attempt,
  promoted, mark_sent, mark_failed, mark_full_disk, mark_skipped, with_phase,
}
use nazman.ZfsBackup.Triples.{
  Triple, follow, called, asked, named, wrote, read, gave, weaker, weaker_after,
}

-- A full stream has no base. An incremental one has.
pub IsLinked : BackupType → Option String → Option String → Type 0
IsLinked full base anchor = (base ≡ none) × (anchor ≡ none)
IsLinked incremental base anchor = is_some base ≡ true

-- What the row says for each answer.
unfoldable pub Matches : SendStatus → Run → Type 0
Matches SendStatus.success r =
    (r.status ≡ RunStatus.success)
    × (r.phase ≡ none)
    × (is_some r.snapshot ≡ true)
    × IsLinked r.backup_type r.base_snapshot r.full_anchor
Matches SendStatus.skipped r =
    (r.status ≡ RunStatus.skipped)
    × (r.phase ≡ none)
    × (is_some r.snapshot ≡ true)
    × IsLinked r.backup_type r.base_snapshot r.full_anchor
Matches SendStatus.failed r = r.status ≡ RunStatus.failed
Matches (SendStatus.needs_space n) r =
    (r.status ≡ RunStatus.failed)
    × (r.error ≡ some insufficient_space)
    × (is_some r.snapshot ≡ true)

-- The row, once the plan is made for it.
Planned : Plan → Run → Type 0
Planned plan r = (r.backup_type ≡ plan.kind) × IsLinked plan.kind plan.base plan.anchor

Ready : Plan → Run → Type 0
Ready plan r = Planned plan r × (is_some r.snapshot ≡ true)

-- a row that is marked as sent, in whatever phase
Sent : Run → Type 0
Sent r =
    (r.status ≡ RunStatus.success)
    × (is_some r.snapshot ≡ true)
    × IsLinked r.backup_type r.base_snapshot r.full_anchor

IsLinked-same :
    (kind kind' : BackupType) (base anchor : Option String)
    → kind ≡ kind'
    → IsLinked kind' base anchor
    → IsLinked kind base anchor
IsLinked-same kind kind' base anchor e linked = rw e linked

module _ {W : Type 0} (target : Target W) (now : ℕ) (rec : BackupDisk) where
  planned :
      (r : Run)
      → Triple
          (λ r'. r ≡ r')
          (plan_for target now rec r r.backup_type)
          (λ plan r'. Planned plan r' × (r'.snapshot ≡ r.snapshot))
  unfolding Planned IsLinked
  planned r = go r.backup_type refl
    where
      go :
          (kind : BackupType)
          → r.backup_type ≡ kind
          → Triple
              (λ r'. r ≡ r')
              (plan_for target now rec r kind)
              (λ plan r'. Planned plan r' × (r'.snapshot ≡ r.snapshot))
      go full e = gave _ (λ r' same. (
        (ap (λ (x : Run). x.backup_type) (sym same) ∙ e, (refl, refl)),
        ap (λ (x : Run). x.snapshot) (sym same),
      ))
      go incremental e =
          follow _ (call (target.set_anchor r.dataset_name r.backup_set_id)) _ (called _) based
        where
          based :
              (base : Option String)
              → Triple
                  (λ r'. r ≡ r')
                  (plan_on target now rec r base)
                  (λ plan r'. Planned plan r' × (r'.snapshot ≡ r.snapshot))
          based none =
              follow (λ _ r'. (r'.backup_type ≡ full) × (r'.snapshot ≡ r.snapshot))
                (set_run promoted) _
                (wrote promoted (λ r' same. (refl, ap (λ (x : Run). x.snapshot) (sym same))))
                λ _. gave _ (λ r' (kind, snapshot). ((kind, (refl, refl)), snapshot))
          based (some base) =
              follow _ (asks (target.chain_full_anchor r.dataset_name r.backup_set_id)) _ (asked _)
                λ anchor. gave _ (λ r' same. (
                  (ap (λ (x : Run). x.backup_type) (sym same) ∙ e, refl),
                  ap (λ (x : Run). x.snapshot) (sym same),
                ))

  took : (plan : Plan) (r : Run) → Triple (Planned plan) (take target now rec r) (λ _. Ready plan)
  unfolding take Ready Planned
  took plan r = follow _ (asks (target.new_name r.dataset_name)) _ (asked _) λ name.
      follow _ (set_snap name) _ (named name) λ _.
        follow _ (call (target.take_snapshot name)) _ (called _) λ _.
          follow (λ _. Ready plan) (set_run (λ r'. record r' { snapshot = some name })) _
            (wrote _ (λ r' p. (p, refl))) λ _. gave name (λ r' p. p)

  snapped :
      (plan : Plan) (r : Run) (snapshot : Option String)
      → Triple
          (λ r'. Planned plan r' × (r'.snapshot ≡ snapshot))
          (snapshot_of_run target now rec r snapshot)
          (λ _. Ready plan)
  unfolding Ready
  snapped plan r none = weaker (λ r' (p, _). p) (took plan r)
  snapped plan r (some s) =
      follow _ (set_snap s) _ (named s)
        λ _. follow _ (call (target.snapshot_exists s)) _ (called _) reused
    where
      reused :
          (exists : Bool)
          → Triple
              (λ r'. Planned plan r' × (r'.snapshot ≡ some s))
              (snapshot_after target now rec r s exists)
              (λ _. Ready plan)
      reused true = gave s (λ r' (p, there). (p, ap is_some there))
      reused false = weaker (λ r' (p, _). p) (took plan r)

  finished :
      (plan : Plan) (r : Run) (snap : String) (size : Option ℕ)
      → Triple (Ready plan) (sent_with target now rec r plan snap size) Matches
  unfolding sent_with Matches Ready Planned Sent
  finished plan r snap none = follow _ (call (target.unlink_stream snap)) _ (called _) λ _.
      follow _ (call (target.destroy_snapshot snap)) _ (called _) λ _.
        follow (λ _ r'. r'.status ≡ RunStatus.failed) (set_run mark_failed) _
          (wrote mark_failed (λ r' p. refl)) λ _. gave SendStatus.failed (λ r' p. p)
  finished plan r snap (some size) =
      follow (λ _. Sent) (set_run (mark_sent plan.base plan.anchor size now)) _
        (wrote _ (λ r' ((kind, linked), there).
          (refl, there, IsLinked-same r'.backup_type plan.kind plan.base plan.anchor kind linked)))
        λ _.
          follow (λ _. Sent) (set_run (with_phase (some pruning))) _ (wrote _ (λ r' p. p))
            λ _. follow _ (call (target.prune_old_anchors r.dataset_name snap)) _ (called _) λ _.
              follow (λ _. Matches SendStatus.success) (set_run (with_phase none)) _
                (wrote _ (λ r' (status, there, linked). (status, refl, there, linked)))
                λ _.
                  follow (λ _. Matches SendStatus.success) row _
                    (weaker_after (λ a r' (_, p). p) read)
                    λ done.
                      follow _ (call (target.record_manifest rec.id done)) _ (called _)
                        λ _. gave SendStatus.success (λ r' p. p)

  estimated :
      {P : Run → Type 0} (r : Run) (kind : BackupType)
      → Triple P (estimate target now rec r kind) (λ _ r'. P r')
  estimated r full = called _
  estimated r incremental = called _

  fitted :
      (plan : Plan) (r : Run) (snap : String) (needed : ℕ) (fits : Bool)
      → Triple (Ready plan) (send_if target now rec r plan snap needed fits) Matches
  unfolding Matches Ready Planned
  fitted plan r snap needed false =
      follow (λ _. Matches (SendStatus.needs_space needed)) (set_run mark_full_disk) _
        (wrote _ (λ r' (p, there). (refl, refl, there)))
        λ _. gave (SendStatus.needs_space needed) (λ r' p. p)
  fitted plan r snap needed true =
      follow (λ _. Ready plan) (set_run (with_phase (some sending))) _ (wrote _ (λ r' p. p))
        λ _.
          follow _ (call (target.send plan.base snap)) _ (called _)
            λ size. finished plan r snap size

  streamed :
      (plan : Plan) (r : Run) (snap : String)
      → Triple (Ready plan) (write_stream target now rec r plan snap) Matches
  unfolding write_stream
  streamed plan r snap = follow _ (call (target.make_dir r.dataset_name)) _ (called _) λ _.
      follow _ (estimate target now rec r plan.kind) _ (estimated r plan.kind) λ needed.
        follow _ (call (target.check_capacity rec.id needed)) _ (called _)
          λ fits. fitted plan r snap needed fits

  compared :
      (plan : Plan) (r : Run) (snap : String) (base : Option String)
      → Triple (Ready plan) (compare_with target now rec r plan snap base) Matches
  unfolding Matches Ready Planned
  compared plan r snap none = streamed plan r snap
  compared plan r snap (some base) = follow _ (call _) _ (called _) decided
    where
      decided :
          (changed : Bool)
          → Triple (Ready plan) (write_changed target now rec r plan snap changed) Matches
      decided true = streamed plan r snap
      decided false =
          follow (λ _. Matches SendStatus.skipped)
            (set_run (mark_skipped plan.base plan.anchor now)) _
            (wrote _ (λ r' ((kind, linked), there). (
              refl,
              refl,
              there,
              IsLinked-same r'.backup_type plan.kind plan.base plan.anchor kind linked,
            )))
            λ _.
              follow _ (call (target.destroy_snapshot snap)) _ (called _)
                λ _. gave SendStatus.skipped (λ r' p. p)

  pub attempted : Triple (λ _. Unit) (attempt target now rec) Matches
  unfolding attempt
  attempted =
      follow (λ _ _. Unit) (set_run (with_phase (some snapshotting))) _ (wrote _ (λ r p. tt))
        λ _. follow _ (call (target.mount rec.id)) _ (called _) λ _. follow _ row _ read λ r.
          follow (λ plan r'. Planned plan r' × (r'.snapshot ≡ r.snapshot))
            (plan_for target now rec r r.backup_type) _ (weaker (λ r' (same, _). same) (planned r))
            λ plan.
              follow _ (snapshot_of_run target now rec r r.snapshot) _ (snapped plan r r.snapshot)
                λ snap. compared plan r snap plan.base
