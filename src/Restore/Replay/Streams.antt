-- ===== src/Restore/Replay/Streams.antt =====
-- Which streams of a chain are replayed, and when the restore of a dataset is a success.
use nazman.Prelude.{
  ℕ, suc, String, Bool, true, false, ◌||◌, Option, none, some, List, [], ◌∷◌, ◌++◌, Result, ok, err,
  ◌≡◌, refl, sym, ap, ◌∙◌, inl, inr, Bool-cases, Option-cases, subst, any, ◌⊎◌,
}
use mathlib.Core.List.{append-nil, append_assoc}
use nazman.Validation.{Invalid, validate_dataset_name}
use nazman.Manifest.{RunEntry}
use nazman.Restore.Volumes.{Candidate, Outside, locate_stream}
use nazman.Restore.Located.{is_there, Holds, locate_stream-none, locate_stream-some}
use nazman.Restore.Job.{start_stream}
use nazman.Restore.Replay.{
  success, failed, restore_streams, RestoreError, Receipt, EntryStatus, RestoreEntry, Service,
  with_job, on_current, is_incremental, received, receive_file, receive_valid, receive_stream,
  after_receive, restore_one, stream_finished,
}

module _ {W : Type 0} (outside : Outside W) (tracked : Bool) where
  abbrev Got : String → String → Bool → Result RestoreError Receipt × Service W → Type 0
  Got file target force (ok r, s) = r ≡ record { dataset = target; source = file; force = force }
  Got file target force (err e, s) = Unit

  received-Got :
      (file target : String) (force : Bool) (answer : (List ℕ × Option Bool) × W) (s : Service W)
      → Got file target force (
          received outside tracked
            record { dataset = target; source = file; force = force }
            answer
            s)
  received-Got file target force ((reports, some true), w) s = refl
  received-Got file target force ((reports, some false), w) s = tt
  received-Got file target force ((reports, none), w) s = tt

  receive_stream-Got :
      (file target : String) (force : Bool) (s : Service W)
      → Got file target force (receive_stream outside tracked file target force s)
  unfolding receive_stream
  receive_stream-Got file target force s = go (validate_dataset_name target)
    where
      head :
          (o : Option Bool)
          → Got file target force (receive_file outside tracked o file target force s)
      head none = tt
      head (some gzip) =
          received-Got file target force (outside.receive gzip file force target s.world) s

      go :
          (v : Result Invalid String)
          → Got file target force (receive_valid outside tracked v file target force s)
      go (err e) = tt
      go (ok name) = elim (Bool-cases (outside.path_exists file s.world)) [
        | inl there ↦ rw there (head (outside.is_gzip file s.world))
        | inr gone ↦ rw gone tt
      ]

  module _ (source target : String) (mounted : List (Candidate × String)) where
    -- the service as a stream is opened
    abbrev pub opened : ℕ → RunEntry → Service W → Service W
    opened index b s = with_job tracked (on_current (start_stream index b.size_bytes)) s

    -- What the replay of a chain from a state has received, and how it ended: each receipt is the
    -- answer for the next stream, at the state that the one before has left. The replay fails at a
    -- stream that no mounted volume has, or that is not received.
    abbrev pub Replay : ℕ → Bool → List RunEntry → List Receipt → EntryStatus → Service W → Type 0
    Replay index exists [] [] status s = status ≡ success
    Replay index exists [] (r ∷ rs) status s = ⊥
    Replay index exists (b ∷ bs) [] status s =
        (status ≡ failed)
        × ((any (is_there outside b s.world) mounted ≡ false)
            ⊎ ((file : String) × Holds outside mounted b file s.world
                × ((e : RestoreError) × ((receive_stream outside tracked file target
                        (exists || is_incremental b) (opened index b s)).0
                      ≡ err e))))
    Replay index exists (b ∷ bs) (r ∷ rs) status s =
        Holds outside mounted b r.source s.world
        × (r.dataset ≡ target)
        × (r.force ≡ (exists || is_incremental b))
        × ((s' : Service W) × (receive_stream outside tracked r.source target
                (exists || is_incremental b) (opened index b s)
              ≡ (ok r, s'))
            × Replay (suc index) true bs rs status (with_job tracked (stream_finished index) s'))

    abbrev IsReplay :
        ℕ → Bool → List Receipt → List RunEntry → Service W → RestoreEntry × Service W → Type 0
    IsReplay index exists got bs s (entry, t) =
        (rs : List Receipt) × (entry.streams ≡ got ++ rs) × Replay index exists bs rs entry.status s

    after_receive-IsReplay :
        (index : ℕ) (exists : Bool) (got : List Receipt) (b : RunEntry) (bs : List RunEntry)
        (file : String) (s : Service W)
        → Holds outside mounted b file s.world
        → (rest : Receipt → Service W → RestoreEntry × Service W)
        → ((r : Receipt) (t : Service W)
            → IsReplay (suc index) true (got ++ r ∷ []) bs t (rest r t))
        → (answer : Result RestoreError Receipt × Service W)
        → receive_stream outside tracked file target (exists || is_incremental b) (opened index b s)
          ≡ answer
        → Got file target (exists || is_incremental b) answer
        → IsReplay index exists got
            (b ∷ bs)
            s
            (after_receive outside tracked source target got index rest answer)
    after_receive-IsReplay index exists got b bs file s has rest ih (err e, t) at h =
        ([], sym (append-nil got), (refl, inr (file, has, (e, ap (λ p. p.0) at))))
    after_receive-IsReplay index exists got b bs file s has rest ih (ok r, t) at h =
        let t' = with_job tracked (stream_finished index) t in
        let (rs, streams, replay) = ih r t' in
        let from : file ≡ r.source = sym (ap (λ r. r.source) h) in
        (
          r ∷ rs,
          streams ∙ append_assoc got (r ∷ []) rs,
          (
            subst (λ f. Holds outside mounted b f s.world) from has,
            ap (λ r. r.dataset) h,
            ap (λ r. r.force) h,
            (
              t,
              subst
                  (λ f.
                    receive_stream outside tracked f target (exists || is_incremental b)
                      (opened index b s)
                    ≡ (ok r, t))
                  from at,
              replay,
            ),
          ),
        )

    restore_streams-IsReplay :
        (index : ℕ) (exists : Bool) (got : List Receipt) (bs : List RunEntry) (s : Service W)
        → IsReplay index exists got bs s
            (restore_streams outside tracked source target mounted index exists got bs s)
    unfolding restore_streams
    restore_streams-IsReplay index exists got [] s = ([], sym (append-nil got), refl)
    restore_streams-IsReplay index exists got (b ∷ bs) s =
        elim (Option-cases (locate_stream outside b mounted s.world)) [
          | inl missing ↦
              rw (restore_streams, missing)
                (
                  [],
                  sym (append-nil got),
                  (refl, inl (locate_stream-none outside mounted b s.world missing)),
                )
          | inr (file, found) ↦
              rw (restore_streams, found)
                (after_receive-IsReplay index exists got b bs file s
                  (locate_stream-some outside mounted b s.world file found)
                  (λ r t.
                    restore_streams outside tracked source target mounted (suc index) true
                      (got ++ r ∷ []) bs t)
                  (λ r t. restore_streams-IsReplay (suc index) true (got ++ r ∷ []) bs t)
                  (receive_stream outside tracked file target (exists || is_incremental b)
                    (opened index b s))
                  refl
                  (receive_stream-Got file target (exists || is_incremental b) (opened index b s)))
        ]

    -- The restore of a dataset replays the streams of its chain in their order: each is received
    -- from a file that is there on a mounted volume, on the recorded one if that has it. It
    -- overwrites the target from the second stream on, and with the first if the target exists or
    -- the stream is incremental. It is a success if it has received all of them, and else a failure
    -- at the first stream that no mounted volume has or whose receive raises.
    pub restore_one_lem :
        (chain : List RunEntry) (s : Service W)
        → let entry = (restore_one outside tracked source target chain mounted s).0 in
          Replay 1 (outside.dataset_exists target s.world) chain entry.streams entry.status s
    unfolding restore_one
    restore_one_lem chain s =
        let (rs, streams, replay) =
          restore_streams-IsReplay 1 (outside.dataset_exists target s.world) [] chain s in
        rw streams replay
