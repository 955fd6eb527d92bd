-- ===== src/Restore/Located.antt =====
-- On which mounted volume `_locate_stream` of nazman/services/system_restore.py finds a stream.
use nazman.Prelude.{
  String, Bool, true, false, ◌&&◌, none, some, option_or_none, List, [], ◌∷◌, any, ◌≡◌, refl, sym,
  ◌∙◌, inl, inr, Bool-cases, Option-cases,
}
use nazman.Prelude.Occurs.{Occurs, Occurs-cons, Occurs-any}
use nazman.Manifest.{RunEntry}
use nazman.Restore.Volumes.{
  Candidate, Outside, joined, or_text, preferred_by, stream_on, locate_stream,
}

module _ {W : Type 0} (outside : Outside W) where
  -- the file of a stream on a volume
  abbrev pub file_on : RunEntry → Candidate × String → String
  file_on b m = joined m.1 (or_text b.stream_file "")

  abbrev pub is_there : RunEntry → W → Candidate × String → Bool
  is_there b w m = outside.path_exists (file_on b m) w

  abbrev pub is_recorded : RunEntry → Candidate × String → Bool
  is_recorded b m = preferred_by outside (option_or_none b.media_fs_uuid) m.0

  -- The file of a stream is there on a mounted volume, which is the one that the manifest records
  -- if such a volume has the file.
  abbrev pub Holds : List (Candidate × String) → RunEntry → String → W → Type 0
  Holds mounted b file w =
      (m : Candidate × String) × Occurs m mounted
      × (file ≡ file_on b m)
      × (outside.path_exists file w ≡ true)
      × (is_recorded b m ≡ any (λ n. is_recorded b n && is_there b w n) mounted)

  stream_on-some :
      (wanted : Candidate → Bool) (relative : String) (ms : List (Candidate × String)) (w : W)
      (file : String)
      → stream_on outside wanted relative ms w ≡ some file
      → (m : Candidate × String) × Occurs m ms
        × (file ≡ joined m.1 relative)
        × ((wanted m.0 && outside.path_exists (joined m.1 relative) w) ≡ true)
  stream_on-some wanted relative [] w file h = absurd (cc)
  stream_on-some wanted relative ((c, place) ∷ rest) w file h =
      elim (Bool-cases (wanted c && outside.path_exists (joined place relative) w)) [
        | inl e ↦
            let same : file ≡ joined place relative = let h' = rw e at h in cc in
            ((c, place), (0, refl), same, e)
        | inr e ↦
            let (m, there, same, met) = stream_on-some wanted relative rest w file (rw e at h) in
            (m, Occurs-cons m (c, place) rest there, same, met)
      ]

  stream_on-none :
      (wanted : Candidate → Bool) (relative : String) (ms : List (Candidate × String)) (w : W)
      → stream_on outside wanted relative ms w ≡ none
      → any (λ m. wanted m.0 && outside.path_exists (joined m.1 relative) w) ms ≡ false
  stream_on-none wanted relative [] w h = refl
  stream_on-none wanted relative ((c, place) ∷ rest) w h =
      elim (Bool-cases (wanted c && outside.path_exists (joined place relative) w)) [
        | inl e ↦ absurd (let h' = rw e at h in cc)
        | inr e ↦ rw e (stream_on-none wanted relative rest w (rw e at h))
      ]

  both_of : (a b : Bool) → (a && b) ≡ true → (a ≡ true) × (b ≡ true)
  both_of true b h = (refl, h)
  both_of false b h = absurd (cc)

  module _ (mounted : List (Candidate × String)) (b : RunEntry) (w : W) where
    abbrev met : Candidate × String → Bool
    met n = is_recorded b n && is_there b w n

    -- nothing is found just if no mounted volume has the file
    pub locate_stream-none :
        locate_stream outside b mounted w ≡ none → any (is_there b w) mounted ≡ false
    unfolding locate_stream
    locate_stream-none h =
        elim (Option-cases (
          stream_on outside (preferred_by outside (option_or_none b.media_fs_uuid))
            (or_text b.stream_file "") mounted w)) [
              | inl e ↦ stream_on-none (λ _. true) (or_text b.stream_file "") mounted w (rw e at h)
              | inr (f, e) ↦ absurd (let h' = rw e at h in cc)
            ]

    pub locate_stream-some :
        (file : String) → locate_stream outside b mounted w ≡ some file → Holds mounted b file w
    unfolding locate_stream
    locate_stream-some file h =
        let relative = or_text b.stream_file "" in
        let wanted = preferred_by outside (option_or_none b.media_fs_uuid) in
        elim (Option-cases (stream_on outside wanted relative mounted w)) [
          | inl e ↦
              let others = stream_on-none wanted relative mounted w e in
              let (m, there, same, its) =
                stream_on-some (λ _. true) relative mounted w file (rw e at h) in
              (
                m,
                there,
                same,
                rw same its,
                elim (Bool-cases (is_recorded b m)) [
                  | inl r ↦
                      let found : any met mounted ≡ true =
                        Occurs-any met m mounted there (rw (r, its) refl) in
                      absurd (cc)
                  | inr r ↦ r ∙ sym others
                ],
              )
          | inr (f, e) ↦
              let same_file : f ≡ file = let h' = rw e at h in cc in
              let (m, there, same, its) =
                stream_on-some wanted relative mounted w file (rw same_file at e) in
              let (recorded, present) = both_of (is_recorded b m) (is_there b w m) its in
              (m, there, same, rw same present, recorded ∙ sym (Occurs-any met m mounted there its))
        ]
