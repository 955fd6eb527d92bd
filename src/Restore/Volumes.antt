-- ===== src/Restore/Volumes.antt =====
-- The volumes of a set in nazman/services/system_restore.py: mounting them, reading their manifests
-- and finding a stream on them. The commands, and what stands on a mounted volume, are parameters.
use nazman.Prelude.{
  ℕ, String, Bool, true, false, not, ◌&&◌, ◌||◌, Option, none, some, List, [], ◌∷◌, select, map,
  is_empty, option_or_none, str_eq, if◌then◌else◌,
}
use nazman.Manifest.{RunEntry, DatasetEntry, Manifest, Volume, scan_volume, text_eq}
use Prim.Native.String.{◌++◌ as ◌<>◌}

pub record Candidate : Type 0 where
  pub device : String
  pub device_name : String
  pub by_id : Option String
  pub fstype : String
  pub fs_uuid : Option String
  pub label : Option String
  pub base_by_id : Option String
  pub base_name : String
  pub partition_number : Option ℕ

-- What is outside. A command that raises answers none.
pub record Outside (W : Type 0) : Type 0 where
  -- `_scratch_root`
  pub scratch_root : String
  pub candidates : W → List Candidate
  pub is_mount : String → W → Bool
  -- `mount -o ro`, of a device at a place: whether it returned 0
  pub mount : String → String → W → Option Bool × W
  pub umount : String → W → W
  pub volume_at : String → W → Volume
  pub now : W → ℕ
  pub path_exists : String → W → Bool
  -- the command is taken to answer: the call stands outside the `try` of `_restore_one`
  pub dataset_exists : String → W → Bool
  -- whether the first bytes of a file are those of gzip; a file that cannot be read has none
  pub is_gzip : String → W → Option Bool
  -- the pipeline of a receive: the counts that are polled, and whether it returned 0
  pub receive : Bool → String → Bool → String → W → (List ℕ × Option Bool) × W

pub record SetVolume : Type 0 where
  pub candidate : Candidate
  pub manifest : Manifest
  pub volume_id : String
  pub set_id : String

-- `f"{root}/{name}"`
abbrev pub joined : String → String → String
joined root name = root <> ("/" <> name)

abbrev pub or_text : Option String → String → String
or_text none t = t
or_text (some s) t = s

-- `candidate.get("fs_uuid") or candidate["device_name"]`
abbrev pub mount_key : Candidate → String
mount_key c = or_text (option_or_none c.fs_uuid) c.device_name

abbrev pub volume_id : Candidate → String
volume_id c = or_text (option_or_none c.fs_uuid) ("dev:" <> c.device_name)

abbrev pub first_text : List (Option String) → Option String
first_text [] = none
first_text (none ∷ ts) = first_text ts
first_text (some t ∷ ts) = if str_eq t "" then first_text ts else some t

abbrev pub first_of : Option String → Option String → Option String
first_of none next = next
first_of (some t) next = some t

unfoldable pub manifest_set_id : List DatasetEntry → Option String
manifest_set_id [] = none
manifest_set_id (d ∷ ds) =
    first_of (first_text (map (λ r. r.set_id) d.backups)) (manifest_set_id ds)

abbrev pub has_content : Manifest → Bool
has_content m =
    not (is_empty m.config_backups) || not (is_empty m.pools) || not (is_empty m.datasets)

module _ {W : Type 0} (outside : Outside W) where
  abbrev pub mounted_if : String → Option Bool × W → Option String × W
  mounted_if place (some true, w) = (if outside.is_mount place w then some place else none, w)
  mounted_if place (some false, w) = (none, w)
  mounted_if place (none, w) = (none, w)

  unfoldable pub mount_readonly : Candidate → W → Option String × W
  mount_readonly c w =
      let place = joined outside.scratch_root (mount_key c) in
      if outside.is_mount place w
      then (some place, w)
      else mounted_if place (outside.mount c.device place w)

  unfoldable pub unmount : String → W → W
  unmount place w = if outside.is_mount place w then outside.umount place w else w

  abbrev pub read_at : Option String → W → Option Manifest × W
  read_at none w = (none, w)
  read_at (some place) w =
      let m = scan_volume (outside.volume_at place w) [] "" (outside.now w) in
      (if has_content m then some m else none, unmount place w)

  unfoldable pub read_manifest : Candidate → W → Option Manifest × W
  unfolding mount_readonly unmount scan_volume
  read_manifest c w = let (place, w') = mount_readonly c w in read_at place w'

  abbrev pub set_volume : Candidate → Manifest → SetVolume
  set_volume c m = record {
    candidate = c;
    manifest = m;
    volume_id = volume_id c;
    set_id = or_text (manifest_set_id m.datasets) (volume_id c);
  }

  abbrev pub found_volume : Candidate → Option Manifest → List SetVolume → List SetVolume
  found_volume c none vs = vs
  found_volume c (some m) vs = set_volume c m ∷ vs

  unfoldable pub scan_candidates : List Candidate → W → List SetVolume × W
  unfolding read_manifest manifest_set_id
  scan_candidates [] w = ([], w)
  scan_candidates (c ∷ cs) w =
      let (m, w') = read_manifest c w in
      let (vs, w'') = scan_candidates cs w' in (found_volume c m vs, w'')

  unfoldable pub scan_volumes : W → List SetVolume × W
  unfolding scan_candidates
  scan_volumes w = scan_candidates (outside.candidates w) w

  -- the attached volumes of a set
  unfoldable pub volumes_of : String → W → List SetVolume × W
  unfolding scan_volumes
  volumes_of set_id w =
      let (vs, w') = scan_volumes w in (select (λ v. str_eq v.set_id set_id) vs, w')

  abbrev pub mounted_one :
      Candidate → Option String → List (Candidate × String) → List (Candidate × String)
  mounted_one c none rest = rest
  mounted_one c (some place) rest = (c, place) ∷ rest

  unfoldable pub mount_each : List SetVolume → W → List (Candidate × String) × W
  unfolding mount_readonly
  mount_each [] w = ([], w)
  mount_each (v ∷ vs) w =
      let (place, w') = mount_readonly v.candidate w in
      let (rest, w'') = mount_each vs w' in (mounted_one v.candidate place rest, w'')

  unfoldable pub unmount_all : List (Candidate × String) → W → W
  unfolding unmount
  unmount_all [] w = w
  unmount_all ((c, place) ∷ rest) w = unmount_all rest (unmount place w)

  -- The volume with the recorded identity first, then any volume that has the file.
  abbrev pub preferred_by : Option String → Candidate → Bool
  preferred_by none c = true
  preferred_by (some uuid) c = text_eq c.fs_uuid (some uuid)

  abbrev pub stream_on : (Candidate → Bool) → String → List (Candidate × String) → W → Option String
  stream_on wanted relative [] w = none
  stream_on wanted relative ((c, place) ∷ rest) w =
      if wanted c && outside.path_exists (joined place relative) w
      then some (joined place relative)
      else stream_on wanted relative rest w

  unfoldable pub locate_stream : RunEntry → List (Candidate × String) → W → Option String
  locate_stream run mounted w =
      let relative = or_text run.stream_file "" in
      first_of (stream_on (preferred_by (option_or_none run.media_fs_uuid)) relative mounted w)
        (stream_on (λ _. true) relative mounted w)
