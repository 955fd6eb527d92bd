-- ===== src/Validation/Samples.antt =====
-- Names that are accepted and refused.
use nazman.Prelude.{ℕ, ◌≡◌, refl, String, Result, ok, err, Bool, ◌&&◌, leb, List, [], ◌∷◌}
use nazman.Prelude.Texts.{words}
use nazman.Validation.{
  Invalid, empty_segment, validate_dataset_name, validate_snapshot_name, validate_schedule,
}
use nazman.Validation.Names.{validate_snapshot_name_lem}

lowered : validate_dataset_name "Tank/Photos" ≡ ok "tank/photos"
unfolding validate_dataset_name nazman.Prelude.Texts.text_length nazman.Validation.all_in
    nazman.Prelude.Texts.starts_with_code nazman.Prelude.Texts.ends_with_code
    nazman.Prelude.Texts.has_pair nazman.Prelude.Texts.lower
lowered = refl

empty_part : validate_dataset_name "tank//photos" ≡ err empty_segment
unfolding validate_dataset_name nazman.Prelude.Texts.text_length nazman.Validation.all_in
    nazman.Prelude.Texts.starts_with_code nazman.Prelude.Texts.ends_with_code
    nazman.Prelude.Texts.has_pair
empty_part = refl

line_feed : validate_dataset_name "tank\n" ≡ ok "tank\n"
unfolding validate_dataset_name nazman.Prelude.Texts.text_length nazman.Validation.all_in
    nazman.Prelude.Texts.starts_with_code nazman.Prelude.Texts.ends_with_code
    nazman.Prelude.Texts.has_pair nazman.Prelude.Texts.lower
line_feed = refl

validate_snapshot_name_example :
    ◌≡◌ {A = String} "tank/a@x" "tank/a@x"
    × ((e : Invalid) × (validate_dataset_name "tank/a@x" ≡ err e))
unfolding validate_snapshot_name nazman.Prelude.Texts.count_code nazman.Prelude.Texts.split_once
    nazman.Prelude.Texts.text_length nazman.Validation.all_in nazman.Prelude.Texts.starts_with_code
    nazman.Prelude.Texts.ends_with_code nazman.Prelude.Texts.has_pair
validate_snapshot_name_example = validate_snapshot_name_lem "tank/a@x" "tank/a@x" refl
