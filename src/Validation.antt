-- ===== src/Validation.antt =====
-- nazman/utils/validation.py: the names of pools, datasets and snapshots, and schedules. A text
-- is read character by character; `\d` of a schedule matches every decimal digit of Unicode, whose
-- table is a parameter.
pub mod Names
mod Samples
use nazman.Prelude.{
  ℕ, zero, suc, ◌+◌, ◌-◌, String, Bool, true, false, not, ◌&&◌, ◌||◌, List, [], ◌∷◌, length, ltb,
  leb, ◌==◌, str_eq, if◌then◌else◌, Result, ok, err,
}
use nazman.Prelude.Texts.{
  text_length, starts_with_code, ends_with_code, count_code, has_pair, lower, split_once, words,
}
use Prim.Native.Char.{code}
use Prim.Native.String.{[] as empty_text, ◌∷◌ as ◌∷s◌}

pub data Invalid : Type 0 where
  empty too_long bad_characters bad_slash empty_segment not_a_snapshot bad_fields bad_field :
      Invalid

abbrev is_letter : ℕ → Bool
is_letter c = (leb 97 c && leb c 122) || (leb 65 c && leb c 90)

abbrev is_ascii_digit : ℕ → Bool
is_ascii_digit c = leb 48 c && leb c 57

-- `[a-zA-Z0-9._-]`
abbrev pub pool_char : ℕ → Bool
pool_char c = is_letter c || is_ascii_digit c || c == 46 || c == 95 || c == 45

abbrev pub dataset_char : ℕ → Bool
dataset_char c = pool_char c || c == 47

abbrev pub snapshot_char : ℕ → Bool
snapshot_char c = pool_char c || c == 58

-- `[...]*$`: `$` also matches before a line feed that ends the text
unfoldable pub rest_in : (ℕ → Bool) → String → Bool
rest_in p empty_text = true
rest_in p (c ∷s s) =
    let rest = rest_in p s in if p (code c) then rest else code c == 10 && str_eq s ""

-- `re.match(r'^[...]+$', text)`
unfoldable pub all_in : (ℕ → Bool) → String → Bool
unfolding rest_in
all_in p empty_text = false
all_in p (c ∷s s) = p (code c) && rest_in p s

abbrev pub checked : Bool → Invalid → Result Invalid String → Result Invalid String
checked true why rest = err why
checked false why rest = rest

unfoldable pub validate_pool_name : String → Result Invalid String
validate_pool_name name = checked (str_eq name "") empty (
    checked (ltb 256 (text_length name)) too_long
      (checked (not (all_in pool_char name)) bad_characters (ok (lower name))))

unfoldable pub validate_dataset_name : String → Result Invalid String
validate_dataset_name name = checked (str_eq name "") empty (
    checked (ltb 256 (text_length name)) too_long (
      checked (not (all_in dataset_char name)) bad_characters (
        checked (starts_with_code 47 name || ends_with_code 47 name) bad_slash
          (checked (has_pair 47 name) empty_segment (ok (lower name))))))

unfoldable pub validate_snapshot_component : String → Result Invalid String
validate_snapshot_component name = checked (str_eq name "") empty (
    checked (ltb 256 (text_length name)) too_long
      (checked (not (all_in snapshot_char name)) bad_characters (ok name)))

abbrev pub both_valid :
    Result Invalid String → Result Invalid String → String → Result Invalid String
both_valid (err e) b name = err e
both_valid (ok a) (err e) name = err e
both_valid (ok a) (ok b) name = ok name

-- exactly one `@`, a dataset's name before it and a snapshot's after it
unfoldable pub validate_snapshot_name : String → Result Invalid String
unfolding validate_dataset_name validate_snapshot_component
validate_snapshot_name name = checked (str_eq name "") empty (
    checked (not (count_code 64 name == 1)) not_a_snapshot (
      let (dataset, snap) = split_once 64 name in
      both_valid (validate_dataset_name dataset) (validate_snapshot_component snap) name))

-- `[\d,*\/\-]`
abbrev pub schedule_char : (ℕ → Bool) → ℕ → Bool
schedule_char digit c = digit c || c == 44 || c == 42 || c == 47 || c == 45

unfoldable pub fields_valid : (ℕ → Bool) → List String → String → Result Invalid String
fields_valid digit [] schedule = ok schedule
fields_valid digit (part ∷ parts) schedule =
    checked (not (all_in (schedule_char digit) part)) bad_field (fields_valid digit parts schedule)

unfoldable pub validate_schedule : (ℕ → Bool) → String → Result Invalid String
unfolding fields_valid
validate_schedule digit schedule = checked (str_eq schedule "") empty (
    checked (not (length (words schedule) == 5)) bad_fields
      (fields_valid digit (words schedule) schedule))
