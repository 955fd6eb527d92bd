-- ===== src/Validation/Names.antt =====
-- A valid snapshot name never names a dataset.
use nazman.Prelude.{
  ℕ, ◌≡◌, ◌≢◌, refl, sym, ◌∙◌, String, Bool, true, false, not, ◌&&◌, ◌||◌, ◌==◌, str_eq, ltb, arith,
  Bool-cases, inl, inr, Result, ok, err, ==_iff, ==_ne, str_eq_iff,
}
use nazman.Prelude.Texts.{
  count_code, text_length, starts_with_code, ends_with_code, has_pair, lower,
}
use Prim.Native.Char.{code}
use Prim.Native.String.{[] as empty_text, ◌∷◌ as ◌∷s◌}
use nazman.Validation.{
  Invalid, bad_characters, bad_slash, empty_segment, rest_in, all_in, dataset_char, checked,
  both_valid, validate_dataset_name, validate_snapshot_name,
}

both : (a b : Bool) → (a && b) ≡ true → (a ≡ true) × (b ≡ true)
both true b h = (refl, h)
both false b h = absurd (cc)

module _ (p : ℕ → Bool) (n : ℕ) (out : p n ≡ false) (no_feed : n ≢ 10) where
  differs : (a : ℕ) → (a ≡ n → ⊥) → (a == n) ≡ false
  differs a h = ==_ne a n h

  -- a character outside the class occurs nowhere in a text of the class
  rest_in-count_code : (s : String) → rest_in p s ≡ true → count_code n s ≡ 0
  unfolding rest_in count_code
  rest_in-count_code empty_text h = refl
  rest_in-count_code (c ∷s s) h = elim (Bool-cases (p (code c))) [
    | inl e ↦
        let other : (code c == n) ≡ false =
          differs (code c) (λ same. absurd (let met = rw same at e in cc)) in
        rw other (rest_in-count_code s (rw e at h))
    | inr e ↦
        let (feed, ends) = both (code c == 10) (str_eq s "") (rw e at h) in
        let other : (code c == n) ≡ false =
          differs (code c) (λ same. no_feed (sym same ∙ (==_iff (code c) 10).0 feed)) in
        rw (other, (str_eq_iff s "").0 ends) refl
  ]

  all_in-count_code : (s : String) → all_in p s ≡ true → count_code n s ≡ 0
  unfolding all_in count_code
  all_in-count_code empty_text h = refl
  all_in-count_code (c ∷s s) h =
      let (e, rest) = both (p (code c)) (rest_in p s) h in
      let other : (code c == n) ≡ false =
        differs (code c) (λ same. absurd (let met = rw same at e in cc)) in
      rw other (rest_in-count_code s rest)

passed :
    (b : Bool) (why : Invalid) (r : Result Invalid String) (m : String)
    → checked b why r ≡ ok m
    → (b ≡ false) × (r ≡ ok m)
passed true why r m h = absurd (cc)
passed false why r m h = (refl, h)

both_named :
    (a b : Result Invalid String) (name m : String) → both_valid a b name ≡ ok m → (m ≡ name)
both_named (err e) b name m h = absurd (cc)
both_named (ok a) (err e) name m h = absurd (cc)
both_named (ok a) (ok b) name m h = cc

-- An answer for a text that is refused as soon as its characters are looked at.
refused :
    (b c : Bool) (why why' why'' : Invalid) (r : Result Invalid String)
    → (e : Invalid) × (checked b why (checked c why' (checked true why'' r)) ≡ err e)
refused true c why why' why'' r = (why, refl)
refused false true why why' why'' r = (why', refl)
refused false false why why' why'' r = (why'', refl)

-- A snapshot name that is accepted comes back as it is, and is refused as the name of a dataset.
pub validate_snapshot_name_lem :
    (name m : String)
    → validate_snapshot_name name ≡ ok m
    → (m ≡ name) × ((e : Invalid) × (validate_dataset_name name ≡ err e))
unfolding validate_snapshot_name validate_dataset_name
validate_snapshot_name_lem name m h =
    let (_, one) = passed (str_eq name "") _ _ m h in
    let (marked, parts) = passed (not (count_code 64 name == 1)) _ _ m one in
    let bad : all_in dataset_char name ≡ false = elim (Bool-cases (all_in dataset_char name)) [
      | inl e ↦ absurd (
          let none_there =
            all_in-count_code dataset_char 64 refl (λ q. absurd (omega (arith, q))) name e in
          let met = rw none_there at marked in cc)
      | inr e ↦ e
    ] in
    let slashes =
      checked (starts_with_code 47 name || ends_with_code 47 name) bad_slash
        (checked (has_pair 47 name) empty_segment (ok (lower name))) in
    (
      both_named _ _ name m parts,
      rw bad (refused (str_eq name "") (ltb 256 (text_length name)) _ _ bad_characters slashes),
    )
