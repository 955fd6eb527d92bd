-- ===== src/Prelude/Decimal.antt =====
-- `str` of a whole number.
use nazman.Prelude.Tests.{ltb, if◌then◌else◌}
use nazman.Prelude.Lists.{get_elem?}
use Prim.Native.Nat.{ℕ, zero, suc, ◌/◌, ◌%◌}
use Prim.Native.String.{String, ◌++◌ as ◌<>◌}
use mathlib.Core.Option.{Option, none, some}
use mathlib.Core.List.{[], ◌∷◌}

-- the decimal text of a number
abbrev text_or_empty : Option String → String
text_or_empty none = ""
text_or_empty (some t) = t

abbrev digit_text : ℕ → String
digit_text n =
    text_or_empty
      (get_elem? ("0" ∷ "1" ∷ "2" ∷ "3" ∷ "4" ∷ "5" ∷ "6" ∷ "7" ∷ "8" ∷ "9" ∷ []) (n % 10))

-- with as many digits to go as the number itself, which are enough
abbrev digits : ℕ → ℕ → String
digits zero n = ""
digits (suc fuel) n =
    let front = digits fuel (n / 10) in if ltb n 10 then digit_text n else front <> digit_text n

abbrev pub decimal : ℕ → String
decimal n = digits (suc n) n
