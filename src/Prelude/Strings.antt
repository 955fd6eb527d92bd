-- ===== src/Prelude/Strings.antt =====
-- Python's `str.strip` and truth of optional texts.
use Prim.Native.Nat.{ℕ}
use Prim.Native.Char.{code}
use Prim.Native.String.{String, [], ◌∷◌}
use mathlib.Core.Bool.{Bool, true, ◌&&◌, ◌||◌}
use mathlib.Core.Option.{Option, none, some}
use text.Mathlib.Text.{◌==◌ as str_eq}
use text.Mathlib.TextEquality.{eq_iff}
use mathlib.Core.Path.{◌≡◌, refl}
use nazman.Prelude.Tests.{leb, ◌==◌, if◌then◌else◌}

-- `str.isspace` of one character, by its code point
pub is_space : ℕ → Bool
is_space c =
    (leb 9 c && leb c 13)
    || (leb 28 c && leb c 32)
    || c == 133
    || c == 160
    || c == 5760
    || (leb 8192 c && leb c 8202)
    || c == 8232
    || c == 8233
    || c == 8239
    || c == 8287
    || c == 12288

strip_left : String → String
strip_left [] = []
strip_left (c ∷ s) = let rest = strip_left s in if is_space (code c) then rest else c ∷ s

strip_right : String → String
strip_right [] = []
strip_right (c ∷ s) =
    let rest = strip_right s in if is_space (code c) && str_eq rest "" then "" else c ∷ rest

unfoldable pub strip : String → String
unfolding is_space strip_left strip_right
strip s = strip_right (strip_left s)

-- `text or None`
abbrev pub or_none : String → Option String
or_none s = if str_eq s "" then none else some s

-- `label or None`, of a label that may be missing
abbrev pub option_or_none : Option String → Option String
option_or_none none = none
option_or_none (some s) = or_none s

pub str_eq_self : (s : String) → str_eq s s ≡ true
str_eq_self s = (eq_iff s s).1 refl
