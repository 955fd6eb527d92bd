-- ===== src/Prelude/Texts.antt =====
-- Python's tests on texts, by code points: `len`, `startswith` and `endswith` of one character,
-- `count`, `in` of a doubled character, `lower` of ASCII letters, `split`.
use nazman.Prelude.Tests.{leb, ◌==◌, if◌then◌else◌}
use nazman.Prelude.Strings.{is_space}
use Prim.Native.Nat.{ℕ, zero, suc, ◌-◌}
use Prim.Native.Char.{Char, code}
use Prim.Native.String.{String, [] as empty_text, ◌∷◌ as ◌∷s◌}
use mathlib.Core.Bool.{Bool, true, false, ◌&&◌, ◌||◌}
use mathlib.Core.List.{List, [], ◌∷◌}
use text.Mathlib.Text.{◌==◌ as str_eq}

unfoldable pub text_length : String → ℕ
text_length empty_text = 0
text_length (c ∷s s) = suc (text_length s)

unfoldable pub starts_with_code : ℕ → String → Bool
starts_with_code n empty_text = false
starts_with_code n (c ∷s s) = code c == n

unfoldable pub ends_with_code : ℕ → String → Bool
ends_with_code n empty_text = false
ends_with_code n (c ∷s s) =
    let rest = ends_with_code n s in if str_eq s "" then code c == n else rest

unfoldable pub count_code : ℕ → String → ℕ
count_code n empty_text = 0
count_code n (c ∷s s) = let rest = count_code n s in if code c == n then suc rest else rest

-- the character occurs twice in a row
unfoldable pub has_pair : ℕ → String → Bool
unfolding starts_with_code
has_pair n empty_text = false
has_pair n (c ∷s s) = (code c == n && starts_with_code n s) || has_pair n s

abbrev prefixed : Char → String × String → String × String
prefixed c (before, after) = (c ∷s before, after)

-- `text.rsplit(chr(n), 1)[-1]`
unfoldable pub after_last : ℕ → String → String
unfolding count_code
after_last n empty_text = ""
after_last n (c ∷s s) =
    let rest = after_last n s in
    if count_code n s == 0 then if code c == n then s else c ∷s s else rest

-- `a, b = text.split(chr(n), 1)`, for a text that has the character
unfoldable pub split_once : ℕ → String → String × String
split_once n empty_text = ("", "")
split_once n (c ∷s s) =
    let rest = prefixed c (split_once n s) in if code c == n then ("", s) else rest

-- the character at a place, of a text that is long enough
abbrev nth_char : ℕ → String → Char → Char
nth_char n empty_text d = d
nth_char zero (c ∷s s) d = c
nth_char (suc n) (c ∷s s) d = nth_char n s d

abbrev lower_char : Char → Char
lower_char c =
    if leb 65 (code c) && leb (code c) 90
    then nth_char (code c - 65) "abcdefghijklmnopqrstuvwxyz" c
    else c

-- `text.lower()`, for a text without letters outside ASCII
unfoldable pub lower : String → String
lower empty_text = ""
lower (c ∷s s) = lower_char c ∷s lower s

abbrev begin_word : Char → Bool → List String → List String
begin_word c true ws = (c ∷s "") ∷ ws
begin_word c false [] = (c ∷s "") ∷ []
begin_word c false (w ∷ ws) = (c ∷s w) ∷ ws

-- `text.split()`: a character that is no space begins a word if a space, or the end, follows it
unfoldable pub words : String → List String
words empty_text = []
words (c ∷s s) =
    let rest = words s in if is_space (code c) then rest else begin_word c (ends_word s) rest
  where
    ends_word : String → Bool
    ends_word empty_text = true
    ends_word (d ∷s t) = is_space (code d)
