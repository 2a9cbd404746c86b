-- ===== src/Robots/Escapes.antt =====
-- robots.ts, `normalizePercentEscapes`: one spelling for each path, over texts of UTF-16 units.
pub mod Stable
pub mod Normal
mod Tests
use webprobe.Base.{
  ℕ, zero, suc, ◌+◌, ◌-◌, ◌*◌, ◌/◌, ◌%◌, Bool, true, false, not, ◌&&◌, ◌||◌, Option, none, some,
  List, [], ◌∷◌, ◌++◌, if◌then◌else◌, eqb, leb, ltb,
}
use webprobe.Base.Text.{Text, is_upper, is_lower, is_digit}

-- `none` stands for -1.
abbrev pub hex_value : ℕ → Option ℕ
hex_value code =
    if leb 48 code && leb code 57
    then some (code - 48)
    else if leb 65 code && leb code 70
    then some (code - 55)
    else if leb 97 code && leb code 102
    then some (code - 87)
    else none

abbrev pub is_unreserved : ℕ → Bool
is_unreserved byte =
    leb 65 byte && leb byte 90
    || leb 97 byte && leb byte 122
    || leb 48 byte && leb byte 57
    || eqb byte 45
    || eqb byte 46
    || eqb byte 95
    || eqb byte 126

-- A digit of `toString(16).toUpperCase()`, and the escape of a byte.
abbrev pub hex_digit : ℕ → ℕ
hex_digit n = if ltb n 10 then 48 + n else 55 + n

unfoldable pub percent : ℕ → Text
percent byte = b'%' ∷ hex_digit (byte / 16) ∷ hex_digit (byte % 16) ∷ []

-- Bytes that an origin may decode into a delimiter or into another escape.
abbrev pub is_ambiguous : ℕ → Bool
is_ambiguous byte =
    eqb byte 0x2f || eqb byte 0x5c || eqb byte 0x3f || eqb byte 0x23 || eqb byte 0x25

-- The escapes of `Buffer.from(String.fromCodePoint(c), "utf8")`
pub percent_utf8 : ℕ → Text
percent_utf8 c =
    if ltb c 0x80
    then percent c
    else if ltb c 0x800
    then percent (0xC0 + c / 64) ++ percent (0x80 + c % 64)
    else if ltb c 0x10000
    then percent (0xE0 + c / 4096) ++ percent (0x80 + c / 64 % 64) ++ percent (0x80 + c % 64)
    else percent (0xF0 + c / 262144)
      ++ percent (0x80 + c / 4096 % 64)
      ++ percent (0x80 + c / 64 % 64)
      ++ percent (0x80 + c % 64)

-- `codePointAt`: a high and a low surrogate make one point; any other unit is its own.
abbrev pub is_high : ℕ → Bool
is_high c = leb 0xd800 c && leb c 0xdbff

abbrev pub is_low : ℕ → Bool
is_low c = leb 0xdc00 c && leb c 0xdfff

unfoldable pub code_point : ℕ → Text → ℕ
code_point c [] = c
code_point c (d ∷ s) =
    if is_high c && is_low d then 0x10000 + (c - 0xd800) * 0x400 + (d - 0xdc00) else c

abbrev pub is_surrogate : ℕ → Bool
is_surrogate c = leb 0xd800 c && leb c 0xdfff

-- The printable points that are always escaped.
abbrev pub is_quoted : ℕ → Bool
is_quoted c =
    eqb c 0x20
    || eqb c 0x22
    || eqb c 0x3c
    || eqb c 0x3e
    || eqb c 0x5e
    || eqb c 0x60
    || eqb c 0x7b
    || eqb c 0x7d

-- One round of the loop: `return null`, or what is appended and by how much the index moves on
-- beyond one.
pub data Step : Type 0 where
  refuse : Step
  emit : Text → ℕ → Step

unfoldable pub escaped : Bool → Option ℕ → Option ℕ → Step
escaped reject_ambiguous (some high) (some low) =
    (let byte = 16 * high + low in
      if reject_ambiguous && is_ambiguous byte
      then refuse
      else emit (if is_unreserved byte then byte ∷ [] else percent byte) 2)
escaped reject_ambiguous _ _ = refuse

unfoldable pub unescaped : ℕ → Text → Step
unescaped c s =
    let point = code_point c s in
    if is_surrogate point
    then refuse
    else if ltb 0x7f point
    then emit (percent_utf8 point) (if ltb 0xffff point then 1 else 0)
    else if is_quoted point
    then emit (percent point) 0
    else if ltb point 0x20 || eqb point 0x5c || eqb point 0x7f
    then refuse
    else emit (c ∷ []) 0

abbrev pub digit_at : Text → Option ℕ
digit_at [] = none
digit_at (c ∷ s) = hex_value c

abbrev pub after : Text → Text
after [] = []
after (c ∷ s) = s

unfoldable pub step : Bool → ℕ → Text → Step
step reject_ambiguous c s =
    if eqb c b'%' then escaped reject_ambiguous (digit_at s) (digit_at (after s)) else unescaped c s

abbrev pub prepend : Text → Option Text → Option Text
prepend out none = none
prepend out (some w) = some (out ++ w)

-- The loop, with the number of units that are still passed over.
unfoldable pub normalize_from : ℕ → Bool → Text → Option Text
normalize_from skip reject_ambiguous [] = some []
normalize_from (suc skip) reject_ambiguous (c ∷ s) = normalize_from skip reject_ambiguous s
normalize_from zero reject_ambiguous (c ∷ s) = elim (step reject_ambiguous c s) [
  | refuse ↦ none
  | emit out skip ↦ prepend out (normalize_from skip reject_ambiguous s)
]

unfoldable pub normalize_percent_escapes : Text → Bool → Option Text
normalize_percent_escapes value reject_ambiguous = normalize_from 0 reject_ambiguous value
