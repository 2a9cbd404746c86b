-- ===== src/Base/Text.antt =====
-- Texts that the code walks, as lists of UTF-16 code units.
use Prim.Native.Char.{code}
use Prim.Native.Nat.{ℕ, ◌+◌}
use Prim.Native.String.{String}
use mathlib.Core.Path.{◌≡◌}
use mathlib.Core.Logic.{◌↔◌}
use mathlib.Core.Bool.{Bool, true, false, ◌&&◌, ◌||◌}
use mathlib.Core.List.{List, [], ◌∷◌}
use native.Mathlib.Omega.{arith}
use webprobe.Base.Tests.{leb, eqb, if◌then◌else◌}
use webprobe.Base.Keyed.{Key}
use webprobe.Base.Lists.{length, all}

abbrev pub Text : Type 0
Text = List ℕ

-- The units of a literal (of ASCII).
abbrev pub codes : String → Text
codes String.[] = []
codes (String.◌∷◌ c s) = code c ∷ codes s

abbrev pub same_text : Text → Text → Bool
same_text [] [] = true
same_text [] (d ∷ t) = false
same_text (c ∷ s) [] = false
same_text (c ∷ s) (d ∷ t) = eqb c d && same_text s t

pub same_text_iff : (s t : Text) → (same_text s t ≡ true) ↔ (s ≡ t)
same_text_iff [] [] = ground arith
same_text_iff [] (d ∷ t) = ground arith
same_text_iff (c ∷ s) [] = ground arith
same_text_iff (c ∷ s) (d ∷ t) = ground (arith, same_text_iff s t)

instance abbrev pub text_key : Key Text
text_key = record { same = same_text; same_iff = same_text_iff }

abbrev pub is_upper : ℕ → Bool
is_upper c = leb b'A' c && leb c b'Z'

abbrev pub is_lower : ℕ → Bool
is_lower c = leb b'a' c && leb c b'z'

abbrev pub is_digit : ℕ → Bool
is_digit c = leb b'0' c && leb c b'9'

-- `toLowerCase` on an ASCII unit
abbrev pub to_lower : ℕ → ℕ
to_lower c = if is_upper c then c + 32 else c

-- `/^[a-f0-9]{64}$/`
abbrev pub is_hex_64 : Text → Bool
is_hex_64 s = eqb (length s) 64 && all (λ c. is_digit c || leb b'a' c && leb c b'f') s

-- `text.split(separator)` at one unit
unfoldable pub split_on : ℕ → Text → List Text
split_on sep [] = [] ∷ []
split_on sep (c ∷ s) = elim (split_on sep s) [
  | [] ↦ []
  | part ∷ parts ↦ if eqb c sep then [] ∷ part ∷ parts else (c ∷ part) ∷ parts
]

-- `text.startsWith(needle)` and `text.endsWith(needle)`
abbrev pub begins : Text → Text → Bool
begins [] text = true
begins (c ∷ needle) [] = false
begins (c ∷ needle) (d ∷ text) = eqb c d && begins needle text

abbrev pub ends_with : Text → Text → Bool
ends_with needle [] = same_text [] needle
ends_with needle (c ∷ text) = same_text (c ∷ text) needle || ends_with needle text

-- `text.slice(0, -1)`
abbrev pub drop_last : Text → Text
drop_last [] = []
drop_last (c ∷ []) = []
drop_last (c ∷ d ∷ s) = c ∷ drop_last (d ∷ s)

-- `text.slice(1)`
abbrev pub drop_first : Text → Text
drop_first [] = []
drop_first (c ∷ s) = s

-- `!text`
abbrev pub is_empty : Text → Bool
is_empty [] = true
is_empty (c ∷ s) = false
