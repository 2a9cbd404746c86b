-- ===== src/Contracts/Versions.antt =====
-- packages/contracts/src/vulnerability-matching.ts: versions of three numbers, and their order.
pub mod Order
mod Tests
use webprobe.Base.{
  ℕ, ◌+◌, ◌-◌, ◌*◌, Bool, true, false, not, ◌&&◌, ◌||◌, Option, none, some, List, [], ◌∷◌, map,
  if◌then◌else◌, eqb, leb, ltb, all,
}
use webprobe.Base.Text.{Text, is_digit, split_on}
use webprobe.Contracts.Products.{trim}

-- The value of a text of digits, from `value` on.
abbrev pub number_of : ℕ → Text → ℕ
number_of value [] = value
number_of value (c ∷ s) = number_of (10 * value + (c - b'0')) s

-- `(?:0|[1-9]\d*)`
abbrev pub is_numeral : Text → Bool
is_numeral [] = false
is_numeral (c ∷ []) = is_digit c
is_numeral (c ∷ d ∷ s) = leb b'1' c && leb c b'9' && all is_digit (d ∷ s)

abbrev pub three_numerals : List Text → Bool
three_numerals (a ∷ b ∷ c ∷ []) = is_numeral a && is_numeral b && is_numeral c
three_numerals _ = false

abbrev pub numbers : List Text → Option (List ℕ)
numbers texts =
    let parts = map (number_of 0) texts in
    if all (λ n. leb n 1_000_000) parts then some parts else none

-- The pattern has no dot inside a numeral, so its groups are the parts of the split.
unfoldable pub parse_numeric_version : Text → Option (List ℕ)
parse_numeric_version value =
    let texts = split_on b'.' (trim value) in if three_numerals texts then numbers texts else none

-- The results -1, 0 and 1.
pub data Comparison : Type 0 where
  less same greater : Comparison

abbrev pub compare_part : ℕ → ℕ → Comparison → Comparison
compare_part a b rest = if ltb a b then less else if ltb b a then greater else rest

-- The loop over the wider of both; a part that is missing counts xs 0.
abbrev pub compare_parts : List ℕ → List ℕ → Comparison
compare_parts [] [] = same
compare_parts (a ∷ xs) [] = compare_part a 0 (compare_parts xs [])
compare_parts [] (b ∷ ys) = compare_part 0 b (compare_parts [] ys)
compare_parts (a ∷ xs) (b ∷ ys) = compare_part a b (compare_parts xs ys)

unfoldable pub compare_versions : Text → Text → Option Comparison
compare_versions left right = elim (parse_numeric_version left) [
  | none ↦ none
  | some a ↦ elim (parse_numeric_version right) [ none ↦ none | some b ↦ some (compare_parts a b) ]
]
