-- ===== src/Robots/Glob.antt =====
-- robots.ts, `ruleMatches`: a prefix glob, matched within a budget of steps that the rules share.
-- Both indices are kept as what is left of their texts.
pub mod Correct
pub mod Enough
mod Tests
use webprobe.Base.{
  ℕ, zero, suc, Bool, true, false, not, ◌&&◌, ◌||◌, Option, none, some, List, [], ◌∷◌,
  if◌then◌else◌, eqb,
}
use webprobe.Base.Text.{Text}

abbrev pub star : ℕ
star = b'*'

-- `lastStarIndex` and `lastStarTargetIndex`: what follows the last star, and what is left of the
-- target one unit past the place where it was met.
pub record LastStar : Type 0 where
  pub pattern : Text
  pub target : Text

abbrev pub ends : Text → Bool
ends [] = true
ends (c ∷ s) = false

-- The inner loop at the end of the target: it takes a step for each star.
unfoldable pub skip_stars : ℕ → Text → Option (Bool × ℕ)
skip_stars budget [] = some (true, budget)
skip_stars budget (c ∷ pattern) =
    if eqb c star
    then (elim budget [ zero ↦ none | suc left ↦ skip_stars left pattern ])
    else some (false, budget)

abbrev pub rest : Text → Text
rest [] = []
rest (c ∷ s) = s

-- The loop; `none` stands for `null`. On a mismatch the last star takes one more unit.
unfoldable pub rule_loop : ℕ → Bool → Text → Text → Option LastStar → Option (Bool × ℕ)
rule_loop zero anchored pattern target last = none
rule_loop (suc left) anchored [] [] last = some (true, left)
rule_loop (suc left) anchored [] (d ∷ target) last =
    if not anchored then some (true, left) else elim last [
      | none ↦ some (false, left)
      | some s ↦
          rule_loop left anchored s.pattern s.target
            (some (record { pattern = s.pattern; target = rest s.target }))
    ]
rule_loop (suc left) anchored (c ∷ pattern) [] last = skip_stars left (c ∷ pattern)
rule_loop (suc left) anchored (c ∷ pattern) (d ∷ target) last = elim (eqb c star) [
  | true ↦
      rule_loop left anchored pattern (d ∷ target)
        (some (record { pattern = pattern; target = target }))
  | false ↦ elim (eqb c d) [
    | true ↦ rule_loop left anchored pattern target last
    | false ↦ elim last [
      | none ↦ some (false, left)
      | some s ↦
          rule_loop left anchored s.pattern s.target
            (some (record { pattern = s.pattern; target = rest s.target }))
    ]
  ]
]

-- `endsWith("$")` and `slice(0, -1)`
abbrev pub is_anchored : Text → Bool
is_anchored [] = false
is_anchored (c ∷ []) = eqb c b'$'
is_anchored (c ∷ d ∷ s) = is_anchored (d ∷ s)

abbrev pub without_last : Text → Text
without_last [] = []
without_last (c ∷ []) = []
without_last (c ∷ d ∷ s) = c ∷ without_last (d ∷ s)

unfoldable pub rule_matches : Text → Text → ℕ → Option (Bool × ℕ)
rule_matches pattern target budget =
    if is_anchored pattern
    then rule_loop budget true (without_last pattern) target none
    else rule_loop budget false pattern target none
