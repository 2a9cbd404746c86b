-- ===== src/Robots/Allowed.antt =====
-- robots.ts, `isRobotsPathAllowed`: the decision on a path, by the rules of a policy.
pub mod Closed
pub mod Longest
mod Tests
use webprobe.Base.{
  ℕ, ◌+◌, Bool, true, false, not, ◌&&◌, ◌||◌, Option, none, some, List, [], ◌∷◌, ◌++◌,
  if◌then◌else◌, eqb, ltb, length, filter,
}
use webprobe.Base.Text.{Text}
use webprobe.Base.Value.{is_some}
use webprobe.Robots.Escapes.{code_point, is_high, is_low, normalize_percent_escapes}
use webprobe.Robots.Glob.{star, ends, rule_matches}

pub data Directive : Type 0 where
  allow disallow : Directive

pub record RobotsRule : Type 0 where
  pub directive : Directive
  pub pattern : Text

pub data UnavailableReason : Type 0 where
  document_too_large document_size_unconfirmed too_many_rules rule_too_long too_many_wildcards
        invalid_rule :
      UnavailableReason

pub record RobotsPolicy : Type 0 where
  pub rules : List RobotsRule
  pub sitemaps : List Text
  pub unavailable_reason : Option UnavailableReason

-- What of a URL the decision reads.
pub record Url : Type 0 where
  pub pathname : Text
  pub search : Text

abbrev pub max_rules : ℕ
max_rules = 1024

abbrev pub max_rule_bytes : ℕ
max_rule_bytes = 2048

abbrev pub max_wildcards : ℕ
max_wildcards = 32

abbrev pub max_target_bytes : ℕ
max_target_bytes = 8192

abbrev pub max_match_steps : ℕ
max_match_steps = 100_000

-- `Buffer.byteLength(text, "utf8")`: a surrogate pair takes four bytes, of which two are counted
-- with each half; a surrogate that stands alone becomes a mark of three bytes.
abbrev pub starts_low : Text → Bool
starts_low [] = false
starts_low (d ∷ s) = is_low d

unfoldable pub byte_length_from : Bool → Text → ℕ
byte_length_from paired [] = 0
byte_length_from paired (c ∷ s) =
    let high = is_high c && starts_low s in
    (if ltb c 0x80 then 1 else if ltb c 0x800 then 2 else if high || paired then 2 else 3)
    + byte_length_from high s

unfoldable pub byte_length : Text → ℕ
byte_length s = byte_length_from false s

abbrev pub short_enough : ℕ → Text → Option Text
short_enough limit s = if ltb limit (byte_length s) then none else some s

abbrev pub joined : Option Text → Option Text → Option Text
joined (some path) (some query) = some (path ++ query)
joined _ _ = none

abbrev pub within_target : Option Text → Option Text
within_target none = none
within_target (some target) = short_enough max_target_bytes target

pub normalized_target : Url → Option Text
normalized_target url = elim (short_enough max_target_bytes (url.pathname ++ url.search)) [
  | none ↦ none
  | some raw ↦ within_target (
      joined (normalize_percent_escapes url.pathname true)
        (normalize_percent_escapes url.search false))
]

abbrev pub is_excessive : Text → Bool
is_excessive pattern =
    ltb max_rule_bytes (byte_length pattern)
    || ltb max_wildcards (length (filter (λ c. eqb c star) pattern))

abbrev pub is_allow : Directive → Bool
is_allow allow = true
is_allow disallow = false

-- `!winner || ...`
abbrev pub wins : RobotsRule → Option RobotsRule → Bool
wins rule none = true
wins rule (some w) =
    ltb (length w.pattern) (length rule.pattern)
    || eqb (length rule.pattern) (length w.pattern) && is_allow rule.directive

abbrev pub better : RobotsRule → Option RobotsRule → Option RobotsRule
better rule winner = if wins rule winner then some rule else winner

-- The loop over the rules, with the budget that they share; none stands for `return false`.
pub winner_of : Text → List RobotsRule → ℕ → Option RobotsRule → Option (Option RobotsRule)
winner_of target [] budget winner = some winner
winner_of target (rule ∷ rules) budget winner =
    if is_excessive rule.pattern then none else elim (ends rule.pattern) [
      | true ↦ winner_of target rules budget winner
      | false ↦ elim (rule_matches rule.pattern target budget) [
        | none ↦ none
        | some (true, left) ↦ winner_of target rules left (better rule winner)
        | some (false, left) ↦ winner_of target rules left winner
      ]
    ]

abbrev pub permits : Option RobotsRule → Bool
permits none = true
permits (some rule) = is_allow rule.directive

pub is_robots_path_allowed : RobotsPolicy → Url → Bool
is_robots_path_allowed policy url =
    if is_some policy.unavailable_reason || ltb max_rules (length policy.rules)
    then false
    else elim (normalized_target url) [
      | none ↦ false
      | some target ↦ elim (winner_of target policy.rules max_match_steps none) [
        | none ↦ false
        | some winner ↦ permits winner
      ]
    ]
