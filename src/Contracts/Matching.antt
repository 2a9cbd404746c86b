-- ===== src/Contracts/Matching.antt =====
-- packages/contracts/src/vulnerability-matching.ts: whether an observed technology is affected.
pub mod Rules
pub mod Ranges
pub mod Observed
pub mod Confirmed
pub mod Several
mod Tests
use webprobe.Base.{
  ℕ, Bool, true, false, not, ◌&&◌, ◌||◌, Option, none, some, List, [], ◌∷◌, ◌++◌, map,
  if◌then◌else◌, ◌==◌, all, any, find,
}
use webprobe.Base.Text.{Text, codes, text_key}
use webprobe.Contracts.Products.{nvd_product_matches_observation}
use webprobe.Contracts.Versions.{
  Comparison, less, same, greater, parse_numeric_version, compare_versions,
}

pub record TechnologyEvidence : Type 0 where
  pub vendor : Text
  pub product : Text
  pub version : Option Text
  pub version_confidence : Text
  pub detection_confidence : Text

pub record AffectedProductRule : Type 0 where
  pub vendor : Text
  pub product : Text
  pub version_exact : Option Text
  pub version_start_including : Option Text
  pub version_start_excluding : Option Text
  pub version_end_including : Option Text
  pub version_end_excluding : Option Text
  pub context_required : Bool

pub data MatchStatus : Type 0 where
  confirmed potential not_applicable : MatchStatus

pub data MatchReason : Type 0 where
  product_mismatch version_not_confirmed additional_context_required missing_version_rule
        unsupported_version_rule :
      MatchReason
  exact_version_affected exact_version_outside version_in_affected_range
        version_outside_affected_range :
      MatchReason

pub record MatchResult : Type 0 where
  pub status : MatchStatus
  pub reason : MatchReason
  pub affected_range : Option Text
  pub fixed_version : Option Text

abbrev pub result : MatchStatus → MatchReason → Option Text → MatchResult
result status reason range = record {
  status = status;
  reason = reason;
  affected_range = range;
  fixed_version = none;
}

-- A text that is there and not empty.
abbrev pub is_set : Option Text → Bool
is_set none = false
is_set (some []) = false
is_set (some (c ∷ s)) = true

-- `rule.versionExact && !["*", "-"].includes(rule.versionExact)`
abbrev pub is_exact : Option Text → Bool
is_exact none = false
is_exact (some []) = false
is_exact (some (c ∷ s)) = not (codes "*" == (c ∷ s) || codes "-" == (c ∷ s))

abbrev pub text_or_empty : Option Text → Text
text_or_empty none = []
text_or_empty (some s) = s

abbrev pub part : Bool → Text → Option Text → List Text
part given prefix bound = if given then (prefix ++ text_or_empty bound) ∷ [] else []

abbrev pub range_parts : AffectedProductRule → List Text
range_parts rule =
    part (is_exact rule.version_exact) (codes "= ") rule.version_exact
    ++ (part (is_set rule.version_start_including) (codes ">= ") rule.version_start_including
        ++ (part (is_set rule.version_start_excluding) (codes "> ") rule.version_start_excluding
            ++ (part (is_set rule.version_end_including) (codes "<= ") rule.version_end_including
                ++ part (is_set rule.version_end_excluding) (codes "< ")
                    rule.version_end_excluding)))

-- `parts.join(" ")` of one part or more
abbrev pub joined : Text → List Text → Text
joined text [] = text
joined text (t ∷ ts) = joined (text ++ codes " " ++ t) ts

abbrev pub join_some : List Text → Option Text
join_some [] = none
join_some (t ∷ ts) = some (joined t ts)

unfoldable pub affected_range : AffectedProductRule → Option Text
affected_range rule = join_some (range_parts rule)

-- None where the versions cannot be compared.
pub bound_decision : Text → Option Text → (Comparison → Bool) → Option Bool
bound_decision current bound predicate = elim bound [
  | none ↦ some true
  | some [] ↦ some true
  | some (c ∷ s) ↦ elim (compare_versions current (c ∷ s)) [
    | none ↦ none
    | some comparison ↦ some (predicate comparison)
  ]
]

abbrev pub is_less : Comparison → Bool
is_less less = true
is_less _ = false

abbrev pub is_same : Comparison → Bool
is_same same = true
is_same _ = false

abbrev pub is_greater : Comparison → Bool
is_greater greater = true
is_greater _ = false

abbrev pub at_least : Comparison → Bool
at_least c = not (is_less c)

abbrev pub at_most : Comparison → Bool
at_most c = not (is_greater c)

pub decisions : Text → AffectedProductRule → List (Option Bool)
decisions current rule =
    bound_decision current rule.version_start_including at_least
    ∷ bound_decision current rule.version_start_excluding is_greater
    ∷ bound_decision current rule.version_end_including at_most
    ∷ bound_decision current rule.version_end_excluding is_less
    ∷ []

abbrev pub is_none : Option Bool → Bool
is_none none = true
is_none (some b) = false

abbrev pub is_yes : Option Bool → Bool
is_yes none = false
is_yes (some b) = b

-- `a ?? b`
abbrev pub first_given : Option Text → Option Text → Option Text
first_given none b = b
first_given (some a) b = some a

-- The tests of `!affectedRange(rule) || ...`.
unfoldable pub is_malformed : AffectedProductRule → Bool
is_malformed rule =
    let bounded =
      is_set rule.version_start_including
      || is_set rule.version_start_excluding
      || is_set rule.version_end_including
      || is_set rule.version_end_excluding in
    not (is_set (affected_range rule))
    || is_set rule.version_start_including && is_set rule.version_start_excluding
    || is_set rule.version_end_including && is_set rule.version_end_excluding
    || is_exact rule.version_exact && bounded

-- The order of the bounds is not one of a range.
unfoldable pub is_inverted : AffectedProductRule → Bool
is_inverted rule =
    let lower = first_given rule.version_start_including rule.version_start_excluding in
    let upper = first_given rule.version_end_including rule.version_end_excluding in
    if is_set lower && is_set upper
    then elim (compare_versions (text_or_empty lower) (text_or_empty upper)) [
      | none ↦ true
      | some greater ↦ true
      | some same ↦ is_set rule.version_start_excluding || is_set rule.version_end_excluding
      | some less ↦ false
    ]
    else false

abbrev pub parses : Text → Bool
parses v = elim (parse_numeric_version v) [ none ↦ false | some parts ↦ true ]

-- The negation of the test of `version-not-confirmed`.
pub is_version_confirmed : TechnologyEvidence → Bool
is_version_confirmed o =
    o.version_confidence == codes "exact"
    && o.detection_confidence == codes "high"
    && is_set o.version
    && parses (text_or_empty o.version)

pub match_exact : Text → AffectedProductRule → MatchResult
match_exact current rule = elim (compare_versions current (text_or_empty rule.version_exact)) [
  | none ↦ result potential unsupported_version_rule (affected_range rule)
  | some same ↦ result confirmed exact_version_affected (affected_range rule)
  | some _ ↦ result not_applicable exact_version_outside (affected_range rule)
]

pub match_range : Text → AffectedProductRule → MatchResult
match_range current rule =
    if is_inverted rule || any is_none (decisions current rule)
    then result potential unsupported_version_rule (affected_range rule)
    else if all is_yes (decisions current rule)
    then result confirmed version_in_affected_range (affected_range rule)
    else result not_applicable version_outside_affected_range (affected_range rule)

-- From `const current` on.
pub match_version : Text → AffectedProductRule → MatchResult
match_version current rule =
    if is_malformed rule
    then result potential missing_version_rule none
    else if is_exact rule.version_exact
    then match_exact current rule
    else match_range current rule

abbrev pub is_status : MatchStatus → MatchStatus → Bool
is_status confirmed confirmed = true
is_status potential potential = true
is_status not_applicable not_applicable = true
is_status _ _ = false

-- The chain of `??` over the results.
pub best_result : List MatchResult → MatchResult
best_result results = elim (find (λ r. is_status r.status confirmed) results) [
  | some r ↦ r
  | none ↦ elim (find (λ r. is_status r.status potential) results) [
    | some r ↦ r
    | none ↦ elim results [ [] ↦ result potential missing_version_rule none | r ∷ rs ↦ r ]
  ]
]

pub is_supported_vulnerability_version : Text → Bool
is_supported_vulnerability_version value = parses value

module _ (lower_case : Text → Text) where
  pub match_technology_to_rule : TechnologyEvidence → AffectedProductRule → MatchResult
  match_technology_to_rule o rule =
      if not
        (nvd_product_matches_observation lower_case o.vendor o.product rule.vendor rule.product)
      then result not_applicable product_mismatch (affected_range rule)
      else if not (is_version_confirmed o)
      then result potential version_not_confirmed (affected_range rule)
      else if rule.context_required
      then result potential additional_context_required (affected_range rule)
      else match_version (text_or_empty o.version) rule

  pub match_technology_to_rules : TechnologyEvidence → List AffectedProductRule → MatchResult
  match_technology_to_rules o rules = best_result (map (match_technology_to_rule o) rules)
