-- ===== src/Contracts/Matching/Tests.antt =====
-- Witnesses of the matches, over ASCII texts.
use webprobe.Base.{◌≡◌, ◌≢◌, ◌⊎◌, ◌↔◌, refl, true, false, none, some, [], ◌∷◌, map, any, all}
use webprobe.Base.Text.{Text, codes, to_lower, split_on}
use webprobe.Contracts.Products.{
  nvd_product_matches_observation, correlatable_product_for_observation,
}
use webprobe.Contracts.Versions.{parse_numeric_version, compare_versions}
use webprobe.Contracts.Matching.{
  TechnologyEvidence, AffectedProductRule, confirmed, not_applicable, text_or_empty,
  match_technology_to_rule, match_technology_to_rules, is_version_confirmed, match_version,
  match_range, match_exact, is_malformed, is_inverted, decisions, bound_decision, affected_range,
}
use webprobe.Contracts.Matching.Rules.{NamesVersions, Meets, Affected}
use webprobe.Contracts.Matching.Observed.{IsObserved}
use webprobe.Contracts.Matching.Confirmed.{match_rule-confirmed_iff, match_rule-dismissed}
use webprobe.Contracts.Matching.Several.{is_confirmed, is_dismissed, match_rules_iff}

abbrev lower_ascii : Text → Text
lower_ascii s = map to_lower s

abbrev php : Text → TechnologyEvidence
php version = record {
  vendor = codes "php";
  product = codes "php";
  version = some version;
  version_confidence = codes "exact";
  detection_confidence = codes "high";
}

abbrev before_8_2_10 : AffectedProductRule
before_8_2_10 = record {
  vendor = codes "php";
  product = codes "php";
  version_exact = none;
  version_start_including = some (codes "8.2.0");
  version_start_excluding = none;
  version_end_including = none;
  version_end_excluding = some (codes "8.2.10");
  context_required = false;
}

php_affected :
    (match_technology_to_rule lower_ascii (php (codes "8.2.9")) before_8_2_10).status ≡ confirmed
unfolding match_technology_to_rule is_version_confirmed match_version match_range match_exact
    is_malformed is_inverted decisions bound_decision affected_range nvd_product_matches_observation
    correlatable_product_for_observation parse_numeric_version compare_versions split_on
php_affected = refl

php_outside :
    (match_technology_to_rule lower_ascii (php (codes "8.2.10")) before_8_2_10).status
    ≡ not_applicable
unfolding match_technology_to_rule is_version_confirmed match_version match_range match_exact
    is_malformed is_inverted decisions bound_decision affected_range nvd_product_matches_observation
    correlatable_product_for_observation parse_numeric_version compare_versions split_on
php_outside = refl

match_rule-confirmed_iff_example :
    ((match_technology_to_rule lower_ascii (php (codes "8.2.9")) before_8_2_10).status ≡ confirmed)
    ↔ ((nvd_product_matches_observation lower_ascii
            (codes "php")
            (codes "php")
            (codes "php")
            (codes "php")
          ≡ true)
        × (false ≡ false)
        × ((v : Text) × IsObserved (php (codes "8.2.9")) v × Affected v before_8_2_10))
match_rule-confirmed_iff_example =
    match_rule-confirmed_iff lower_ascii (php (codes "8.2.9")) before_8_2_10

match_rule-dismissed_example :
    (nvd_product_matches_observation lower_ascii
        (codes "php")
        (codes "php")
        (codes "php")
        (codes "php")
      ≡ false)
    ⊎ ((is_version_confirmed (php (codes "8.2.10")) ≡ true)
        × NamesVersions before_8_2_10
        × ¬ Meets (text_or_empty (some (codes "8.2.10"))) before_8_2_10)
match_rule-dismissed_example =
    match_rule-dismissed lower_ascii (php (codes "8.2.10")) before_8_2_10 php_outside

match_rules_iff_example :
    (((match_technology_to_rules lower_ascii (php (codes "8.2.9")) (before_8_2_10 ∷ [])).status
        ≡ confirmed)
      ↔ (any is_confirmed
            (map (match_technology_to_rule lower_ascii (php (codes "8.2.9"))) (before_8_2_10 ∷ []))
          ≡ true))
    × (((match_technology_to_rules lower_ascii (php (codes "8.2.9")) (before_8_2_10 ∷ [])).status
          ≡ not_applicable)
        ↔ ((map (match_technology_to_rule lower_ascii (php (codes "8.2.9"))) (before_8_2_10 ∷ [])
              ≢ [])
            × (all is_dismissed (
                  map
                    (match_technology_to_rule lower_ascii (php (codes "8.2.9")))
                    (before_8_2_10 ∷ []))
                ≡ true)))
match_rules_iff_example = match_rules_iff lower_ascii (php (codes "8.2.9")) (before_8_2_10 ∷ [])
