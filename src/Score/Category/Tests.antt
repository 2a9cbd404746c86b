-- ===== src/Score/Category/Tests.antt =====
-- Witnesses and runs of the score of a category.
use webprobe.Base.{◌+◌, ◌-◌, ◌≤◌, ◌≡◌, ◌≢◌, ◌⊎◌, refl, none, some, List, [], ◌∷◌, ◌++◌, get, put}
use webprobe.Contracts.Completeness.{complete, partial}
use webprobe.Score.Types.{
  CategoryDefinition, seo, Severity, low, high, info, ReportScoreFinding, ReportScoreCoverage,
  grade_a,
}
use webprobe.Score.Category.{
  score_report_category, category_score, effective_coverage, coverage_cap,
  partial_coverage_score_cap, finding_penalty, grouped_by_code, group_from, add_to_groups,
  total_penalty, penalty_for_group, highest_severity, group_penalty,
}
use webprobe.Score.Category.Bounds.{score_report_category_bounds}
use webprobe.Score.Category.Growth.{finding_penalty_grows}

abbrev seo_definition : CategoryDefinition
seo_definition = record { key = seo; label = "SEO"; weight = 15 }

abbrev seo_finding : Severity → ReportScoreFinding
seo_finding severity = record {
  category = "seo";
  severity = severity;
  code = "seo.title";
  page_url = none;
}

abbrev partial_coverage : ReportScoreCoverage
partial_coverage = record {
  status = partial;
  observed_count = some 5;
  eligible_count = some 10;
  reason = none;
}

abbrev two_findings : List ReportScoreFinding
two_findings = seo_finding low ∷ seo_finding high ∷ []

-- Twice the same code costs the higher penalty and one repetition.
two_findings_penalty : finding_penalty two_findings ≡ 27
unfolding finding_penalty grouped_by_code group_from add_to_groups total_penalty penalty_for_group
    highest_severity group_penalty get put
two_findings_penalty = refl

two_findings_score :
    (score_report_category seo_definition two_findings partial_coverage 0).score ≡ some 73
unfolding score_report_category category_score effective_coverage coverage_cap
    partial_coverage_score_cap finding_penalty grouped_by_code group_from add_to_groups
    total_penalty penalty_for_group highest_severity group_penalty get put
two_findings_score = refl

score_report_category_bounds_example :
    (73 ≤ 100 - (finding_penalty two_findings + 0))
    × ((partial ≡ complete)
        ⊎ ((73 ≤ 89)
            × ((score_report_category seo_definition two_findings partial_coverage 0).grade
                ≢ some grade_a)))
score_report_category_bounds_example =
    score_report_category_bounds seo_definition two_findings partial_coverage 0 73
      two_findings_score

finding_penalty_grows_example :
    finding_penalty two_findings ≤ finding_penalty (two_findings ++ seo_finding info ∷ [])
finding_penalty_grows_example = finding_penalty_grows two_findings (seo_finding info)
