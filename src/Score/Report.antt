-- ===== src/Score/Report.antt =====
-- apps/web/src/lib/report-score/score-report.ts: the score of a report from its categories.
pub mod Grade
mod Tests
use webprobe.Base.{
  ℕ, ◌+◌, ◌*◌, ◌/◌, String, Bool, true, false, not, ◌&&◌, ◌||◌, Option, none, some, List, [], ◌∷◌,
  map, if◌then◌else◌, ◌==◌, string_key, eqb, ltb, min, any, filter, contains, find,
}
use webprobe.Base.Value.{Value, is_some}
use webprobe.Contracts.Completeness.{AnalyzerStatus, complete, partial, unavailable}
use webprobe.Score.Types.{
  CategoryKey, security_http, security_web, performance, seo, accessibility, network, category_key,
  CategoryDefinition, category_definitions, ReportScoreFinding, ReportCategoryScore,
  ReportScorecard, grade_for_score,
}
use webprobe.Score.Coverage.{coverage_for_category, security_http_configuration_penalty}
use webprobe.Score.Category.{score_report_category, is_partial}

pub finding_categories : CategoryKey → List String
finding_categories security_http = "security-header" ∷ []
finding_categories security_web = "tls" ∷ []
finding_categories performance = "performance" ∷ "javascript" ∷ []
finding_categories seo = "seo" ∷ []
finding_categories accessibility = "accessibility" ∷ []
finding_categories network = "network" ∷ "availability" ∷ "broken-link" ∷ []

-- The keys in the order of `Object.entries`.
abbrev pub category_keys : List CategoryKey
category_keys = security_http ∷ security_web ∷ performance ∷ seo ∷ accessibility ∷ network ∷ []

pub report_score_category : String → Option CategoryKey
report_score_category finding_category =
    find (λ key. contains finding_category (finding_categories key)) category_keys

pub findings_for_category : List ReportScoreFinding → CategoryKey → List ReportScoreFinding
findings_for_category findings key =
    filter (λ f. contains f.category (finding_categories key)) findings

pub overall_coverage_cap : ℕ → Bool → ℕ
overall_coverage_cap weight has_partial =
    if ltb weight 60
    then 69
    else if ltb weight 80
    then 79
    else if ltb weight 100
    then 89
    else if has_partial
    then 89
    else 100

abbrev pub is_evaluated : ReportCategoryScore → Bool
is_evaluated c = is_some c.score

abbrev pub has_partial_coverage : ReportCategoryScore → Bool
has_partial_coverage c = is_partial c.coverage.status

pub total_weight : List ReportCategoryScore → ℕ
total_weight [] = 0
total_weight (c ∷ cs) = c.weight + total_weight cs

abbrev score_or_zero : Option ℕ → ℕ
score_or_zero none = 0
score_or_zero (some s) = s

-- Over the evaluated categories, which all have a score.
pub weighted_total : List ReportCategoryScore → ℕ
weighted_total [] = 0
weighted_total (c ∷ cs) = score_or_zero c.score * c.weight + weighted_total cs

abbrev pub score_category :
    Option Value → List ReportScoreFinding → CategoryDefinition → ReportCategoryScore
score_category summary findings definition =
    score_report_category definition (findings_for_category findings definition.key)
      (coverage_for_category summary definition.key)
      (if definition.key == security_http then security_http_configuration_penalty summary else 0)

pub score_categories : Option Value → List ReportScoreFinding → List ReportCategoryScore
score_categories summary findings = map (score_category summary findings) category_definitions

-- `Math.round(total / weight)`, exactly: at most 100 categories of weight one are far from any
-- rounding of doubles.
abbrev pub rounded : ℕ → ℕ → ℕ
rounded total weight = (2 * total + weight) / (2 * weight)

pub unscored : List ReportCategoryScore → ReportScorecard
unscored categories = record {
  version = "report-v2-1";
  score = none;
  raw_score = none;
  grade = none;
  coverage = unavailable;
  coverage_cap = none;
  evaluated_weight = 0;
  categories = categories;
}

-- The scorecard from the categories on.
pub score_of_categories : List ReportCategoryScore → ReportScorecard
score_of_categories categories =
    let evaluated = filter is_evaluated categories in
    let weight = total_weight evaluated in
    let has_partial = any has_partial_coverage categories in
    let cap = overall_coverage_cap weight has_partial in
    let raw = rounded (weighted_total evaluated) weight in
    if eqb weight 0 then unscored categories else record {
      version = "report-v2-1";
      score = some (min raw cap);
      raw_score = some raw;
      grade = grade_for_score (some (min raw cap));
      coverage = if eqb weight 100 && not has_partial then complete else partial;
      coverage_cap = some cap;
      evaluated_weight = weight;
      categories = categories;
    }

pub score_report : Option Value → List ReportScoreFinding → ReportScorecard
score_report summary findings = score_of_categories (score_categories summary findings)
