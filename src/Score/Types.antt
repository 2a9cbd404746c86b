-- ===== src/Score/Types.antt =====
-- apps/web/src/lib/report-score/types.ts and grade.ts.
use webprobe.Base.{
  ℕ, ◌≤◌, String, Option, none, some, List, [], ◌∷◌, leb, if◌then◌else◌, arith, Key,
  key_of_discrete,
}
use webprobe.Contracts.Completeness.{AnalyzerStatus}

pub data Severity : Type 0 where
  info low medium high critical : Severity

pub record ReportScoreFinding : Type 0 where
  pub category : String
  pub severity : Severity
  pub code : String
  pub page_url : Option String

pub record ReportScoreCoverage : Type 0 where
  pub status : AnalyzerStatus
  pub observed_count : Option ℕ
  pub eligible_count : Option ℕ
  pub reason : Option String

pub data ReportGrade : Type 0 where
  grade_a grade_b grade_c grade_d grade_e : ReportGrade

pub data CategoryKey : Type 0 where
  security_http security_web performance seo accessibility network : CategoryKey

unfoldable pub CategoryKey-discrete : Discrete CategoryKey
CategoryKey-discrete = hlevel

instance abbrev pub category_key : Key CategoryKey
category_key = key_of_discrete CategoryKey-discrete

pub record CategoryDefinition : Type 0 where
  pub key : CategoryKey
  pub label : String
  pub weight : ℕ

pub record ReportCategoryScore : Type 0 where
  pub key : CategoryKey
  pub label : String
  pub weight : ℕ
  pub score : Option ℕ
  pub raw_score : Option ℕ
  pub grade : Option ReportGrade
  pub coverage : ReportScoreCoverage
  pub coverage_cap : Option ℕ
  pub penalty : ℕ
  pub finding_count : ℕ
  pub distinct_finding_count : ℕ

pub record ReportScorecard : Type 0 where
  pub version : String
  pub score : Option ℕ
  pub raw_score : Option ℕ
  pub grade : Option ReportGrade
  pub coverage : AnalyzerStatus
  pub coverage_cap : Option ℕ
  pub evaluated_weight : ℕ
  pub categories : List ReportCategoryScore

abbrev definition : CategoryKey → String → ℕ → CategoryDefinition
definition key label weight = record { key = key; label = label; weight = weight }

abbrev pub category_definitions : List CategoryDefinition
category_definitions =
    definition security_http "Sécurité HTTP" 25
    ∷ definition security_web "Sécurité Web" 15
    ∷ definition performance "Performance" 20
    ∷ definition seo "SEO" 15
    ∷ definition accessibility "Accessibilité" 15
    ∷ definition network "Réseau / disponibilité" 10
    ∷ []

unfoldable pub grade_for_score : Option ℕ → Option ReportGrade
grade_for_score none = none
grade_for_score (some score) =
    if leb 90 score
    then some grade_a
    else if leb 80 score
    then some grade_b
    else if leb 70 score
    then some grade_c
    else if leb 60 score
    then some grade_d
    else some grade_e

-- 5 for the grade A down to 1 for E.
abbrev pub rank : Option ReportGrade → ℕ
rank none = 0
rank (some grade_a) = 5
rank (some grade_b) = 4
rank (some grade_c) = 3
rank (some grade_d) = 2
rank (some grade_e) = 1

-- A grade is never better than that of a higher score, and only a missing score has none.
pub grade_mono :
    (a b : ℕ)
    → a ≤ b
    → (1 ≤ rank (grade_for_score (some a)))
      × (rank (grade_for_score (some a)) ≤ rank (grade_for_score (some b)))
unfolding grade_for_score
grade_mono a b h = ground arith
