-- ===== src/Score/Category.antt =====
-- apps/web/src/lib/report-score/score-category.ts: the score of one category.
pub mod Bounds
pub mod Growth
mod Tests
use webprobe.Base.{
  ℕ, ◌+◌, ◌-◌, ◌*◌, ◌/◌, String, Bool, true, false, not, ◌&&◌, Option, none, some, List, [], ◌∷◌,
  ◌++◌, map, if◌then◌else◌, eqb, ltb, length, min, max, get, put, string_key,
}
use webprobe.Contracts.Completeness.{AnalyzerStatus, complete, partial, unavailable}
use webprobe.Score.Types.{
  Severity, info, low, medium, high, critical, ReportScoreFinding, ReportScoreCoverage,
  CategoryDefinition, ReportCategoryScore, grade_for_score,
}
use webprobe.Score.Coverage.{covered}

abbrev pub severity_penalty : Severity → ℕ
severity_penalty info = 1
severity_penalty low = 4
severity_penalty medium = 12
severity_penalty high = 24
severity_penalty critical = 40

-- `repeatedOccurrencePenalty`
abbrev pub increment : Severity → ℕ
increment info = 0
increment low = 1
increment medium = 2
increment high = 3
increment critical = 4

abbrev pub repeat_cap : Severity → ℕ
repeat_cap info = 0
repeat_cap low = 3
repeat_cap medium = 8
repeat_cap high = 12
repeat_cap critical = 16

abbrev pub severity_rank : Severity → ℕ
severity_rank info = 1
severity_rank low = 2
severity_rank medium = 3
severity_rank high = 4
severity_rank critical = 5

-- One step of the `reduce`, and the whole of it from `current` on.
abbrev pub higher : Severity → Severity → Severity
higher current s = if ltb (severity_rank current) (severity_rank s) then s else current

pub highest_severity : Severity → List ReportScoreFinding → Severity
highest_severity current [] = current
highest_severity current (f ∷ fs) = highest_severity (higher current f.severity) fs

-- The penalty of a group, by its severity and the repeated occurrences.
pub group_penalty : Severity → ℕ → ℕ
group_penalty severity repeated =
    severity_penalty severity + min (repeat_cap severity) (repeated * increment severity)

pub penalty_for_group : List ReportScoreFinding → ℕ
penalty_for_group findings = group_penalty (highest_severity info findings) (length findings - 1)

abbrev pub Groups : Type 0
Groups = List (String × List ReportScoreFinding)

-- One round of the loop; `push` changes the list that stands in the map.
pub add_to_groups : Groups → ReportScoreFinding → Groups
add_to_groups groups f = elim (get f.code groups) [
  | none ↦ put f.code (f ∷ []) groups
  | some group ↦ put f.code (group ++ f ∷ []) groups
]

unfoldable pub group_from : Groups → List ReportScoreFinding → Groups
group_from groups [] = groups
group_from groups (f ∷ fs) = group_from (add_to_groups groups f) fs

unfoldable pub grouped_by_code : List ReportScoreFinding → Groups
grouped_by_code findings = group_from [] findings

-- `Math.round(70 + ratio * 19)` as the exact quotient. Doubles give the same for fewer than 2^40
-- pages: the sum is far closer to the exact value than to the next half.
pub partial_coverage_score_cap : ReportScoreCoverage → ℕ
partial_coverage_score_cap coverage = elim coverage.observed_count [
  | none ↦ 80
  | some observed ↦ elim coverage.eligible_count [
    | none ↦ 80
    | some eligible ↦
        if ltb 0 eligible
        then min 89 (max 70 ((141 * eligible + 38 * min observed eligible) / (2 * eligible)))
        else 80
  ]
]

abbrev pub is_unavailable : AnalyzerStatus → Bool
is_unavailable unavailable = true
is_unavailable _ = false

abbrev pub is_partial : AnalyzerStatus → Bool
is_partial partial = true
is_partial _ = false

unfoldable pub effective_coverage : ReportScoreCoverage → ℕ → ReportScoreCoverage
effective_coverage coverage finding_count =
    if not (is_unavailable coverage.status && ltb 0 finding_count)
    then coverage
    else covered partial (some "observed-findings-with-incomplete-coverage")

-- The sum over the groups.
unfoldable pub total_penalty : Groups → ℕ
total_penalty [] = 0
total_penalty ((code, group) ∷ groups) = penalty_for_group group + total_penalty groups

unfoldable pub finding_penalty : List ReportScoreFinding → ℕ
finding_penalty findings = total_penalty (grouped_by_code findings)

unfoldable pub coverage_cap : ReportScoreCoverage → ℕ
coverage_cap coverage =
    if is_partial coverage.status then partial_coverage_score_cap coverage else 100

-- The two values that are returned, once the coverage and the penalty are known.
unfoldable pub category_score :
    CategoryDefinition → List ReportScoreFinding → ReportScoreCoverage → ℕ → ReportCategoryScore
category_score definition findings coverage penalty =
    if is_unavailable coverage.status
    then record {
      key = definition.key;
      label = definition.label;
      weight = definition.weight;
      score = none;
      raw_score = none;
      grade = none;
      coverage = coverage;
      coverage_cap = none;
      penalty = penalty;
      finding_count = length findings;
      distinct_finding_count = length (grouped_by_code findings);
    }
    else (let score = min (100 - penalty) (coverage_cap coverage) in
        record {
          key = definition.key;
          label = definition.label;
          weight = definition.weight;
          score = some score;
          raw_score = some (100 - penalty);
          grade = grade_for_score (some score);
          coverage = coverage;
          coverage_cap = some (coverage_cap coverage);
          penalty = penalty;
          finding_count = length findings;
          distinct_finding_count = length (grouped_by_code findings);
        })

unfoldable pub score_report_category :
    CategoryDefinition → List ReportScoreFinding → ReportScoreCoverage → ℕ → ReportCategoryScore
score_report_category definition findings coverage additional_penalty =
    category_score definition findings (effective_coverage coverage (length findings))
      (finding_penalty findings + additional_penalty)
