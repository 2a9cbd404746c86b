-- ===== src/Score/Category/Bounds.antt =====
-- score-category.ts: the range of a category's score, and when there is none.
use webprobe.Base.{
  ℕ, ◌+◌, ◌-◌, ◌≤◌, ◌≡◌, ◌≢◌, refl, ◌↔◌, ◌⊎◌, inl, inr, true, none, some, List, [], ◌∷◌, arith,
  length, Bool-cases,
}
use webprobe.Contracts.Completeness.{AnalyzerStatus, complete, partial, unavailable}
use webprobe.Score.Types.{
  ReportScoreFinding, ReportScoreCoverage, CategoryDefinition, grade_a, grade_for_score,
}
use webprobe.Score.Category.{
  partial_coverage_score_cap, effective_coverage, coverage_cap, category_score,
  score_report_category, finding_penalty, is_unavailable, is_partial,
}

-- The cap of a partial analysis lies between 70 and 89, whatever was counted.
pub partial_cap_bounds :
    (c : ReportScoreCoverage)
    → (70 ≤ partial_coverage_score_cap c) × (partial_coverage_score_cap c ≤ 89)
unfolding partial_coverage_score_cap
partial_cap_bounds c = ground arith

pub unavailable_iff :
    (status : AnalyzerStatus) → (is_unavailable status ≡ true) ↔ (status ≡ unavailable)
unavailable_iff status = ground arith

pub partial_iff : (status : AnalyzerStatus) → (is_partial status ≡ true) ↔ (status ≡ partial)
partial_iff status = ground arith

-- A score is only given where the effective coverage is not unavailable.
pub category_score_coverage :
    (d : CategoryDefinition) (fs : List ReportScoreFinding) (c : ReportScoreCoverage) (penalty : ℕ)
    → ((category_score d fs c penalty).coverage ≡ c)
      × ((category_score d fs c penalty).weight ≡ d.weight)
unfolding category_score
category_score_coverage d fs c penalty = elim (Bool-cases (is_unavailable c.status)) [
  | inl e ↦ rw e (refl, refl)
  | inr e ↦ rw e (refl, refl)
]

pub category_score-none :
    (d : CategoryDefinition) (fs : List ReportScoreFinding) (c : ReportScoreCoverage) (penalty : ℕ)
    → ((category_score d fs c penalty).score ≡ none) ↔ (c.status ≡ unavailable)
unfolding category_score
category_score-none d fs c penalty = elim (Bool-cases (is_unavailable c.status)) [
  | inl e ↦ ground (arith, e, unavailable_iff c.status)
  | inr e ↦ ground (arith, e, unavailable_iff c.status)
]

pub category_score_bounds :
    (d : CategoryDefinition) (fs : List ReportScoreFinding) (c : ReportScoreCoverage)
    (penalty s : ℕ)
    → (category_score d fs c penalty).score ≡ some s
    → (s ≤ 100 - penalty)
      × (s ≤ coverage_cap c)
      × ((category_score d fs c penalty).grade ≡ grade_for_score (some s))
unfolding category_score
category_score_bounds d fs c penalty s h = elim (Bool-cases (is_unavailable c.status)) [
  | inl e ↦ ground (arith, rw e at h)
  | inr e ↦ rw e (ground (arith, rw e at h))
]

effective_coverage-unavailable :
    (c : ReportScoreCoverage) (fs : List ReportScoreFinding)
    → ((effective_coverage c (length fs)).status ≡ unavailable)
      ↔ ((c.status ≡ unavailable) × (fs ≡ []))
unfolding effective_coverage
effective_coverage-unavailable c [] = ground arith
effective_coverage-unavailable c (x ∷ fs) = ground arith

effective_coverage-complete :
    (c : ReportScoreCoverage) (n : ℕ)
    → (effective_coverage c n).status ≡ complete
    → c.status ≡ complete
unfolding effective_coverage
effective_coverage-complete c n h = ground arith

coverage_cap-partial :
    (c : ReportScoreCoverage)
    → (c.status ≡ complete) ⊎ (c.status ≡ unavailable) ⊎ (coverage_cap c ≤ 89)
unfolding coverage_cap
coverage_cap-partial c = ground (arith, partial_cap_bounds c)

-- A category has no score exactly if its analysis is unavailable and it has no finding.
pub score_report_category-none_iff :
    (d : CategoryDefinition) (fs : List ReportScoreFinding) (c : ReportScoreCoverage) (extra : ℕ)
    → ((score_report_category d fs c extra).score ≡ none) ↔ ((c.status ≡ unavailable) × (fs ≡ []))
unfolding score_report_category
score_report_category-none_iff d fs c extra =
    let (f, g) =
      category_score-none d fs (effective_coverage c (length fs)) (finding_penalty fs + extra) in
    let (i, j) = effective_coverage-unavailable c fs in (λ h. i (f h), λ h. g (j h))

pub score_report_category_honest :
    (d : CategoryDefinition) (fs : List ReportScoreFinding) (c : ReportScoreCoverage) (extra : ℕ)
    → ((score_report_category d fs c extra).weight ≡ d.weight)
      × (((score_report_category d fs c extra).score ≡ none)
          ↔ ((score_report_category d fs c extra).coverage.status ≡ unavailable))
unfolding score_report_category
score_report_category_honest d fs c extra =
    let e : ReportScoreCoverage = effective_coverage c (length fs) in
    let (same, weight) = category_score_coverage d fs e (finding_penalty fs + extra) in
    (weight, rw same (category_score-none d fs e (finding_penalty fs + extra)))

low_grade : (s : ℕ) → s ≤ 89 → grade_for_score (some s) ≢ some grade_a
unfolding grade_for_score
low_grade s h = ground arith

-- A category's score, where it has one, is at most 100 less the penalty of its findings and the
-- additional one; with an analysis that is not complete it is at most 89, so its grade is never A.
pub score_report_category_bounds :
    (d : CategoryDefinition) (fs : List ReportScoreFinding) (c : ReportScoreCoverage) (extra s : ℕ)
    → (score_report_category d fs c extra).score ≡ some s
    → (s ≤ 100 - (finding_penalty fs + extra))
      × ((c.status ≡ complete)
          ⊎ ((s ≤ 89) × ((score_report_category d fs c extra).grade ≢ some grade_a)))
unfolding score_report_category
score_report_category_bounds d fs c extra s h =
    let e : ReportScoreCoverage = effective_coverage c (length fs) in
    let (raw, cap, grade) = category_score_bounds d fs e (finding_penalty fs + extra) s h in
    let (f, g) = category_score-none d fs e (finding_penalty fs + extra) in
    (
      raw,
      elim (coverage_cap-partial e) [
        | inl done ↦ inl (effective_coverage-complete c (length fs) done)
        | inr (inl gone) ↦ ground (arith, g gone)
        | inr (inr low) ↦ inr (omega arith, rw grade (low_grade s (omega arith)))
      ],
    )
