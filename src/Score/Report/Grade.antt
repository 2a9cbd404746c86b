-- ===== src/Score/Report/Grade.antt =====
-- score-report.ts: the cap on incomplete reports, and the best grade.
use webprobe.Base.{
  ℕ, ◌≤◌, ◌≡◌, ◌↔◌, ◌⊎◌, inl, inr, refl, String, Bool, true, false, Option, none, some, List, [],
  ◌∷◌, arith, eqb, any, filter, All, Bool-cases, contains, find, string_key,
}
use webprobe.Base.Value.{Value}
use webprobe.Contracts.Completeness.{AnalyzerStatus, complete, partial, unavailable}
use webprobe.Score.Types.{
  CategoryKey, security_http, security_web, performance, seo, accessibility, network,
  CategoryDefinition, ReportScoreFinding, ReportCategoryScore, grade_a, grade_for_score,
}
use webprobe.Score.Category.Bounds.{score_report_category_honest}
use webprobe.Score.Report.{
  finding_categories, report_score_category, category_keys, overall_coverage_cap, is_evaluated,
  has_partial_coverage, total_weight, score_category, score_categories, score_of_categories,
  score_report, unscored,
}

-- A category that is evaluated is complete or partial.
abbrev pub IsHonest : ReportCategoryScore → Type 0
IsHonest c = (1 ≤ c.weight) × ((c.score ≡ none) ↔ (c.coverage.status ≡ unavailable))

abbrev pub IsComplete : ReportCategoryScore → Type 0
IsComplete c = c.coverage.status ≡ complete

AnalyzerStatus-cases : (s : AnalyzerStatus) → (s ≡ complete) ⊎ (s ≡ partial) ⊎ (s ≡ unavailable)
AnalyzerStatus-cases complete = inl refl
AnalyzerStatus-cases partial = inr (inl refl)
AnalyzerStatus-cases unavailable = inr (inr refl)

evaluated_weight_le :
    (cs : List ReportCategoryScore) → total_weight (filter is_evaluated cs) ≤ total_weight cs
unfolding total_weight
evaluated_weight_le [] = omega arith
evaluated_weight_le (c ∷ cs) = ground (arith, evaluated_weight_le cs)

whole :
    (c : ReportCategoryScore)
    → (c.score ≡ none) ↔ (c.coverage.status ≡ unavailable)
    → is_evaluated c ≡ true
    → has_partial_coverage c ≡ false
    → IsComplete c
whole c (f, g) e np = elim (AnalyzerStatus-cases c.coverage.status) [
  | inl h ↦ h
  | inr (inl h) ↦ ground (arith, rw h at np)
  | inr (inr h) ↦ ground (arith, rw (g h) at e)
]

-- If no category is partial and the evaluated ones carry the whole weight, all are complete.
All-IsComplete :
    (cs : List ReportCategoryScore)
    → All IsHonest cs
    → total_weight cs ≤ total_weight (filter is_evaluated cs)
    → any has_partial_coverage cs ≡ false
    → All IsComplete cs
unfolding total_weight
All-IsComplete [] hs le np = tt
All-IsComplete (c ∷ cs) ((pos, honest), hs) le np = elim (Bool-cases (is_evaluated c)) [
  | inl e ↦ (
    whole c honest e (ground (arith, np)),
    All-IsComplete cs hs (ground (arith, le, e)) (ground (arith, np)),
  )
  | inr e ↦ ground (arith, e, le, pos, evaluated_weight_le cs)
]

best_grade : (s : ℕ) → grade_for_score (some s) ≡ some grade_a → 90 ≤ s
unfolding grade_for_score
best_grade s h = ground arith

best_cap : (w : ℕ) (b : Bool) → 90 ≤ overall_coverage_cap w b → (100 ≤ w) × (b ≡ false)
unfolding overall_coverage_cap
best_cap w b h = ground arith

score_category-IsHonest :
    (summary : Option Value) (fs : List ReportScoreFinding) (d : CategoryDefinition)
    → 1 ≤ d.weight
    → IsHonest (score_category summary fs d)
score_category-IsHonest summary fs d h =
    let (weight, honest) = score_report_category_honest d _ _ _ in
    (omega (arith, weight, h), honest)

score_category_weight :
    (summary : Option Value) (fs : List ReportScoreFinding) (d : CategoryDefinition)
    → (score_category summary fs d).weight ≡ d.weight
score_category_weight summary fs d =
    let (weight, honest) = score_report_category_honest d _ _ _ in weight

score_categories-IsHonest :
    (summary : Option Value) (fs : List ReportScoreFinding)
    → All IsHonest (score_categories summary fs)
unfolding score_categories
score_categories-IsHonest summary fs =
    let one : (d : CategoryDefinition) → 1 ≤ d.weight → IsHonest (score_category summary fs d) =
      score_category-IsHonest summary fs in
    (
      one _ (omega arith),
      (
        one _ (omega arith),
        (
          one _ (omega arith),
          (one _ (omega arith), (one _ (omega arith), (one _ (omega arith), tt))),
        ),
      ),
    )

score_categories_weight :
    (summary : Option Value) (fs : List ReportScoreFinding)
    → total_weight (score_categories summary fs) ≡ 100
unfolding score_categories total_weight
score_categories_weight summary fs = simp (score_category_weight summary fs)

score_of_categories_categories :
    (cs : List ReportCategoryScore) → (score_of_categories cs).categories ≡ cs
unfolding score_of_categories unscored
score_of_categories_categories cs =
    elim (Bool-cases (eqb (total_weight (filter is_evaluated cs)) 0)) [
      | inl e ↦ rw e refl
      | inr e ↦ rw e refl
    ]

score_of_categories-grade_a :
    (cs : List ReportCategoryScore)
    → (score_of_categories cs).grade ≡ some grade_a
    → (100 ≤ total_weight (filter is_evaluated cs)) × (any has_partial_coverage cs ≡ false)
unfolding score_of_categories unscored
score_of_categories-grade_a cs h =
    elim (Bool-cases (eqb (total_weight (filter is_evaluated cs)) 0)) [
      | inl e ↦ ground (arith, rw e at h)
      | inr e ↦
          best_cap (total_weight (filter is_evaluated cs)) (any has_partial_coverage cs)
            (omega (arith, best_grade _ (rw e at h)))
    ]

-- A report has the grade A only if each of its categories is evaluated on a complete analysis.
pub score_report-grade_a :
    (summary : Option Value) (fs : List ReportScoreFinding)
    → (score_report summary fs).grade ≡ some grade_a
    → All IsComplete (score_report summary fs).categories
unfolding score_report
score_report-grade_a summary fs h =
    let cs : List ReportCategoryScore = score_categories summary fs in
    let (weight, whole) = score_of_categories-grade_a cs h in
    rw (score_of_categories_categories cs) (
      All-IsComplete cs (score_categories-IsHonest summary fs)
        (omega (arith, weight, score_categories_weight summary fs)) whole)

find-holds :
    (p : CategoryKey → Bool) (keys : List CategoryKey) (key : CategoryKey)
    → find p keys ≡ some key
    → p key ≡ true
find-holds p [] key h = ground arith
find-holds p (k ∷ keys) key h = elim (Bool-cases (p k)) [
  | inl e ↦ let same : k ≡ key = cc (rw e at h) in rw (← same) e
  | inr e ↦ find-holds p keys key (rw e at h)
]

member :
    (s t : String) (ts : List String)
    → contains s (t ∷ ts) ≡ true
    → (s ≡ t) ⊎ (contains s ts ≡ true)
unfolding contains
member s t ts h = ground (arith, string_key.same_iff s t, string_key.same_iff t s)

-- A finding counts in a category of the score exactly if its category stands in that one's list, so
-- no finding counts in two.
pub report_score_category_iff :
    (category : String) (key : CategoryKey)
    → (report_score_category category ≡ some key)
      ↔ (contains category (finding_categories key) ≡ true)
unfolding report_score_category finding_categories contains
report_score_category_iff category key =
    (find-holds (λ k. contains category (finding_categories k)) category_keys key, listed key)
  where
    listed :
        (key : CategoryKey)
        → contains category (finding_categories key) ≡ true
        → report_score_category category ≡ some key
    listed security_http h = elim (member category "security-header" [] h) [
      | inl e ↦ rw e refl
      | inr r0 ↦ ground (arith, r0)
    ]
    listed security_web h = elim (member category "tls" [] h) [
      | inl e ↦ rw e refl
      | inr r0 ↦ ground (arith, r0)
    ]
    listed performance h = elim (member category "performance" ("javascript" ∷ []) h) [
      | inl e ↦ rw e refl
      | inr r0 ↦ elim (member category "javascript" [] r0) [
        | inl e ↦ rw e refl
        | inr r1 ↦ ground (arith, r1)
      ]
    ]
    listed seo h = elim (member category "seo" [] h) [
      | inl e ↦ rw e refl
      | inr r0 ↦ ground (arith, r0)
    ]
    listed accessibility h = elim (member category "accessibility" [] h) [
      | inl e ↦ rw e refl
      | inr r0 ↦ ground (arith, r0)
    ]
    listed network h = elim (member category "network" ("availability" ∷ "broken-link" ∷ []) h) [
      | inl e ↦ rw e refl
      | inr r0 ↦ elim (member category "availability" ("broken-link" ∷ []) r0) [
        | inl e ↦ rw e refl
        | inr r1 ↦ elim (member category "broken-link" [] r1) [
          | inl e ↦ rw e refl
          | inr r2 ↦ ground (arith, r2)
        ]
      ]
    ]
