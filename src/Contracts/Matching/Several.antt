-- ===== src/Contracts/Matching/Several.antt =====
-- vulnerability-matching.ts: the match over several rules.
use webprobe.Base.{
  ◌≡◌, ◌≢◌, refl, ◌⊎◌, inl, inr, ◌↔◌, Bool, true, false, none, some, List, [], ◌∷◌, map, arith, any,
  all, find, Bool-cases,
}
use webprobe.Base.Text.{Text}
use webprobe.Contracts.Matching.{
  TechnologyEvidence, AffectedProductRule, MatchResult, confirmed, potential, not_applicable,
  is_status, best_result, match_technology_to_rule, match_technology_to_rules,
}

abbrev pub is_confirmed : MatchResult → Bool
is_confirmed r = is_status r.status confirmed

abbrev pub is_potential : MatchResult → Bool
is_potential r = is_status r.status potential

abbrev pub is_dismissed : MatchResult → Bool
is_dismissed r = is_status r.status not_applicable

find-any :
    (p : MatchResult → Bool) (rs : List MatchResult)
    → ((find p rs ≡ none) × (any p rs ≡ false))
      ⊎ ((r : MatchResult) × (find p rs ≡ some r) × (p r ≡ true) × (any p rs ≡ true))
find-any p [] = inl (refl, refl)
find-any p (r ∷ rs) = elim (Bool-cases (p r)) [
  | inl e ↦ inr (r, rw e refl, e, rw e refl)
  | inr e ↦ rw e (find-any p rs)
]

dismissed_iff :
    (rs : List MatchResult)
    → (all is_dismissed rs ≡ true) ↔ ((any is_confirmed rs ≡ false) × (any is_potential rs ≡ false))
dismissed_iff [] = ground arith
dismissed_iff (r ∷ rs) = ground (arith, dismissed_iff rs)

best_result_lem :
    (rs : List MatchResult)
    → (((best_result rs).status ≡ confirmed) ↔ (any is_confirmed rs ≡ true))
      × (((best_result rs).status ≡ not_applicable) ↔ ((rs ≢ []) × (all is_dismissed rs ≡ true)))
unfolding best_result
best_result_lem [] = ground arith
best_result_lem (r ∷ rs) = elim (find-any is_confirmed (r ∷ rs)) [
  | inr (a, e, f, g) ↦
      let found : best_result (r ∷ rs) ≡ a = rw (best_result, e) refl in
      rw found (ground (arith, f, g, dismissed_iff (r ∷ rs)))
  | inl (e, g) ↦ elim (find-any is_potential (r ∷ rs)) [
    | inr (a, i, f, k) ↦
        let found : best_result (r ∷ rs) ≡ a = rw (best_result, e, i) refl in
        rw found (ground (arith, f, g, k, dismissed_iff (r ∷ rs)))
    | inl (i, k) ↦
        let found : best_result (r ∷ rs) ≡ r = rw (best_result, e, i) refl in
        rw found (ground (arith, g, k, dismissed_iff (r ∷ rs)))
  ]
]

module _ (lower_case : Text → Text) where
  -- Over several rules, a technology is confirmed exactly if some rule confirms it, and it is
  -- dismissed exactly if there is a rule and each dismisses it.
  pub match_rules_iff :
      (o : TechnologyEvidence) (rules : List AffectedProductRule)
      → (((match_technology_to_rules lower_case o rules).status ≡ confirmed)
          ↔ (any is_confirmed (map (match_technology_to_rule lower_case o) rules) ≡ true))
        × (((match_technology_to_rules lower_case o rules).status ≡ not_applicable) ↔ (
            (map (match_technology_to_rule lower_case o) rules ≢ [])
            × (all is_dismissed (map (match_technology_to_rule lower_case o) rules) ≡ true)))
  unfolding match_technology_to_rules
  match_rules_iff o rules = best_result_lem (map (match_technology_to_rule lower_case o) rules)
