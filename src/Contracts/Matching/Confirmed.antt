-- ===== src/Contracts/Matching/Confirmed.antt =====
-- vulnerability-matching.ts: what a confirmed and a dismissed match mean.
use webprobe.Base.{
  ap, ◌≡◌, ◌≢◌, refl, ◌⊎◌, inl, inr, ◌↔◌, Bool, true, false, Option, none, some, List, [], ◌∷◌,
  arith, all, any, Bool-cases, ◌∙◌,
}
use webprobe.Base.Text.{Text}
use webprobe.Contracts.Products.{nvd_product_matches_observation}
use webprobe.Contracts.Versions.{same, compare_versions}
use webprobe.Contracts.Matching.{
  TechnologyEvidence, AffectedProductRule, confirmed, not_applicable, is_exact, text_or_empty,
  is_yes, is_none, decisions, is_malformed, is_version_confirmed, match_exact, match_range,
  match_version, match_technology_to_rule,
}
use webprobe.Contracts.Matching.Rules.{
  InRange, Meets, IsSide, NamesVersions, Affected, is_malformed_iff,
}
use webprobe.Contracts.Matching.Ranges.{is_inverted-InRange, decisions_iff}
use webprobe.Contracts.Matching.Observed.{IsObserved, is_version_confirmed_iff}

match_exact_lem :
    (v : Text) (rule : AffectedProductRule)
    → (((match_exact v rule).status ≡ confirmed)
        ↔ (compare_versions v (text_or_empty rule.version_exact) ≡ some same))
      × ((match_exact v rule).status ≡ not_applicable
          → compare_versions v (text_or_empty rule.version_exact) ≢ some same)
unfolding match_exact
match_exact_lem v rule = ground arith

match_range_lem :
    (v : Text) (rule : AffectedProductRule)
    → ((match_range v rule).status ≡ confirmed → all is_yes (decisions v rule) ≡ true)
      × ((match_range v rule).status ≡ not_applicable → all is_yes (decisions v rule) ≡ false)
unfolding match_range
match_range_lem v rule = ground arith

all_decided : (ds : List (Option Bool)) → all is_yes ds ≡ true → any is_none ds ≡ false
all_decided [] h = refl
all_decided (none ∷ ds) h = ground (arith, h)
all_decided (some b ∷ ds) h = all_decided ds (ground (arith, h))

-- A range that is one and holds the version confirms it.
match_range-InRange :
    (v : Text) (rule : AffectedProductRule)
    → IsSide rule.version_start_including rule.version_start_excluding
    → IsSide rule.version_end_including rule.version_end_excluding
    → InRange v rule
    → (match_range v rule).status ≡ confirmed
unfolding match_range
match_range-InRange v rule sl su inside =
    let yes = (decisions_iff v rule).1 inside in
    rw
      (
        match_range,
        is_inverted-InRange v rule sl su inside,
        all_decided (decisions v rule) yes,
        yes,
      )
      refl

-- A version is confirmed exactly if the rule affects it.
match_version_iff :
    (v : Text) (rule : AffectedProductRule)
    → ((match_version v rule).status ≡ confirmed) ↔ Affected v rule
unfolding match_version
match_version_iff v rule =
    let (names, named) = is_malformed_iff rule in
    let (exact, exact2) = (match_exact_lem v rule).0 in
    elim (Bool-cases (is_malformed rule)) [
      | inl e ↦
          rw (match_version, e) (λ h. ground (arith, h), λ (n, meets). ground (arith, e, named n))
      | inr e ↦ elim (Bool-cases (is_exact rule.version_exact)) [
        | inl f ↦
            let to_exact : match_version v rule ≡ match_exact v rule =
              rw (match_version, e, f) refl in
            rw to_exact (
              λ h. (names e, inl (f, exact h)),
              λ (n, meets). elim meets [
                | inl (g, l) ↦ exact2 l
                | inr (g, l) ↦ ground (arith, f, g)
              ],
            )
        | inr f ↦
            let to_range : match_version v rule ≡ match_range v rule =
              rw (match_version, e, f) refl in
            rw to_range (
              λ h. (names e, inr (f, (decisions_iff v rule).0 ((match_range_lem v rule).0 h))),
              λ (n, meets). elim n [
                | inl (g, _, _, _, _) ↦ ground (arith, f, g)
                | inr (g, sl, su, _) ↦ elim meets [
                  | inl (k, l) ↦ ground (arith, f, k)
                  | inr (k, inside) ↦ match_range-InRange v rule sl su inside
                ]
              ],
            )
      ]
    ]

-- A version is dismissed only by a rule that names versions, and not this one.
match_version-dismissed :
    (v : Text) (rule : AffectedProductRule)
    → (match_version v rule).status ≡ not_applicable
    → NamesVersions rule × ¬ Meets v rule
unfolding match_version
match_version-dismissed v rule h = elim (Bool-cases (is_malformed rule)) [
  | inl e ↦ ground (arith, rw (match_version, e) at h)
  | inr e ↦ (
    (is_malformed_iff rule).0 e,
    elim (Bool-cases (is_exact rule.version_exact)) [
      | inl f ↦ λ k. elim k [
        | inl (g, l) ↦ (match_exact_lem v rule).1 (rw (match_version, e, f) at h) l
        | inr (g, l) ↦ ground (arith, f, g)
      ]
      | inr f ↦ λ k. elim k [
        | inl (g, l) ↦ ground (arith, f, g)
        | inr (g, l) ↦ ground (
          arith,
          (match_range_lem v rule).1 (rw (match_version, e, f) at h),
          (decisions_iff v rule).1 l,
        )
      ]
    ],
  )
]

module _ (lower_case : Text → Text) where
  -- Past the three tests the version decides.
  to_version :
      (o : TechnologyEvidence) (rule : AffectedProductRule)
      → nvd_product_matches_observation lower_case o.vendor o.product rule.vendor rule.product
        ≡ true
      → is_version_confirmed o ≡ true
      → rule.context_required ≡ false
      → match_technology_to_rule lower_case o rule ≡ match_version (text_or_empty o.version) rule
  unfolding match_technology_to_rule
  to_version o rule e f g = rw (match_technology_to_rule, e, f, g) refl

  -- A match is confirmed exactly if the product matches, the version was seen exactly and with high
  -- confidence and parses, the rule needs no further context, and it names one version, which is
  -- that one, or a range, with one or two bounds, that holds it.
  pub match_rule-confirmed_iff :
      (o : TechnologyEvidence) (rule : AffectedProductRule)
      → ((match_technology_to_rule lower_case o rule).status ≡ confirmed) ↔ (
          (nvd_product_matches_observation lower_case o.vendor o.product rule.vendor rule.product
            ≡ true)
          × (rule.context_required ≡ false)
          × ((v : Text) × IsObserved o v × Affected v rule))
  unfolding match_technology_to_rule
  match_rule-confirmed_iff o rule = (
    λ h.
        elim (Bool-cases (
          nvd_product_matches_observation lower_case o.vendor o.product rule.vendor rule.product)) [
            | inr e ↦ ground (arith, rw (match_technology_to_rule, e) at h)
            | inl e ↦ elim (Bool-cases (is_version_confirmed o)) [
              | inr f ↦ ground (arith, rw (match_technology_to_rule, e, f) at h)
              | inl f ↦ elim (Bool-cases rule.context_required) [
                | inl g ↦ ground (arith, rw (match_technology_to_rule, e, f, g) at h)
                | inr g ↦
                    let (v, seen) = (is_version_confirmed_iff o).0 f in
                    let runs : match_technology_to_rule lower_case o rule ≡ match_version v rule =
                      to_version o rule e f g
                      ∙ ap (λ t. match_version (text_or_empty t) rule) seen.2 in
                    (e, g, (v, seen, (match_version_iff v rule).0 (rw runs at h)))
              ]
            ]
          ],
    λ (e, g, (v, seen, affected)).
        let f = (is_version_confirmed_iff o).1 (v, seen) in
        let runs : match_technology_to_rule lower_case o rule ≡ match_version v rule =
          to_version o rule e f g ∙ ap (λ t. match_version (text_or_empty t) rule) seen.2 in
        rw runs ((match_version_iff v rule).1 affected),
  )

  -- A rule that is dismissed is for another product, or it names versions, and the version, which
  -- then is confirmed, is not among them.
  pub match_rule-dismissed :
      (o : TechnologyEvidence) (rule : AffectedProductRule)
      → (match_technology_to_rule lower_case o rule).status ≡ not_applicable
      → (nvd_product_matches_observation lower_case o.vendor o.product rule.vendor rule.product
          ≡ false)
        ⊎ ((is_version_confirmed o ≡ true)
            × NamesVersions rule
            × ¬ Meets (text_or_empty o.version) rule)
  unfolding match_technology_to_rule
  match_rule-dismissed o rule h =
      elim (Bool-cases
        (nvd_product_matches_observation lower_case o.vendor o.product rule.vendor rule.product)) [
          | inr e ↦ inl e
          | inl e ↦ elim (Bool-cases (is_version_confirmed o)) [
            | inr f ↦ ground (arith, rw (match_technology_to_rule, e, f) at h)
            | inl f ↦ elim (Bool-cases rule.context_required) [
              | inl g ↦ ground (arith, rw (match_technology_to_rule, e, f, g) at h)
              | inr g ↦ inr (
                f,
                (match_version-dismissed (text_or_empty o.version) rule
                    (ground (arith, e, f, g, h))).0,
                (match_version-dismissed (text_or_empty o.version) rule
                    (ground (arith, e, f, g, h))).1,
              )
            ]
          ]
        ]
