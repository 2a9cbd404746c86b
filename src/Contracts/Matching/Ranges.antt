-- ===== src/Contracts/Matching/Ranges.antt =====
-- vulnerability-matching.ts: what the code decides of a range, and of its order.
use webprobe.Base.{
  all, ap, ◌↔◌, Bool, true, none, [], ◌∷◌, some_injective, ℕ, ◌≤◌, ◌<◌, ◌≡◌, refl, sym, ◌∙◌, ◌⊎◌,
  inl, inr, false, ◌||◌, Option, some, arith, Bool-cases, Option-cases,
}
use webprobe.Base.Text.{Text}
use webprobe.Contracts.Versions.{Comparison, less, same, greater, compare_versions}
use webprobe.Contracts.Versions.Order.{value_of, order, order_of, compare_versions_lem}
use webprobe.Contracts.Matching.{
  bound_decision, decisions, is_yes, AffectedProductRule, is_set, text_or_empty, at_least, at_most,
  is_less, is_greater, first_given, is_inverted,
}
use webprobe.Contracts.Matching.Rules.{Bounded, InRange, IsSide}

-- A comparison is the order of two values.
values :
    (v w : Text) (c : Comparison)
    → compare_versions v w ≡ some c
    → (m : ℕ) × (n : ℕ) × (value_of v ≡ some m) × (value_of w ≡ some n) × (c ≡ order m n)
values v w c h = elim (Option-cases (value_of v)) [
  | inl e ↦
      let nothing : order_of (value_of v) (value_of w) ≡ some c =
        sym (compare_versions_lem v w) ∙ h in
      ground (arith, rw e at nothing)
  | inr (m, e) ↦ elim (Option-cases (value_of w)) [
    | inl f ↦
        let nothing : order_of (value_of v) (value_of w) ≡ some c =
          sym (compare_versions_lem v w) ∙ h in
        ground (arith, rw (e, f) at nothing)
    | inr (n, f) ↦
        let both : order_of (value_of v) (value_of w) ≡ some c =
          sym (compare_versions_lem v w) ∙ h in
        (m, n, e, f, ground (arith, rw (e, f) at both))
  ]
]

-- What a lower and an upper bound that are kept say of the values.
pub IsAbove : Text → Option Text → Option Text → Type 0
IsAbove v including excluding =
    (m : ℕ) × (n : ℕ) × (value_of v ≡ some m)
    × (value_of (text_or_empty (first_given including excluding)) ≡ some n)
    × (n ≤ m)
    × ((is_set excluding ≡ false) ⊎ (n < m))

pub IsBelow : Text → Option Text → Option Text → Type 0
IsBelow v including excluding =
    (m : ℕ) × (n : ℕ) × (value_of v ≡ some m)
    × (value_of (text_or_empty (first_given including excluding)) ≡ some n)
    × (m ≤ n)
    × ((is_set excluding ≡ false) ⊎ (m < n))

above :
    (v : Text) (including excluding : Option Text)
    → IsSide including excluding
    → Bounded v including at_least
    → Bounded v excluding is_greater
    → is_set (first_given including excluding) ≡ true
    → IsAbove v including excluding
unfolding IsAbove
above v none excluding side bi (inl f) set = ground (arith, f, set)
above v none excluding side bi (inr (c, h, k)) set =
    let (m, n, e, f, o) = values v (text_or_empty excluding) c h in
    (m, n, e, f, ground (arith, k, o), inr (ground (arith, k, o)))
above v (some []) excluding side bi be set = ground (arith, set)
above v (some (x ∷ s)) excluding (inl f) bi be set = ground (arith, f)
above v (some (x ∷ s)) excluding (inr g) (inl f) be set = ground (arith, f)
above v (some (x ∷ s)) excluding (inr g) (inr (c, h, k)) be set =
    let (m, n, e, f, o) = values v (x ∷ s) c h in (m, n, e, f, ground (arith, k, o), inl g)

below :
    (v : Text) (including excluding : Option Text)
    → IsSide including excluding
    → Bounded v including at_most
    → Bounded v excluding is_less
    → is_set (first_given including excluding) ≡ true
    → IsBelow v including excluding
unfolding IsBelow
below v none excluding side bi (inl f) set = ground (arith, f, set)
below v none excluding side bi (inr (c, h, k)) set =
    let (m, n, e, f, o) = values v (text_or_empty excluding) c h in
    (m, n, e, f, ground (arith, k, o), inr (ground (arith, k, o)))
below v (some []) excluding side bi be set = ground (arith, set)
below v (some (x ∷ s)) excluding (inl f) bi be set = ground (arith, f)
below v (some (x ∷ s)) excluding (inr g) (inl f) be set = ground (arith, f)
below v (some (x ∷ s)) excluding (inr g) (inr (c, h, k)) be set =
    let (m, n, e, f, o) = values v (x ∷ s) c h in (m, n, e, f, ground (arith, k, o), inl g)

ordered :
    (n n2 m : ℕ) (p q : Bool)
    → n ≤ m
    → m ≤ n2
    → (p ≡ false) ⊎ (n < m)
    → (q ≡ false) ⊎ (m < n2)
    → (elim (order n n2) [ less ↦ false | same ↦ p || q | greater ↦ true ]) ≡ false
ordered n n2 m p q le le2 h k = ground arith

-- A range that holds a version is not inverted.
pub is_inverted-InRange :
    (v : Text) (rule : AffectedProductRule)
    → IsSide rule.version_start_including rule.version_start_excluding
    → IsSide rule.version_end_including rule.version_end_excluding
    → InRange v rule
    → is_inverted rule ≡ false
unfolding is_inverted IsAbove IsBelow
is_inverted-InRange v rule sl su (a, b, c, d) =
    let lower = first_given rule.version_start_including rule.version_start_excluding in
    let upper = first_given rule.version_end_including rule.version_end_excluding in
    elim (Bool-cases (is_set lower)) [
      | inr open_ ↦ rw open_ refl
      | inl start ↦ elim (Bool-cases (is_set upper)) [
        | inr open_ ↦ rw (start, open_) refl
        | inl end ↦
            let (m, n, e, f, le, strict) =
              above v rule.version_start_including rule.version_start_excluding sl a b start in
            let (m2, n2, e2, f2, le2, strict2) =
              below v rule.version_end_including rule.version_end_excluding su c d end in
            let agree : m ≡ m2 = some_injective (sym e ∙ e2) in
            let compared : compare_versions (text_or_empty lower) (text_or_empty upper)
                ≡ order_of (some n) (some n2) =
              compare_versions_lem (text_or_empty lower) (text_or_empty upper)
              ∙ (rw (f, f2) refl) in
            rw (start, end, compared)
              (ordered n n2 m (is_set rule.version_start_excluding)
                (is_set rule.version_end_excluding) le (omega (arith, agree, le2)) strict
                (elim strict2 [
                  | inl none_ ↦ inl none_
                  | inr under ↦ inr (omega (arith, agree, under))
                ]))
      ]
    ]

bound_decision_iff :
    (v : Text) (bound : Option Text) (ok : Comparison → Bool)
    → (bound_decision v bound ok ≡ some true) ↔ Bounded v bound ok
unfolding bound_decision
bound_decision_iff v none ok = (λ h. inl refl, λ h. refl)
bound_decision_iff v (some []) ok = (λ h. inl refl, λ h. refl)
bound_decision_iff v (some (c ∷ s)) ok = elim (Option-cases (compare_versions v (c ∷ s))) [
  | inl e ↦ (
    λ h. ground (arith, e, h),
    λ h. elim h [ inl g ↦ ground (arith, g) | inr (x, g, k) ↦ ground (arith, e, g) ],
  )
  | inr (x, e) ↦ (
    λ h. inr (x, e, ground (arith, e, h)),
    λ h. elim h [
      | inl g ↦ ground (arith, g)
      | inr (y, g, k) ↦ let agree : x ≡ y = cc in ground (arith, e, rw (← agree) at k)
    ],
  )
]

-- The code's decisions are all yes exactly in the range.
pub decisions_iff :
    (v : Text) (rule : AffectedProductRule)
    → (all is_yes (decisions v rule) ≡ true) ↔ InRange v rule
unfolding decisions
decisions_iff v rule =
    let yes : (bound : Option Text) (ok : Comparison → Bool)
        → (is_yes (bound_decision v bound ok) ≡ true) ↔ Bounded v bound ok =
      λ bound ok. (
        λ h. (bound_decision_iff v bound ok).0 (ground (arith, h)),
        λ h. ap is_yes ((bound_decision_iff v bound ok).1 h),
      ) in
    let (a, a2) = yes rule.version_start_including at_least in
    let (b, b2) = yes rule.version_start_excluding is_greater in
    let (c, c2) = yes rule.version_end_including at_most in
    let (d, d2) = yes rule.version_end_excluding is_less in
    (
      λ h. (
        a (ground (arith, h)),
        b (ground (arith, h)),
        c (ground (arith, h)),
        d (ground (arith, h)),
      ),
      λ (w, x, y, z). ground (arith, a2 w, b2 x, c2 y, d2 z),
    )
