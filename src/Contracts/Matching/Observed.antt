-- ===== src/Contracts/Matching/Observed.antt =====
-- vulnerability-matching.ts: when a version is taken as observed.
use webprobe.Base.{◌≡◌, refl, inl, inr, ◌↔◌, true, false, some, [], ◌∷◌, arith, Option-cases, ℕ}
use webprobe.Base.Text.{Text, codes, split_on, same_text, same_text_iff}
use webprobe.Contracts.Versions.{parse_numeric_version}
use webprobe.Contracts.Versions.Order.{place, value_of}
use webprobe.Contracts.Matching.{TechnologyEvidence, is_set, is_version_confirmed, parses}

-- A version that is given and parses, seen exactly and with high confidence.
abbrev pub IsObserved : TechnologyEvidence → Text → Type 0
IsObserved o v =
    (o.version_confidence ≡ codes "exact")
    × (o.detection_confidence ≡ codes "high")
    × (o.version ≡ some v)
    × ((n : ℕ) × (value_of v ≡ some n))

parses_iff : (v : Text) → (parses v ≡ true) ↔ ((n : ℕ) × (value_of v ≡ some n))
parses_iff v = elim (Option-cases (parse_numeric_version v)) [
  | inl e ↦ rw (parses, value_of, e) (λ h. ground (arith, h), λ (n, k). ground (arith, k))
  | inr (parts, e) ↦ rw (parses, value_of, e) (λ h. (place parts, refl), λ k. refl)
]

empty_parses : parses [] ≡ false
unfolding parse_numeric_version split_on
empty_parses = refl

-- A text that parses is not empty.
parses_set : (v : Text) → parses v ≡ true → is_set (some v) ≡ true
parses_set [] h = ground (arith, empty_parses, h)
parses_set (c ∷ s) h = refl

is_version_confirmed_from :
    (o : TechnologyEvidence) (v : Text)
    → same_text o.version_confidence (codes "exact") ≡ true
    → same_text o.detection_confidence (codes "high") ≡ true
    → o.version ≡ some v
    → (n : ℕ) × (value_of v ≡ some n)
    → is_version_confirmed o ≡ true
unfolding is_version_confirmed
is_version_confirmed_from o v exact high given n =
    let yes = (parses_iff v).1 n in
    rw (is_version_confirmed, exact, high, given, yes, parses_set v yes) refl

pub is_version_confirmed_iff :
    (o : TechnologyEvidence) → (is_version_confirmed o ≡ true) ↔ ((v : Text) × IsObserved o v)
unfolding is_version_confirmed
is_version_confirmed_iff o =
    let (exact, exact2) = same_text_iff o.version_confidence (codes "exact") in
    let (high, high2) = same_text_iff o.detection_confidence (codes "high") in
    elim (Option-cases o.version) [
      | inl e ↦ (λ h. ground (arith, rw e at h), λ (v, (_, _, given, _)). ground (arith, e, given))
      | inr (v, e) ↦ (
        λ h. (
          v,
          (
            exact (ground (arith, h)),
            high (ground (arith, h)),
            e,
            (parses_iff v).0 (ground (arith, rw e at h)),
          ),
        ),
        λ (w, (x, d, given, n)). is_version_confirmed_from o w (exact2 x) (high2 d) given n,
      )
    ]
