-- ===== src/Contracts/Matching/Rules.antt =====
-- vulnerability-matching.ts: what a rule names, and what a version keeps of it.
use webprobe.Base.{
  ℕ, ◌≡◌, refl, ap, ◌∙◌, ◌⊎◌, ◌↔◌, Bool, true, false, not, ◌&&◌, ◌||◌, Option, some, List, [], ◌∷◌,
  ◌++◌, arith,
}
use webprobe.Base.Text.{Text, codes}
use webprobe.Contracts.Versions.{Comparison, same, compare_versions}
use webprobe.Contracts.Matching.{
  AffectedProductRule, is_set, is_exact, text_or_empty, at_least, at_most, is_less, is_greater,
  part, join_some, joined, affected_range, is_malformed,
}

-- A bound that is not given, or that the version keeps.
abbrev pub Bounded : Text → Option Text → (Comparison → Bool) → Type 0
Bounded v bound ok =
    (is_set bound ≡ false)
    ⊎ ((c : Comparison) × (compare_versions v (text_or_empty bound) ≡ some c) × (ok c ≡ true))

abbrev pub InRange : Text → AffectedProductRule → Type 0
InRange v rule =
    Bounded v rule.version_start_including at_least
    × Bounded v rule.version_start_excluding is_greater
    × Bounded v rule.version_end_including at_most
    × Bounded v rule.version_end_excluding is_less

-- The version is the one that the rule names, or, where it names none, keeps all its bounds.
abbrev pub Meets : Text → AffectedProductRule → Type 0
Meets v rule =
    ((is_exact rule.version_exact ≡ true)
      × (compare_versions v (text_or_empty rule.version_exact) ≡ some same))
    ⊎ ((is_exact rule.version_exact ≡ false) × InRange v rule)

-- A bound or none on one side, given once.
abbrev pub IsSide : Option Text → Option Text → Type 0
IsSide including excluding = (is_set including ≡ false) ⊎ (is_set excluding ≡ false)

-- One of the two is given, not both.
abbrev pub IsGiven : Option Text → Option Text → Type 0
IsGiven including excluding = (is_set including ≡ true) ⊎ (is_set excluding ≡ true)

-- A rule of one version without bounds, or of a range with one bound at least and at most one on
-- each side.
abbrev pub NamesVersions : AffectedProductRule → Type 0
NamesVersions rule =
    ((is_exact rule.version_exact ≡ true)
      × (is_set rule.version_start_including ≡ false)
      × (is_set rule.version_start_excluding ≡ false)
      × (is_set rule.version_end_including ≡ false)
      × (is_set rule.version_end_excluding ≡ false))
    ⊎ ((is_exact rule.version_exact ≡ false)
        × IsSide rule.version_start_including rule.version_start_excluding
        × IsSide rule.version_end_including rule.version_end_excluding
        × (IsGiven rule.version_start_including rule.version_start_excluding
            ⊎ IsGiven rule.version_end_including rule.version_end_excluding))

-- The rule names the version, or a range that holds it.
abbrev pub Affected : Text → AffectedProductRule → Type 0
Affected v rule = NamesVersions rule × Meets v rule

joined_set : (c : ℕ) (s : Text) (ts : List Text) → is_set (some (joined (c ∷ s) ts)) ≡ true
joined_set c s [] = refl
joined_set c s (t ∷ ts) = joined_set c (s ++ codes " " ++ t) ts

part_set :
    (given : Bool) (c : ℕ) (s : Text) (bound : Option Text) (rest : List Text)
    → is_set (join_some (part given (c ∷ s) bound ++ rest)) ≡ (given || is_set (join_some rest))
part_set true c s bound rest = joined_set c (s ++ text_or_empty bound) rest
part_set false c s bound rest = refl

last_part_set :
    (given : Bool) (c : ℕ) (s : Text) (bound : Option Text)
    → is_set (join_some (part given (c ∷ s) bound)) ≡ given
last_part_set true c s bound = refl
last_part_set false c s bound = refl

affected_range_set :
    (rule : AffectedProductRule)
    → is_set (affected_range rule) ≡ (
        is_exact rule.version_exact
        || (is_set rule.version_start_including
            || (is_set rule.version_start_excluding
                || (is_set rule.version_end_including || is_set rule.version_end_excluding))))
unfolding affected_range
affected_range_set rule =
    let r4 = part (is_set rule.version_end_excluding) (codes "< ") rule.version_end_excluding in
    let r3 =
      part (is_set rule.version_end_including) (codes "<= ") rule.version_end_including ++ r4 in
    let r2 =
      part (is_set rule.version_start_excluding) (codes "> ") rule.version_start_excluding ++ r3 in
    let r1 =
      part (is_set rule.version_start_including) (codes ">= ") rule.version_start_including ++ r2 in
    let e4 =
      last_part_set (is_set rule.version_end_excluding) b'<' (codes " ")
        rule.version_end_excluding in
    let e3 =
      part_set (is_set rule.version_end_including) b'<' (codes "= ") rule.version_end_including
        r4 in
    let e2 =
      part_set (is_set rule.version_start_excluding) b'>' (codes " ") rule.version_start_excluding
        r3 in
    let e1 =
      part_set (is_set rule.version_start_including) b'>' (codes "= ") rule.version_start_including
        r2 in
    let e0 = part_set (is_exact rule.version_exact) b'=' (codes " ") rule.version_exact r1 in
    e0
    ∙ ap (λ x. is_exact rule.version_exact || x)
        (e1
          ∙ ap (λ x. is_set rule.version_start_including || x)
              (e2
                ∙ ap (λ x. is_set rule.version_start_excluding || x)
                    (e3 ∙ ap (λ x. is_set rule.version_end_including || x) e4)))

five :
    (x a b c d r : Bool)
    → r ≡ (x || (a || (b || (c || d))))
    → ((not r || a && b || c && d || x && (a || b || c || d)) ≡ false) ↔ (
        ((x ≡ true) × (a ≡ false) × (b ≡ false) × (c ≡ false) × (d ≡ false))
        ⊎ ((x ≡ false)
            × ((a ≡ false) ⊎ (b ≡ false))
            × ((c ≡ false) ⊎ (d ≡ false))
            × (((a ≡ true) ⊎ (b ≡ true)) ⊎ ((c ≡ true) ⊎ (d ≡ true)))))
five x a b c d r h = ground (arith, h)

-- The rules that the code takes as rules are those that name versions.
pub is_malformed_iff :
    (rule : AffectedProductRule) → (is_malformed rule ≡ false) ↔ NamesVersions rule
unfolding is_malformed
is_malformed_iff rule =
    five (is_exact rule.version_exact) (is_set rule.version_start_including)
      (is_set rule.version_start_excluding) (is_set rule.version_end_including)
      (is_set rule.version_end_excluding) (is_set (affected_range rule)) (affected_range_set rule)
