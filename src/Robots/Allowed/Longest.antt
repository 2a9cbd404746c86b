-- ===== src/Robots/Allowed/Longest.antt =====
-- robots.ts: the winner is a longest rule that matches, and one that allows among those.
use webprobe.Base.{
  ℕ, ◌≤◌, ◌≡◌, refl, sym, ◌⊎◌, inl, inr, Bool, true, false, Option, none, some, List, [], ◌∷◌, All,
  arith, if◌then◌else◌, length, Bool-cases, Option-cases,
}
use webprobe.Base.Text.{Text}
use webprobe.Robots.Glob.{ends, rule_matches, is_anchored, without_last}
use webprobe.Robots.Glob.Correct.{glob, rule_matches_lem}
use webprobe.Robots.Allowed.{RobotsRule, is_excessive, is_allow, wins, better, winner_of}

-- Whether a rule matches, as a glob.
abbrev pub applies : RobotsRule → Text → Bool
applies r target =
    if is_anchored r.pattern
    then glob true (without_last r.pattern) target
    else glob false r.pattern target

abbrev pub Outranks : RobotsRule → RobotsRule → Type 0
Outranks v r =
    (length r.pattern ≤ length v.pattern)
    × (length v.pattern ≤ length r.pattern
        → is_allow r.directive ≡ true
        → is_allow v.directive ≡ true)

-- A rule is empty, or does not match, or is outranked by the winner.
abbrev pub Beaten : Text → Option RobotsRule → RobotsRule → Type 0
Beaten target winner r =
    (ends r.pattern ≡ true)
    ⊎ (applies r target ≡ false)
    ⊎ ((v : RobotsRule) × (winner ≡ some v) × Outranks v r)

better_lem :
    (r v : RobotsRule) (w : Option RobotsRule)
    → better r w ≡ some v
    → Outranks v r × ((u : RobotsRule) → w ≡ some u → Outranks v u)
better_lem r v none h =
    let same : r ≡ v = cc in rw (← same) ((omega arith, λ k a. a), λ u e. ground (arith, e))
better_lem r v (some u) h = elim (Bool-cases (wins r (some u))) [
  | inl e ↦
      let same : r ≡ v = cc (rw e at h) in
      rw (← same)
        ((omega arith, λ k a. a), λ x f. let agree : u ≡ x = cc in rw (← agree) (ground (arith, e)))
  | inr e ↦
      let same : u ≡ v = cc (rw e at h) in
      rw (← same)
        (ground (arith, e), λ x f. let agree : u ≡ x = cc in rw (← agree) (omega arith, λ k a. a))
]

better-some : (r : RobotsRule) (w : Option RobotsRule) → (v : RobotsRule) × (better r w ≡ some v)
better-some r none = (r, refl)
better-some r (some u) = elim (Bool-cases (wins r (some u))) [
  | inl e ↦ (r, rw e refl)
  | inr e ↦ (u, rw e refl)
]

-- A winner is only replaced by one that outranks it.
Outranks-trans : (a b c : RobotsRule) → Outranks a b → Outranks b c → Outranks a c
Outranks-trans a b c (h, k) (i, j) =
    (omega (arith, h, i), λ l m. k (omega (arith, l, i)) (j (omega (arith, l, h)) m))

winner_of_grows :
    (target : Text) (rules : List RobotsRule) (budget : ℕ) (w w2 : Option RobotsRule)
    (u : RobotsRule)
    → winner_of target rules budget w ≡ some w2
    → w ≡ some u
    → (v : RobotsRule) × (w2 ≡ some v) × Outranks v u
unfolding winner_of
winner_of_grows target [] budget w w2 u h e = (u, cc, (omega arith, λ k a. a))
winner_of_grows target (r ∷ rules) budget w w2 u h e = elim (Bool-cases (is_excessive r.pattern)) [
  | inl f ↦ ground (arith, rw (winner_of, f) at h)
  | inr f ↦ elim (Bool-cases (ends r.pattern)) [
    | inl g ↦ winner_of_grows target rules budget w w2 u (rw (winner_of, f, g) at h) e
    | inr g ↦ elim (Option-cases (rule_matches r.pattern target budget)) [
      | inl i ↦ ground (arith, rw (winner_of, f, g, i) at h)
      | inr ((false, left), i) ↦
          winner_of_grows target rules left w w2 u (rw (winner_of, f, g, i) at h) e
      | inr ((true, left), i) ↦
          let (x, new) = better-some r w in
          let (v, found, rank) =
            winner_of_grows target rules left (better r w) w2 x (rw (winner_of, f, g, i) at h)
              new in
          (v, found, Outranks-trans v x u rank ((better_lem r x w new).1 u e))
    ]
  ]
]

-- Where the rules were decided within the budget, each rule that is not empty and matches the target
-- as a glob is at most as long as the winner, which allows if the rule does and is as long.
pub winner_of_longest :
    (target : Text) (rules : List RobotsRule) (budget : ℕ) (start winner : Option RobotsRule)
    → winner_of target rules budget start ≡ some winner
    → All (Beaten target winner) rules
unfolding winner_of
winner_of_longest target [] budget w w2 h = tt
winner_of_longest target (r ∷ rules) budget w w2 h = elim (Bool-cases (is_excessive r.pattern)) [
  | inl f ↦ ground (arith, rw (winner_of, f) at h)
  | inr f ↦ elim (Bool-cases (ends r.pattern)) [
    | inl g ↦ (inl g, winner_of_longest target rules budget w w2 (rw (winner_of, f, g) at h))
    | inr g ↦ elim (Option-cases (rule_matches r.pattern target budget)) [
      | inl i ↦ ground (arith, rw (winner_of, f, g, i) at h)
      | inr ((false, left), i) ↦ (
        inr (inl (sym (rule_matches_lem r.pattern target budget false left i))),
        winner_of_longest target rules left w w2 (rw (winner_of, f, g, i) at h),
      )
      | inr ((true, left), i) ↦
          let rest : winner_of target rules left (better r w) ≡ some w2 =
            rw (winner_of, f, g, i) at h in
          let (x, new) = better-some r w in
          let (v, found, rank) = winner_of_grows target rules left (better r w) w2 x rest new in
          (
            inr (inr (v, found, Outranks-trans v x r rank (better_lem r x w new).0)),
            winner_of_longest target rules left (better r w) w2 rest,
          )
    ]
  ]
]
