-- ===== src/Robots/Allowed/Closed.antt =====
-- robots.ts: what a path that is allowed has passed.
use webprobe.Base.{
  some_injective, ◌≤◌, ◌≡◌, refl, sym, ◌∙◌, ◌⊎◌, inl, inr, true, false, ◌||◌, Option, none, some,
  List, [], ◌∷◌, ◌++◌, All, arith, ltb, length, filter, eqb, ℕ, Bool-cases, Option-cases,
}
use webprobe.Base.Text.{Text}
use webprobe.Base.Value.{is_some}
use webprobe.Robots.Escapes.{normalize_percent_escapes}
use webprobe.Robots.Glob.{star, ends, rule_matches}
use webprobe.Robots.Glob.Correct.{rule_matches_lem}
use webprobe.Robots.Allowed.{
  RobotsRule, RobotsPolicy, Url, max_rules, byte_length, is_excessive, is_allow, wins, better,
  short_enough, normalized_target, max_match_steps, winner_of, permits, is_robots_path_allowed,
}
use webprobe.Robots.Allowed.Longest.{applies, Beaten, winner_of_longest}

-- The path and the query, normalised, of at most 8192 bytes.
abbrev pub IsTarget : Url → Text → Type 0
IsTarget url target =
    (path : Text) × (query : Text) × (normalize_percent_escapes url.pathname true ≡ some path)
    × (normalize_percent_escapes url.search false ≡ some query)
    × (target ≡ path ++ query)
    × (byte_length target ≤ 8192)

-- At most 2048 bytes and 32 stars.
abbrev pub IsModest : RobotsRule → Type 0
IsModest r = (byte_length r.pattern ≤ 2048) × (length (filter (λ c. eqb c star) r.pattern) ≤ 32)

abbrev pub In : RobotsRule → List RobotsRule → Type 0
In v rules = (before : List RobotsRule) × (after : List RobotsRule) × (rules ≡ before ++ v ∷ after)

-- A rule that matches and allows, and is at least as long.
abbrev pub IsOverruled : List RobotsRule → Text → RobotsRule → Type 0
IsOverruled rules target r =
    (v : RobotsRule) × In v rules
    × (is_allow v.directive ≡ true)
    × (applies v target ≡ true)
    × (length r.pattern ≤ length v.pattern)

-- A rule that forbids is empty, or does not match, or is overruled.
abbrev pub IsHarmless : List RobotsRule → Text → RobotsRule → Type 0
IsHarmless rules target r =
    (is_allow r.directive ≡ true)
    ⊎ ((ends r.pattern ≡ true) ⊎ (applies r target ≡ false) ⊎ IsOverruled rules target r)

IsModest-intro : (r : RobotsRule) → is_excessive r.pattern ≡ false → IsModest r
IsModest-intro r h = ground (arith, h)

winner_of-IsModest :
    (target : Text) (rules : List RobotsRule) (budget : ℕ) (start winner : Option RobotsRule)
    → winner_of target rules budget start ≡ some winner
    → All IsModest rules
unfolding winner_of
winner_of-IsModest target [] budget w w2 h = tt
winner_of-IsModest target (r ∷ rules) budget w w2 h = elim (Bool-cases (is_excessive r.pattern)) [
  | inl f ↦ ground (arith, rw (winner_of, f) at h)
  | inr f ↦ (
    IsModest-intro r f,
    elim (Bool-cases (ends r.pattern)) [
      | inl g ↦ winner_of-IsModest target rules budget w w2 (rw (winner_of, f, g) at h)
      | inr g ↦ elim (Option-cases (rule_matches r.pattern target budget)) [
        | inl i ↦ ground (arith, rw (winner_of, f, g, i) at h)
        | inr ((false, left), i) ↦
            winner_of-IsModest target rules left w w2 (rw (winner_of, f, g, i) at h)
        | inr ((true, left), i) ↦
            winner_of-IsModest target rules left (better r w) w2 (rw (winner_of, f, g, i) at h)
      ]
    ],
  )
]

-- A winner that was not there before is a rule that matches.
abbrev IsFound : Text → List RobotsRule → Option RobotsRule → Option RobotsRule → Type 0
IsFound target rules start winner =
    (winner ≡ start)
    ⊎ ((v : RobotsRule) × (winner ≡ some v) × In v rules × (applies v target ≡ true))

IsFound-skip :
    (target : Text) (r : RobotsRule) (rules : List RobotsRule) (w w2 : Option RobotsRule)
    → IsFound target rules w w2
    → IsFound target (r ∷ rules) w w2
IsFound-skip target r rules w w2 (inl same) = inl same
IsFound-skip target r rules w w2 (inr (v, e, (before, after, place), a)) =
    inr (v, e, (r ∷ before, after, rw place refl), a)

IsFound-take :
    (target : Text) (r : RobotsRule) (rules : List RobotsRule) (w w2 : Option RobotsRule)
    → applies r target ≡ true
    → IsFound target rules (better r w) w2
    → IsFound target (r ∷ rules) w w2
IsFound-take target r rules w w2 a (inr found) = IsFound-skip target r rules w w2 (inr found)
IsFound-take target r rules w w2 a (inl same) = elim (Bool-cases (wins r w)) [
  | inl new ↦ inr (r, rw new at same, ([], rules, refl), a)
  | inr old ↦ inl (rw old at same)
]

winner_of-IsFound :
    (target : Text) (rules : List RobotsRule) (budget : ℕ) (start winner : Option RobotsRule)
    → winner_of target rules budget start ≡ some winner
    → IsFound target rules start winner
unfolding winner_of
winner_of-IsFound target [] budget w w2 h = inl (sym (ground (arith, h)))
winner_of-IsFound target (r ∷ rules) budget w w2 h = elim (Bool-cases (is_excessive r.pattern)) [
  | inl f ↦ ground (arith, rw (winner_of, f) at h)
  | inr f ↦ elim (Bool-cases (ends r.pattern)) [
    | inl g ↦
        IsFound-skip target r rules w w2
          (winner_of-IsFound target rules budget w w2 (rw (winner_of, f, g) at h))
    | inr g ↦ elim (Option-cases (rule_matches r.pattern target budget)) [
      | inl i ↦ ground (arith, rw (winner_of, f, g, i) at h)
      | inr ((false, left), i) ↦
          IsFound-skip target r rules w w2
            (winner_of-IsFound target rules left w w2 (rw (winner_of, f, g, i) at h))
      | inr ((true, left), i) ↦
          IsFound-take target r rules w w2
            (sym (rule_matches_lem r.pattern target budget true left i))
            (winner_of-IsFound target rules left (better r w) w2 (rw (winner_of, f, g, i) at h))
    ]
  ]
]

short_enough-some :
    (limit : ℕ) (s t : Text) → short_enough limit s ≡ some t → (s ≡ t) × (byte_length s ≤ limit)
short_enough-some limit s t h = elim (Bool-cases (ltb limit (byte_length s))) [
  | inl e ↦ ground (arith, rw e at h)
  | inr e ↦ (some_injective (rw e at h), ground (arith, e))
]

normalized_target-IsTarget :
    (url : Url) (target : Text) → normalized_target url ≡ some target → IsTarget url target
unfolding normalized_target
normalized_target-IsTarget url target h =
    elim (Option-cases (short_enough 8192 (url.pathname ++ url.search))) [
      | inl e ↦ ground (arith, rw (normalized_target, e) at h)
      | inr (raw, e) ↦ elim (Option-cases (normalize_percent_escapes url.pathname true)) [
        | inl f ↦ ground (arith, rw (normalized_target, e, f) at h)
        | inr (path, f) ↦ elim (Option-cases (normalize_percent_escapes url.search false)) [
          | inl g ↦ ground (arith, rw (normalized_target, e, f, g) at h)
          | inr (query, g) ↦
              let (same, small) =
                short_enough-some 8192 (path ++ query) target
                  (rw (normalized_target, e, f, g) at h) in
              (path, query, f, g, sym same, rw (← same) small)
        ]
      ]
    ]

-- Against no winner, or one that allows, a rule that forbids comes to nothing.
Beaten-IsHarmless :
    (target : Text) (rules : List RobotsRule) (winner : Option RobotsRule) (r : RobotsRule)
    → permits winner ≡ true
    → IsFound target rules none winner
    → Beaten target winner r
    → IsHarmless rules target r
Beaten-IsHarmless target rules winner r may found (inl empty) = inr (inl empty)
Beaten-IsHarmless target rules winner r may found (inr (inl misses)) = inr (inr (inl misses))
Beaten-IsHarmless target rules winner r may (inl nobody) (inr (inr (v, e, rank))) =
    ground (arith, sym nobody ∙ e)
Beaten-IsHarmless target rules winner r may (inr (u, f, placed, a)) (inr (inr (v, e, rank))) =
    let same : u ≡ v = some_injective (sym f ∙ e) in
    inr (inr (inr (u, placed, rw f at may, a, rw (← same) at rank.0)))

All-IsHarmless :
    (target : Text) (rules some_rules : List RobotsRule) (winner : Option RobotsRule)
    → permits winner ≡ true
    → IsFound target rules none winner
    → All (Beaten target winner) some_rules
    → All (IsHarmless rules target) some_rules
All-IsHarmless target rules [] winner may found h = tt
All-IsHarmless target rules (r ∷ rest) winner may found (b, h) = (
  Beaten-IsHarmless target rules winner r may found b,
  All-IsHarmless target rules rest winner may found h,
)

-- A path is allowed only under a policy that is available, with at most 1024 rules, each of at most
-- 2048 bytes and 32 stars, and for a target that is the normalised path and query, of at most 8192
-- bytes, where each rule that forbids is empty, does not match the target as a glob, or is overruled
-- by a rule that allows, matches and is at least as long.
pub is_robots_path_allowed_lem :
    (policy : RobotsPolicy) (url : Url)
    → is_robots_path_allowed policy url ≡ true
    → (policy.unavailable_reason ≡ none)
      × (length policy.rules ≤ 1024)
      × All IsModest policy.rules
      × ((target : Text) × IsTarget url target × All (IsHarmless policy.rules target) policy.rules)
unfolding is_robots_path_allowed
is_robots_path_allowed_lem policy url h =
    elim (Bool-cases (is_some policy.unavailable_reason || ltb max_rules (length policy.rules))) [
      | inl e ↦ ground (arith, rw (is_robots_path_allowed, e) at h)
      | inr e ↦ elim (Option-cases (normalized_target url)) [
        | inl f ↦ ground (arith, rw (is_robots_path_allowed, e, f) at h)
        | inr (target, f) ↦
            elim (Option-cases (winner_of target policy.rules max_match_steps none)) [
              | inl g ↦ ground (arith, rw (is_robots_path_allowed, e, f, g) at h)
              | inr (winner, g) ↦ (
                ground (arith, e),
                ground (arith, e),
                winner_of-IsModest target policy.rules max_match_steps none winner g,
                (
                  target,
                  normalized_target-IsTarget url target f,
                  All-IsHarmless target policy.rules policy.rules winner
                      (rw (is_robots_path_allowed, e, f, g) at h)
                      (winner_of-IsFound target policy.rules max_match_steps none winner g)
                      (winner_of_longest target policy.rules max_match_steps none winner g),
                ),
              )
            ]
      ]
    ]
