-- ===== src/Robots/Glob/Correct.antt =====
-- robots.ts: where the budget lasts, `ruleMatches` decides whether the glob matches.
use webprobe.Base.{
  ℕ, zero, suc, ◌≡◌, refl, inl, inr, Bool, true, false, not, ◌&&◌, ◌||◌, Option, none, some, [],
  ◌∷◌, arith, if◌then◌else◌, eqb, Bool-cases, Option-cases,
}
use webprobe.Base.Text.{Text}
use webprobe.Robots.Glob.{
  star, LastStar, ends, skip_stars, rest, rule_loop, is_anchored, without_last, rule_matches,
}

-- Whether some rest of the text satisfies the test.
abbrev pub any_rest : (Text → Bool) → Text → Bool
any_rest p [] = p []
any_rest p (d ∷ s) = p (d ∷ s) || any_rest p s

-- What a glob means: a star stands for any text, another unit for itself, and an anchored pattern
-- leaves nothing of the target over.
abbrev pub glob : Bool → Text → Text → Bool
glob anchored [] target = not anchored || ends target
glob anchored (c ∷ pattern) [] = if eqb c star then any_rest (glob anchored pattern) [] else false
glob anchored (c ∷ pattern) (d ∷ target) =
    if eqb c star
    then any_rest (glob anchored pattern) (d ∷ target)
    else eqb c d && glob anchored pattern target

-- The last star still may match further on.
abbrev pub retry : Bool → Option LastStar → Bool
retry anchored none = false
retry anchored (some s) = any_rest (glob anchored s.pattern) s.target

-- A rest of a rest is a rest.
any_rest-any_rest :
    (p : Text → Bool) (s : Text) → any_rest (any_rest p) s ≡ true → any_rest p s ≡ true
any_rest-any_rest p [] h = h
any_rest-any_rest p (d ∷ s) h = ground (arith, any_rest-any_rest p s)

any_rest-tail : (p : Text → Bool) (s : Text) → any_rest p s ≡ (p s || any_rest p (rest s))
any_rest-tail p [] = ground arith
any_rest-tail p (d ∷ s) = refl

any_rest-star :
    (anchored : Bool) (c : ℕ) (pattern target : Text)
    → eqb c star ≡ true
    → any_rest (glob anchored (c ∷ pattern)) target ≡ true
    → any_rest (glob anchored pattern) target ≡ true
any_rest-star anchored c pattern [] e h = ground (arith, h, e)
any_rest-star anchored c pattern (d ∷ target) e h =
    ground (arith, h, e, any_rest-star anchored c pattern target e)

-- If a rest of the target matches a unit and then a pattern, a rest of what follows matches that one.
any_rest-unit :
    (anchored : Bool) (c d : ℕ) (pattern target : Text)
    → eqb c star ≡ false
    → any_rest (glob anchored (c ∷ pattern)) (d ∷ target) ≡ true
    → any_rest (glob anchored pattern) target ≡ true
any_rest-unit anchored c d pattern [] plain h = ground (arith, h, plain)
any_rest-unit anchored c d pattern (e ∷ target) plain h =
    ground (arith, h, plain, any_rest-unit anchored c e pattern target plain)

skip_stars_lem :
    (budget : ℕ) (anchored : Bool) (pattern : Text) (r : Bool) (left : ℕ)
    → skip_stars budget pattern ≡ some (r, left)
    → r ≡ glob anchored pattern []
unfolding skip_stars
skip_stars_lem budget anchored [] r left h = ground (arith, h)
skip_stars_lem zero anchored (c ∷ pattern) r left h = ground (arith, h)
skip_stars_lem (suc n) anchored (c ∷ pattern) r left h =
    ground (arith, h, skip_stars_lem n anchored pattern r left)

-- After a mismatch the loop looks for a match of the last star's pattern.
retry_rest : (p : Text → Bool) (s : Text) → any_rest p (rest s) ≡ true → any_rest p s ≡ true
retry_rest p s h = ground (arith, any_rest-tail p s, h)

-- The loop answers for the rest of the pattern or a further match of the last star, if each match
-- of the latter is one that the former still can find.
rule_loop_lem :
    (budget : ℕ) (anchored : Bool) (pattern target : Text) (last : Option LastStar) (r : Bool)
    (left : ℕ)
    → (retry anchored last ≡ true → any_rest (glob anchored pattern) target ≡ true)
    → rule_loop budget anchored pattern target last ≡ some (r, left)
    → r ≡ (glob anchored pattern target || retry anchored last)
unfolding rule_loop
rule_loop_lem zero anchored pattern target last r left inv h = ground (arith, h)
rule_loop_lem (suc n) anchored [] [] last r left inv h = ground (arith, h)
rule_loop_lem (suc n) anchored [] (d ∷ target) none r left inv h = ground (arith, h)
rule_loop_lem (suc n) anchored [] (d ∷ target) (some s) r left inv h =
    let again : rule_loop n anchored s.pattern s.target
            (some (record { pattern = s.pattern; target = rest s.target }))
          ≡ some (r, left)
        → r ≡ (
            glob anchored s.pattern s.target
            || any_rest (glob anchored s.pattern) (rest s.target)) =
      rule_loop_lem n anchored s.pattern s.target
        (some (record { pattern = s.pattern; target = rest s.target })) r left
        (retry_rest (glob anchored s.pattern) s.target) in
    ground (arith, h, again, any_rest-tail (glob anchored s.pattern) s.target)
rule_loop_lem (suc n) anchored (c ∷ pattern) [] last r left inv h =
    ground (arith, inv, skip_stars_lem n anchored (c ∷ pattern) r left h)
rule_loop_lem (suc n) anchored (c ∷ pattern) (d ∷ target) last r left inv h =
    elim (Bool-cases (eqb c star)) [
      | inl e ↦ ground (
        arith,
        e,
        h,
        inv,
        any_rest-star anchored c pattern (d ∷ target) e,
        rule_loop_lem n anchored pattern (d ∷ target)
            (some (record { pattern = pattern; target = target })) r left
            (retry_rest (glob anchored pattern) (d ∷ target)),
      )
      | inr e ↦ elim (Bool-cases (eqb c d)) [
        | inl f ↦ ground (
          arith,
          e,
          f,
          h,
          rule_loop_lem n anchored pattern target last r left
              (λ k. any_rest-unit anchored c d pattern target e (inv k)),
        )
        | inr f ↦ elim (Option-cases last) [
          | inl g ↦ ground (arith, rw g at h, e, f, g)
          | inr (s, g) ↦
              let again : rule_loop n anchored s.pattern s.target
                      (some (record { pattern = s.pattern; target = rest s.target }))
                    ≡ some (r, left)
                  → r ≡ (
                      glob anchored s.pattern s.target
                      || any_rest (glob anchored s.pattern) (rest s.target)) =
                rule_loop_lem n anchored s.pattern s.target
                  (some (record { pattern = s.pattern; target = rest s.target })) r left
                  (retry_rest (glob anchored s.pattern) s.target) in
              rw g (
                ground
                  (arith, rw g at h, e, f, again, any_rest-tail (glob anchored s.pattern) s.target))
        ]
      ]
    ]

-- Where the budget lasts, `ruleMatches` returns whether the target matches the pattern as a glob: a
-- star stands for any text, and a last `$` for the end of the target.
pub rule_matches_lem :
    (pattern target : Text) (budget : ℕ) (r : Bool) (left : ℕ)
    → rule_matches pattern target budget ≡ some (r, left)
    → r ≡ (
        if is_anchored pattern
        then glob true (without_last pattern) target
        else glob false pattern target)
unfolding rule_matches
rule_matches_lem pattern target budget r left h = elim (Bool-cases (is_anchored pattern)) [
  | inl e ↦ rw e (
      ground (
        arith,
        rule_loop_lem budget true (without_last pattern) target none r left (λ k. ground (arith, k))
            (rw (rule_matches, e) at h),
      ))
  | inr e ↦ rw e (
      ground (
        arith,
        rule_loop_lem budget false pattern target none r left (λ k. ground (arith, k))
            (rw (rule_matches, e) at h),
      ))
]
