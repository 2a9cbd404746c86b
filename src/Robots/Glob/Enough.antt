-- ===== src/Robots/Glob/Enough.antt =====
-- robots.ts: a budget that lasts for `ruleMatches`, so that it decides.
use native.Mathlib.Nat.{mul-le-mul_right}
use webprobe.Base.{
  ℕ, zero, suc, ◌+◌, ◌*◌, ◌≤◌, ◌≡◌, refl, inl, inr, Bool, true, false, Option, none, some, [], ◌∷◌,
  arith, eqb, length, Bool-cases, Option-cases,
}
use webprobe.Base.Text.{Text}
use webprobe.Base.Value.{is_some}
use webprobe.Robots.Glob.{
  star, LastStar, skip_stars, rest, rule_loop, is_anchored, without_last, rule_matches,
}

-- How often the loop can start over, where the target is not used up.
abbrev units : Text → Option LastStar → ℕ
units target none = length target
units target (some s) = suc (length s.target)

-- The steps that the loop may take, with `k` for one start.
abbrev need : ℕ → Text → Text → Option LastStar → ℕ
need k pattern [] last = suc (length pattern)
need k pattern (d ∷ target) last = suc (length pattern) + units (d ∷ target) last * k

abbrev Kept : ℕ → Text → Option LastStar → Type 0
Kept k target none = Unit
Kept k target (some s) = (length s.pattern + 2 ≤ k) × (length target ≤ suc (length s.target))

abbrev next : LastStar → LastStar
next s = record { pattern = s.pattern; target = rest s.target }

need-next :
    (k : ℕ) (s : LastStar)
    → length s.pattern + 2 ≤ k
    → suc (need k s.pattern s.target (some (next s))) ≤ suc (length s.target) * k
need-next k s h = go s.target
  where
    go :
        (target : Text)
        → suc
            (need k s.pattern target (some (record { pattern = s.pattern; target = rest target })))
          ≤ suc (length target) * k
    go [] = omega (arith, h)
    go (d ∷ target) = omega (arith, h)

Kept-next : (k : ℕ) (s : LastStar) → length s.pattern + 2 ≤ k → Kept k s.target (some (next s))
Kept-next k s h = (h, go s.target)
  where
    go : (target : Text) → length target ≤ suc (length (rest target))
    go [] = omega arith
    go (d ∷ target) = omega arith

skip_stars_enough :
    (n : ℕ) (pattern : Text) → length pattern ≤ n → is_some (skip_stars n pattern) ≡ true
unfolding skip_stars
skip_stars_enough n [] h = refl
skip_stars_enough zero (c ∷ pattern) h = ground (arith, h)
skip_stars_enough (suc n) (c ∷ pattern) h = ground (arith, h, skip_stars_enough n pattern)

-- Each step brings the need down.
need-star :
    (k c d : ℕ) (pattern target : Text) (last : Option LastStar)
    → Kept k (d ∷ target) last
    → suc (need k pattern (d ∷ target) (some (record { pattern = pattern; target = target })))
      ≤ need k (c ∷ pattern) (d ∷ target) last
need-star k c d pattern target none kept = omega arith
need-star k c d pattern target (some s) (h, le) = omega (arith, mul-le-mul_right k le)

need-unit :
    (k c d : ℕ) (pattern target : Text) (last : Option LastStar)
    → suc (need k pattern target last) ≤ need k (c ∷ pattern) (d ∷ target) last
need-unit k c d pattern [] last = omega arith
need-unit k c d pattern (e ∷ target) none = omega arith
need-unit k c d pattern (e ∷ target) (some s) = omega arith

Kept-tail :
    (k d : ℕ) (target : Text) (last : Option LastStar)
    → Kept k (d ∷ target) last
    → Kept k target last
Kept-tail k d target none kept = tt
Kept-tail k d target (some s) (h, le) = (h, omega (arith, le))

rule_loop_enough :
    (k n : ℕ) (anchored : Bool) (pattern target : Text) (last : Option LastStar)
    → length pattern + 2 ≤ k
    → Kept k target last
    → need k pattern target last ≤ n
    → is_some (rule_loop n anchored pattern target last) ≡ true
unfolding rule_loop
rule_loop_enough k zero anchored pattern [] last h kept le = ground (arith, le)
rule_loop_enough k zero anchored pattern (d ∷ target) last h kept le = ground (arith, le)
rule_loop_enough k (suc n) anchored [] [] last h kept le = refl
rule_loop_enough k (suc n) anchored [] (d ∷ target) none h kept le = ground arith
rule_loop_enough k (suc n) anchored [] (d ∷ target) (some s) h kept le =
    let again : is_some (rule_loop n anchored s.pattern s.target (some (next s))) ≡ true =
      rule_loop_enough k n anchored s.pattern s.target (some (next s)) kept.0 (Kept-next k s kept.0)
        (omega (arith, need-next k s kept.0, le)) in
    ground (arith, again)
rule_loop_enough k (suc n) anchored (c ∷ pattern) [] last h kept le =
    skip_stars_enough n (c ∷ pattern) (omega (arith, le))
rule_loop_enough k (suc n) anchored (c ∷ pattern) (d ∷ target) last h kept le =
    elim (Bool-cases (eqb c star)) [
      | inl e ↦
          let more : is_some (
                rule_loop n anchored pattern (d ∷ target)
                  (some (record { pattern = pattern; target = target })))
              ≡ true =
            rule_loop_enough k n anchored pattern (d ∷ target)
              (some (record { pattern = pattern; target = target })) (omega (arith, h))
              (omega (arith, h), omega arith)
              (omega (arith, le, need-star k c d pattern target last kept)) in
          ground (arith, e, more)
      | inr e ↦ elim (Bool-cases (eqb c d)) [
        | inl f ↦
            let more : is_some (rule_loop n anchored pattern target last) ≡ true =
              rule_loop_enough k n anchored pattern target last (omega (arith, h))
                (Kept-tail k d target last kept)
                (omega (arith, le, need-unit k c d pattern target last)) in
            ground (arith, e, f, more)
        | inr f ↦ elim (Option-cases last) [
          | inl g ↦ rw g (ground (arith, e, f))
          | inr (s, g) ↦
              let sized : length s.pattern + 2 ≤ k = (rw g at kept).0 in
              let again : is_some (rule_loop n anchored s.pattern s.target (some (next s))) ≡ true =
                rule_loop_enough k n anchored s.pattern s.target (some (next s)) sized
                  (Kept-next k s sized) (omega (arith, need-next k s sized, rw g at le)) in
              rw g (ground (arith, e, f, again))
        ]
      ]
    ]

need-start :
    (m : ℕ) (pattern target : Text)
    → length pattern ≤ m
    → need (m + 2) pattern target none ≤ suc (length target) * (m + 2)
need-start m pattern [] h = omega (arith, h)
need-start m pattern (d ∷ target) h = omega (arith, h)

length-without_last : (s : Text) → length (without_last s) ≤ length s
length-without_last [] = omega arith
length-without_last (c ∷ []) = omega arith
length-without_last (c ∷ d ∷ s) = omega (arith, length-without_last (d ∷ s))

-- A budget of one start of the pattern for each unit of the target, and one more, lasts.
pub rule_matches-enough :
    (pattern target : Text) (budget : ℕ)
    → suc (length target) * (length pattern + 2) ≤ budget
    → is_some (rule_matches pattern target budget) ≡ true
unfolding rule_matches
rule_matches-enough pattern target budget h =
    let enough : (anchored : Bool) (p : Text)
        → length p ≤ length pattern
        → is_some (rule_loop budget anchored p target none) ≡ true =
      λ anchored p le.
        rule_loop_enough (length pattern + 2) budget anchored p target none (omega (arith, le)) tt
          (omega (arith, h, need-start (length pattern) p target le)) in
    elim (Bool-cases (is_anchored pattern)) [
      | inl e ↦
          rw (rule_matches, e) (enough true (without_last pattern) (length-without_last pattern))
      | inr e ↦ rw (rule_matches, e) (enough false pattern (omega arith))
    ]
