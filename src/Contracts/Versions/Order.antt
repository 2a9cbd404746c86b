-- ===== src/Contracts/Versions/Order.antt =====
-- vulnerability-matching.ts: `compareVersions` is the order of numbers on the versions that parse.
use webprobe.Base.{
  some_injective, ◌+◌, ◌*◌, ◌≤◌, Option, none, all, leb, ltb, if◌then◌else◌, Bool-cases, ap, ℕ, ◌≡◌,
  refl, sym, inl, inr, some, List, [], ◌∷◌, arith, Option-cases,
}
use webprobe.Base.Text.{Text, split_on}
use webprobe.Contracts.Products.{trim}
use webprobe.Contracts.Versions.{
  Comparison, less, same, greater, compare_parts, compare_versions, parse_numeric_version,
  three_numerals, numbers, number_of,
}

-- The place of a version among all: its numbers as the digits of one number. A number of a
-- version is at most a million.
abbrev pub place : List ℕ → ℕ
place (a ∷ b ∷ c ∷ []) = 1_000_002_000_001 * a + 1_000_001 * b + c
place parts = 0

abbrev pub value_of : Text → Option ℕ
value_of v = elim (parse_numeric_version v) [ none ↦ none | some parts ↦ some (place parts) ]

abbrev pub order : ℕ → ℕ → Comparison
order m n = if ltb m n then less else if ltb n m then greater else same

abbrev pub order_of : Option ℕ → Option ℕ → Option Comparison
order_of (some m) (some n) = some (order m n)
order_of _ _ = none

-- Three numbers, none of them over a million.
abbrev IsTriple : List ℕ → Type 0
IsTriple parts =
    (a : ℕ) × (b : ℕ) × (c : ℕ) × (parts ≡ a ∷ b ∷ c ∷ [])
    × (a ≤ 1_000_000)
    × (b ≤ 1_000_000)
    × (c ≤ 1_000_000)

IsTriple-of :
    (texts : List Text) (parts : List ℕ)
    → (if three_numerals texts then numbers texts else none) ≡ some parts
    → IsTriple parts
IsTriple-of [] parts h = ground (arith, h)
IsTriple-of (x ∷ []) parts h = ground (arith, h)
IsTriple-of (x ∷ y ∷ []) parts h = ground (arith, h)
IsTriple-of (x ∷ y ∷ z ∷ w ∷ ts) parts h = ground (arith, h)
IsTriple-of (x ∷ y ∷ z ∷ []) parts h = elim (Bool-cases (three_numerals (x ∷ y ∷ z ∷ []))) [
  | inr bad ↦ ground (arith, rw bad at h)
  | inl good ↦
      let a = number_of 0 x in
      let b = number_of 0 y in
      let c = number_of 0 z in
      elim (Bool-cases (all (λ n. leb n 1_000_000) (a ∷ b ∷ c ∷ []))) [
        | inr large ↦ ground (arith, rw (good, large) at h)
        | inl small ↦
            let same : a ∷ b ∷ c ∷ [] ≡ parts = some_injective (rw (good, small) at h) in
            (a, b, c, sym same, ground (arith, small), ground (arith, small), ground (arith, small))
      ]
]

parse-IsTriple : (v : Text) (parts : List ℕ) → parse_numeric_version v ≡ some parts → IsTriple parts
unfolding parse_numeric_version
parse-IsTriple v parts h = IsTriple-of (split_on b'.' (trim v)) parts h

-- Of two triples the first number that differs decides.
compare_triples :
    (a b c x y z : ℕ)
    → b ≤ 1_000_000
    → c ≤ 1_000_000
    → y ≤ 1_000_000
    → z ≤ 1_000_000
    → compare_parts (a ∷ b ∷ c ∷ []) (x ∷ y ∷ z ∷ [])
      ≡ order (place (a ∷ b ∷ c ∷ [])) (place (x ∷ y ∷ z ∷ []))
compare_triples a b c x y z hb hc hy hz = ground arith

-- `compareVersions` has a result exactly if both versions parse, and it is the order of their
-- numbers read as the digits of one number, the major one first.
pub compare_versions_lem : (v w : Text) → compare_versions v w ≡ order_of (value_of v) (value_of w)
unfolding compare_versions
compare_versions_lem v w = elim (Option-cases (parse_numeric_version v)) [
  | inl e ↦ rw (compare_versions, value_of, e) refl
  | inr (p, e) ↦ elim (Option-cases (parse_numeric_version w)) [
    | inl f ↦ rw (compare_versions, value_of, e, f) refl
    | inr (q, f) ↦
        let (a, b, c, s, _, hb, hc) = parse-IsTriple v p e in
        let (x, y, z, r, _, hy, hz) = parse-IsTriple w q f in
        rw (compare_versions, value_of, e, f, s, r)
          (ap some (compare_triples a b c x y z hb hc hy hz))
  ]
]
