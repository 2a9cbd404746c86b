-- ===== src/Robots/Escapes/Normal.antt =====
-- robots.ts: a normalised path is normal, so that two spellings never differ twice.
use webprobe.Base.{
  ℕ, zero, suc, ◌+◌, ◌*◌, ◌≤◌, ◌<◌, ◌≡◌, ◌≢◌, ◌∙◌, sym, ◌⊎◌, refl, ap, inl, inr, Bool, true, ◌&&◌,
  ◌||◌, Option, none, some, [], ◌∷◌, ◌++◌, arith, if◌then◌else◌, eqb, ltb, All, Bool-cases,
  Option-cases,
}
use webprobe.Base.Text.{Text}
use webprobe.Robots.Escapes.{
  hex_value, is_unreserved, percent, is_ambiguous, percent_utf8, code_point, is_surrogate,
  is_quoted, Step, refuse, emit, escaped, unescaped, digit_at, after, step, prepend, normalize_from,
  normalize_percent_escapes,
}
use webprobe.Robots.Escapes.Stable.{
  IsUnit, Stable, Stable-percent, Stable-plain, Stable-utf8, emitted, code_point_ascii,
  code_point_bound, code_point_low,
}

hex_value_bound : (c v : ℕ) → hex_value c ≡ some v → v < 16
hex_value_bound c v h = ground (arith, h)

Stable-unreserved :
    (strict : Bool) (byte : ℕ) → is_unreserved byte ≡ true → Stable strict (byte ∷ [])
Stable-unreserved strict byte g =
    Stable-plain strict byte (ground (arith, g)) (ground (arith, g)) (λ e. ground (arith, g, e))
      (λ e. ground (arith, g, e)) (ground (arith, g))

escaped-Stable :
    (strict : Bool) (a b : Option ℕ) (out : Text) (skip : ℕ)
    → ((v : ℕ) → a ≡ some v → v < 16)
    → ((v : ℕ) → b ≡ some v → v < 16)
    → escaped strict a b ≡ emit out skip
    → Stable strict out
unfolding escaped
escaped-Stable strict none b out skip ha hb e = ground (arith, e)
escaped-Stable strict (some high) none out skip ha hb e = ground (arith, e)
escaped-Stable strict (some high) (some low) out skip ha hb e =
    let byte : ℕ = 16 * high + low in
    let small : byte < 256 = omega (arith, ha high refl, hb low refl) in
    elim (Bool-cases (strict && is_ambiguous byte)) [
      | inl f ↦ ground (arith, rw f at e)
      | inr f ↦ elim (Bool-cases (is_unreserved byte)) [
        | inl g ↦
            let same : out ≡ byte ∷ [] = cc (rw (f, g) at e) in
            rw same (Stable-unreserved strict byte g)
        | inr g ↦
            let same : out ≡ percent byte = cc (rw (f, g) at e) in
            rw same (Stable-percent strict byte small g f)
      ]
    ]

unescaped-Stable :
    (strict : Bool) (c : ℕ) (s out : Text) (skip : ℕ)
    → IsUnit c
    → c ≢ b'%'
    → unescaped c s ≡ emit out skip
    → Stable strict out
unfolding unescaped
unescaped-Stable strict c s out skip unit plain e =
    elim (Bool-cases (is_surrogate (code_point c s))) [
      | inl f ↦ ground (arith, rw f at e)
      | inr f ↦ elim (Bool-cases (ltb 0x7f (code_point c s))) [
        | inl g ↦
            let same : out ≡ percent_utf8 (code_point c s) = cc (rw (f, g) at e) in
            rw same
              (Stable-utf8 strict (code_point c s) (ground (arith, g)) (code_point_bound c s unit))
        | inr g ↦
            ascii (code_point_ascii c s (code_point_low c s unit (ground (arith, g))))
              (ground (arith, g)) (rw (f, g) at e)
      ]
    ]
  where
    ascii :
        code_point c s ≡ c
        → code_point c s ≤ 0x7f
        → (if is_quoted (code_point c s)
            then emit (percent (code_point c s)) 0
            else if ltb (code_point c s) 0x20
                || eqb (code_point c s) 0x5c
                || eqb (code_point c s) 0x7f
            then refuse
            else emit (c ∷ []) 0)
          ≡ emit out skip
        → Stable strict out
    ascii own low e = elim (Bool-cases (is_quoted c)) [
      | inl q ↦
          let same : out ≡ percent c = cc (rw (own, q) at e) in
          rw same (
            Stable-percent strict c (omega (arith, rw own at low)) (ground (arith, q))
              (ground (arith, q)))
      | inr q ↦ elim (Bool-cases (ltb c 0x20 || eqb c 0x5c || eqb c 0x7f)) [
        | inl k ↦ ground (arith, rw (own, q, k) at e)
        | inr k ↦
            let same : out ≡ c ∷ [] = cc (rw (own, q, k) at e) in
            rw same (
              Stable-plain strict c (ground (arith, k, q)) (ground (arith, k, rw own at low)) plain
                (λ x. ground (arith, k, x)) q)
      ]
    ]

digit_at_bound : (s : Text) (v : ℕ) → digit_at s ≡ some v → v < 16
digit_at_bound [] v h = ground (arith, h)
digit_at_bound (c ∷ s) v h = hex_value_bound c v h

-- What the loop emits is stable.
step-Stable :
    (strict : Bool) (c : ℕ) (s out : Text) (skip : ℕ)
    → IsUnit c
    → step strict c s ≡ emit out skip
    → Stable strict out
unfolding step
step-Stable strict c s out skip unit e = elim (Bool-cases (eqb c b'%')) [
  | inl f ↦
      escaped-Stable strict (digit_at s) (digit_at (after s)) out skip (digit_at_bound s)
        (digit_at_bound (after s)) (rw (step, f) at e)
  | inr f ↦
      unescaped-Stable strict c s out skip unit (λ same. ground (arith, f, same))
        (rw (step, f) at e)
]

step-cases : (st : Step) → (st ≡ refuse) ⊎ ((out : Text) × (skip : ℕ) × (st ≡ emit out skip))
step-cases refuse = inl refl
step-cases (emit out skip) = inr (out, skip, refl)

normalize_from-normal :
    (skip : ℕ) (strict : Bool) (s w : Text)
    → All IsUnit s
    → normalize_from skip strict s ≡ some w
    → normalize_from 0 strict w ≡ some w
unfolding normalize_from
normalize_from-normal zero strict [] w units h = let same : w ≡ [] = cc in rw same refl
normalize_from-normal (suc skip) strict [] w units h = let same : w ≡ [] = cc in rw same refl
normalize_from-normal (suc skip) strict (c ∷ s) w (unit, units) h =
    normalize_from-normal skip strict s w units h
normalize_from-normal zero strict (c ∷ s) w (unit, units) h = elim (step-cases (step strict c s)) [
  | inl e ↦ ground (arith, rw (normalize_from, e) at h)
  | inr (out, skip, e) ↦ elim (Option-cases (normalize_from skip strict s)) [
    | inl f ↦
        let gone : none ≡ some w = sym (emitted strict c s out skip e ∙ ap (prepend out) f) ∙ h in
        ground (arith, gone)
    | inr (v, f) ↦
        let joined : some (out ++ v) ≡ some w =
          sym (emitted strict c s out skip e ∙ ap (prepend out) f) ∙ h in
        let same : w ≡ out ++ v = cc in
        let normal : normalize_from 0 strict v ≡ some v =
          normalize_from-normal skip strict s v units f in
        rw same (step-Stable strict c s out skip unit e v v normal)
  ]
]

-- A normalised path, read again under the same rules, is accepted and stays as it is.
pub normalize_percent_escapes-normal :
    (value normalized : Text) (reject_ambiguous : Bool)
    → All IsUnit value
    → normalize_percent_escapes value reject_ambiguous ≡ some normalized
    → normalize_percent_escapes normalized reject_ambiguous ≡ some normalized
unfolding normalize_percent_escapes
normalize_percent_escapes-normal value normalized strict units h =
    normalize_from-normal 0 strict value normalized units h
