-- ===== src/Robots/Escapes/Stable.antt =====
-- robots.ts: texts that the normalisation leaves as they are.
use mathlib.Core.List.{append_assoc}
use webprobe.Base.{
  ℕ, ◌+◌, ◌*◌, ◌/◌, ◌%◌, ◌≤◌, ◌<◌, ◌≡◌, ◌≢◌, ◌∙◌, refl, ap, inl, inr, Bool, false, ◌&&◌, some, [],
  ◌∷◌, ◌++◌, arith, eqb, ltb, Bool-cases,
}
use webprobe.Base.Text.{Text}
use webprobe.Robots.Escapes.{
  hex_value, hex_digit, is_unreserved, percent, is_ambiguous, percent_utf8, code_point, is_quoted,
  emit, escaped, unescaped, step, prepend, normalize_from,
}

abbrev pub IsUnit : ℕ → Type 0
IsUnit c = c ≤ 65535

-- A text that stays as it is in front of every text that is normal.
abbrev pub Stable : Bool → Text → Type 0
Stable strict out =
    (s w : Text)
    → normalize_from 0 strict s ≡ some w
    → normalize_from 0 strict (out ++ s) ≡ some (out ++ w)

hex_digit_value : (n : ℕ) → n < 16 → hex_value (hex_digit n) ≡ some n
hex_digit_value n h = ground arith

pub emitted :
    (strict : Bool) (c : ℕ) (s out : Text) (skip : ℕ)
    → step strict c s ≡ emit out skip
    → normalize_from 0 strict (c ∷ s) ≡ prepend out (normalize_from skip strict s)
unfolding normalize_from
emitted strict c s out skip e = rw (normalize_from, e) refl

escaped-percent :
    (strict : Bool) (byte : ℕ)
    → is_unreserved byte ≡ false
    → (strict && is_ambiguous byte) ≡ false
    → escaped strict (some (byte / 16)) (some (byte % 16)) ≡ emit (percent byte) 2
unfolding escaped
escaped-percent strict byte reserved clear =
    let same : 16 * (byte / 16) + byte % 16 ≡ byte = omega arith in
    rw same (rw (clear, reserved) refl)

pub Stable-percent :
    (strict : Bool) (byte : ℕ)
    → byte < 256
    → is_unreserved byte ≡ false
    → (strict && is_ambiguous byte) ≡ false
    → Stable strict (percent byte)
unfolding normalize_from step percent
Stable-percent strict byte small reserved clear s w h =
    let rest : Text = hex_digit (byte / 16) ∷ hex_digit (byte % 16) ∷ s in
    let high : hex_value (hex_digit (byte / 16)) ≡ some (byte / 16) =
      hex_digit_value (byte / 16) (omega (arith, small)) in
    let low : hex_value (hex_digit (byte % 16)) ≡ some (byte % 16) =
      hex_digit_value (byte % 16) (omega arith) in
    let found : step strict b'%' rest ≡ emit (percent byte) 2 =
      ap (λ a. escaped strict a (hex_value (hex_digit (byte % 16)))) high
      ∙ ap (escaped strict (some (byte / 16))) low
      ∙ escaped-percent strict byte reserved clear in
    emitted strict b'%' rest (percent byte) 2 found ∙ ap (prepend (percent byte)) h

pub code_point_ascii : (c : ℕ) (s : Text) → c < 0xd800 → code_point c s ≡ c
unfolding code_point
code_point_ascii c [] h = refl
code_point_ascii c (d ∷ s) h = ground (arith, h)

pub code_point_bound : (c : ℕ) (s : Text) → IsUnit c → code_point c s < 0x110000
unfolding code_point
code_point_bound c [] h = omega (arith, h)
code_point_bound c (d ∷ s) h = ground (arith, h)

pub code_point_low : (c : ℕ) (s : Text) → IsUnit c → code_point c s ≤ 0x7f → c < 0xd800
unfolding code_point
code_point_low c [] unit h = omega (arith, h)
code_point_low c (d ∷ s) unit h = ground (arith, h)

unescaped-plain :
    (c : ℕ) (s : Text)
    → 0x20 < c
    → c < 0x7f
    → c ≢ 0x5c
    → is_quoted c ≡ false
    → unescaped c s ≡ emit (c ∷ []) 0
unfolding unescaped
unescaped-plain c s h1 h2 h4 h5 =
    rw (unescaped, code_point_ascii c s (omega (arith, h2))) (ground (arith, h1, h2, h4, h5))

pub Stable-plain :
    (strict : Bool) (c : ℕ)
    → 0x20 < c
    → c < 0x7f
    → c ≢ b'%'
    → c ≢ 0x5c
    → is_quoted c ≡ false
    → Stable strict (c ∷ [])
unfolding step
Stable-plain strict c h1 h2 h3 h4 h5 s w h =
    let not_escape : eqb c b'%' ≡ false = ground (arith, h3) in
    let found : step strict c s ≡ emit (c ∷ []) 0 =
      rw (step, not_escape) (unescaped-plain c s h1 h2 h4 h5) in
    emitted strict c s (c ∷ []) 0 found ∙ ap (prepend (c ∷ [])) h

Stable-append :
    (strict : Bool) (a b : Text) → Stable strict a → Stable strict b → Stable strict (a ++ b)
Stable-append strict a b ha hb s w h =
    rw (append_assoc a b s, append_assoc a b w) (ha (b ++ s) (b ++ w) (hb s w h))

pub Stable-utf8 : (strict : Bool) (c : ℕ) → 0x7f < c → c < 0x110000 → Stable strict (percent_utf8 c)
unfolding percent_utf8 percent
Stable-utf8 strict c h1 h2 = elim (Bool-cases (ltb c 0x80)) [
  | inl e ↦ ground (arith, e, h1)
  | inr e ↦ elim (Bool-cases (ltb c 0x800)) [
    | inl f ↦
        rw (percent_utf8, e, f)
          (Stable-append strict (percent (0xC0 + c / 64)) (percent (0x80 + c % 64))
            (high (0xC0 + c / 64) (ground (arith, f)) (omega arith)) (low c))
    | inr f ↦ elim (Bool-cases (ltb c 0x10000)) [
      | inl g ↦
          rw (percent_utf8, e, f, g)
            (Stable-append strict (percent (0xE0 + c / 4096))
              (percent (0x80 + c / 64 % 64) ++ percent (0x80 + c % 64))
              (high (0xE0 + c / 4096) (ground (arith, g)) (omega arith)) (two c))
      | inr g ↦
          rw (percent_utf8, e, f, g)
            (Stable-append strict (percent (0xF0 + c / 262144))
              (percent (0x80 + c / 4096 % 64)
                ++ percent (0x80 + c / 64 % 64)
                ++ percent (0x80 + c % 64))
              (high (0xF0 + c / 262144) (omega (arith, h2)) (omega arith))
              (Stable-append strict (percent (0x80 + c / 4096 % 64))
                (percent (0x80 + c / 64 % 64) ++ percent (0x80 + c % 64)) (low (c / 4096)) (two c)))
    ]
  ]
]
  where
    high : (b : ℕ) → b < 256 → 0x80 ≤ b → Stable strict (percent b)
    high b small big = Stable-percent strict b small (ground (arith, big)) (ground (arith, big))

    low : (n : ℕ) → Stable strict (percent (0x80 + n % 64))
    low n = high (0x80 + n % 64) (omega arith) (omega arith)

    two : (n : ℕ) → Stable strict (percent (0x80 + n / 64 % 64) ++ percent (0x80 + n % 64))
    two n =
        Stable-append strict (percent (0x80 + n / 64 % 64)) (percent (0x80 + n % 64)) (low (n / 64))
          (low n)
