-- ===== src/DeepLease/Newest.antt =====
-- Statements on a deep scan's attempts find the newest one or none, if they look for a running one.
use webprobe.Base.{
  ℕ, suc, ◌≤◌, ◌<◌, ◌≡◌, refl, sym, inl, inr, Bool, true, false, ◌||◌, List, [], ◌∷◌, All, any,
  find, eqb, arith, Bool-cases,
}
use mathlib.Core.Path.{subst}
use webprobe.DeepLease.Rows.{Attempt, is_running, max_deep_attempts, latest}
use webprobe.DeepLease.Claims.{number_of_latest}
use webprobe.DeepLease.Checks.{is_live}
use webprobe.DeepLease.Attempts.{IsOrdered, Old, latest-IsOrdered}

-- A test that only running attempts pass.
abbrev pub FindsRunning : (Attempt → Bool) → Type 0
FindsRunning p = (a : Attempt) → is_running a.status ≡ false → p a ≡ false

any-Old :
    (p : Attempt → Bool)
    → FindsRunning p
    → (n : ℕ) (rest : List Attempt) → All (Old n) rest
    → any p rest ≡ false
any-Old p finds n [] h = refl
any-Old p finds n (a ∷ rest) ((less, idle), h) = rw (finds a idle, any-Old p finds n rest h)

pub newest-any :
    (p : Attempt → Bool)
    → FindsRunning p
    → (a : Attempt) (rest : List Attempt) → IsOrdered (a ∷ rest)
    → any p (a ∷ rest) ≡ true
    → p a ≡ true
unfolding IsOrdered
newest-any p finds a rest (low, high, old, h) some_found =
    ground (arith, some_found, any-Old p finds a.attempt_number rest old)

find-Old :
    (p : Attempt → Bool) (now n : ℕ) (rest : List Attempt)
    → All (Old n) rest
    → is_live (find p rest) now ≡ false
find-Old p now n [] h = refl
find-Old p now n (a ∷ rest) ((less, idle), h) = elim (Bool-cases (p a)) [
  | inl hit ↦ rw (hit, idle)
  | inr miss ↦ rw (miss, find-Old p now n rest h)
]

-- The attempt that a live lease names is the newest.
pub newest-find :
    (p : Attempt → Bool) (now : ℕ) (a : Attempt) (rest : List Attempt)
    → IsOrdered (a ∷ rest)
    → is_live (find p (a ∷ rest)) now ≡ true
    → p a ≡ true
unfolding IsOrdered
newest-find p now a rest (low, high, old, h) live = elim (Bool-cases (p a)) [
  | inl hit ↦ hit
  | inr miss ↦
      let dead : is_live (find p rest) now ≡ false = find-Old p now a.attempt_number rest old in
      let alive : is_live (find p rest) now ≡ true = cc (rw miss at live) in cc (rw dead at alive)
]

-- A new attempt has another id than each that was issued.
pub fresh-is_fenced :
    (i : ℕ) (new : Attempt) (rest : List Attempt)
    → any (λ b. eqb b.id new.id || eqb b.attempt_number new.attempt_number) rest ≡ false
    → any (λ b. eqb b.id i) rest ≡ true
    → eqb new.id i ≡ false
fresh-is_fenced i new [] free issued = ground (arith, issued)
fresh-is_fenced i new (b ∷ rest) free issued = elim (Bool-cases (eqb b.id i)) [
  | inl hit ↦ ground (arith, free, hit)
  | inr miss ↦ fresh-is_fenced i new rest (ground (arith, free)) (ground (arith, issued, miss))
]

All-Old-le : (m n : ℕ) (rest : List Attempt) → m ≤ n → All (Old m) rest → All (Old n) rest
All-Old-le m n [] le h = tt
All-Old-le m n (a ∷ rest) le ((less, idle), h) = ((omega arith, idle), All-Old-le m n rest le h)

-- The next number in front of a stopped list.
pub IsOrdered-cons :
    (new a : Attempt) (rest : List Attempt)
    → new.attempt_number ≡ suc a.attempt_number
    → a.attempt_number < max_deep_attempts
    → IsOrdered (a ∷ rest)
    → is_running a.status ≡ false
    → IsOrdered (new ∷ a ∷ rest)
unfolding IsOrdered
IsOrdered-cons new a rest next few (low, high, old, h) stopped = (
  omega arith,
  omega arith,
  ((omega arith, stopped), All-Old-le a.attempt_number new.attempt_number rest (omega arith) old),
  (low, high, old, h),
)

above-All :
    (i m n : ℕ) (rest : List Attempt)
    → m ≤ n
    → All (Old m) rest
    → any (λ b. eqb b.id i) rest ≡ false
    → any (λ b. eqb b.id i || eqb b.attempt_number n) rest ≡ false
above-All i m n [] le h free = refl
above-All i m n (b ∷ rest) le ((less, idle), h) free =
    ground (arith, free, above-All i m n rest le h (ground (arith, free)))

-- The next number and an id that is not there break no index.
pub next_is_free :
    (i : ℕ) (rest : List Attempt)
    → IsOrdered rest
    → any (λ b. eqb b.id i) rest ≡ false
    → any (λ b. eqb b.id i || eqb b.attempt_number (suc (number_of_latest (latest rest)))) rest
      ≡ false
unfolding IsOrdered
next_is_free i [] h free = refl
next_is_free i (a ∷ rest) (low, high, old, h) free =
    let next = suc a.attempt_number in
    let others : any (λ b. eqb b.id i || eqb b.attempt_number next) rest ≡ false =
      above-All i a.attempt_number next rest (omega arith) old (ground (arith, free)) in
    let mine : (eqb a.id i || eqb a.attempt_number next) ≡ false = ground (arith, free) in
    subst
      (λ l.
        any (λ b. eqb b.id i || eqb b.attempt_number (suc (number_of_latest l))) (a ∷ rest) ≡ false)
      (sym (latest-IsOrdered a rest (low, high, old, h))) (rw (mine, others))
