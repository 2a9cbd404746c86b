-- ===== src/DeepLease/Attempts.antt =====
-- Lists of attempts, as claimDeepLease and the updates of its neighbours leave them.
use webprobe.Base.{
  ltb, length, ℕ, ◌≤◌, ◌<◌, ◌≡◌, refl, inl, inr, Bool, true, false, not, ◌&&◌, ◌||◌, Option, none,
  some, List, [], ◌∷◌, map, All, any, all, eqb, arith, Bool-cases,
}
use webprobe.DeepLease.Rows.{latest, Attempt, is_running, change, max_deep_attempts}

-- An attempt that a newer one of this number has replaced.
abbrev pub Old : ℕ → Attempt → Type 0
Old n a = (a.attempt_number < n) × (is_running a.status ≡ false)

-- The numbers fall from five at most to one at least, and only the newest attempt may run.
unfoldable pub IsOrdered : List Attempt → Type 0
IsOrdered [] = Unit
IsOrdered (a ∷ rest) =
    (1 ≤ a.attempt_number)
    × (a.attempt_number ≤ max_deep_attempts)
    × All (Old a.attempt_number) rest
    × IsOrdered rest

-- The attempt of this id was issued and does not run.
abbrev pub is_idle : ℕ → Attempt → Bool
is_idle i a = not (eqb a.id i) || not (is_running a.status)

unfoldable pub is_fenced : ℕ → List Attempt → Bool
is_fenced i rest = any (λ a. eqb a.id i) rest && all (is_idle i) rest

-- What was read of the latest attempt still names the newest one, which has not begun to run since.
unfoldable pub is_reading_of : Option Attempt → List Attempt → Bool
is_reading_of none [] = true
is_reading_of none (h ∷ rest) = false
is_reading_of (some a) [] = false
is_reading_of (some a) (h ∷ rest) =
    eqb h.id a.id
    && eqb h.attempt_number a.attempt_number
    && (is_running a.status || not (is_running h.status))

-- An update that leaves id and number, and starts no attempt.
pub record IsTame (f : Attempt → Attempt) : Type 0 where
  pub same_id : (a : Attempt) → (f a).id ≡ a.id
  pub same_number : (a : Attempt) → (f a).attempt_number ≡ a.attempt_number
  pub starts_none : (a : Attempt) → is_running a.status ≡ false → is_running (f a).status ≡ false

pub change-IsTame :
    (test : Attempt → Bool) (set : Attempt → Attempt) → IsTame set → IsTame (change test set)
change-IsTame test set tame = record {
  same_id =
      λ a. elim (Bool-cases (test a)) [ inl hit ↦ rw (hit, tame.same_id a) | inr miss ↦ rw miss ];
  same_number = λ a. elim (Bool-cases (test a)) [
    | inl hit ↦ rw (hit, tame.same_number a)
    | inr miss ↦ rw miss
  ];
  starts_none = λ a h. elim (Bool-cases (test a)) [
    | inl hit ↦ rw (hit, tame.starts_none a h)
    | inr miss ↦ rw (miss, h)
  ];
}

module _ (f : Attempt → Attempt) (tame : IsTame f) where
  pub All-Old-map : (n : ℕ) (rest : List Attempt) → All (Old n) rest → All (Old n) (map f rest)
  All-Old-map n [] h = tt
  All-Old-map n (a ∷ rest) ((less, idle), h) =
      ((omega (arith, tame.same_number a), tame.starts_none a idle), All-Old-map n rest h)

  pub IsOrdered-map : (rest : List Attempt) → IsOrdered rest → IsOrdered (map f rest)
  unfolding IsOrdered
  IsOrdered-map [] h = tt
  IsOrdered-map (a ∷ rest) (low, high, old, h) =
      rw (tame.same_number a)
        (low, high, All-Old-map a.attempt_number rest old, IsOrdered-map rest h)

  any-map :
      (i : ℕ) (rest : List Attempt)
      → any (λ a. eqb a.id i) (map f rest) ≡ any (λ a. eqb a.id i) rest
  any-map i [] = refl
  any-map i (a ∷ rest) = rw (tame.same_id a, any-map i rest)

  -- The keys of the table's two unique indices.
  pub any_key-map :
      (i n : ℕ) (rest : List Attempt)
      → any (λ b. eqb b.id i || eqb b.attempt_number n) (map f rest)
        ≡ any (λ b. eqb b.id i || eqb b.attempt_number n) rest
  any_key-map i n [] = refl
  any_key-map i n (a ∷ rest) = rw (tame.same_id a, tame.same_number a, any_key-map i n rest)

  idle-map : (i : ℕ) (a : Attempt) → is_idle i a ≡ true → is_idle i (f a) ≡ true
  idle-map i a h = elim (Bool-cases (is_running a.status)) [
    | inl runs ↦ ground (arith, h, tame.same_id a)
    | inr idle ↦ ground (arith, tame.starts_none a idle)
  ]

  all-idle-map :
      (i : ℕ) (rest : List Attempt)
      → all (is_idle i) rest ≡ true
      → all (is_idle i) (map f rest) ≡ true
  all-idle-map i [] h = refl
  all-idle-map i (a ∷ rest) h = elim (Bool-cases (is_idle i a)) [
    | inl idle ↦ ground (arith, idle-map i a idle, all-idle-map i rest (cc (rw idle at h)))
    | inr runs ↦ ground (arith, rw runs at h)
  ]

  pub is_fenced-map :
      (i : ℕ) (rest : List Attempt) → is_fenced i rest ≡ true → is_fenced i (map f rest) ≡ true
  unfolding is_fenced
  is_fenced-map i rest h =
      ground (arith, h, any-map i rest, all-idle-map i rest (ground (arith, h)))

  pub is_reading_of-map :
      (read : Option Attempt) (rest : List Attempt)
      → is_reading_of read rest ≡ true
      → is_reading_of read (map f rest) ≡ true
  unfolding is_reading_of
  is_reading_of-map none [] h = refl
  is_reading_of-map none (a ∷ rest) h = ground (arith, h)
  is_reading_of-map (some r) [] h = ground (arith, h)
  is_reading_of-map (some r) (a ∷ rest) h = elim (Bool-cases (is_running a.status)) [
    | inl runs ↦ ground (arith, h, tame.same_id a, tame.same_number a, runs)
    | inr idle ↦ ground (arith, h, tame.same_id a, tame.same_number a, tame.starts_none a idle)
  ]

-- What the newest attempt is when the numbers fall.
pub latest-IsOrdered :
    (a : Attempt) (rest : List Attempt) → IsOrdered (a ∷ rest) → latest (a ∷ rest) ≡ some a
unfolding IsOrdered latest
latest-IsOrdered a [] h = refl
latest-IsOrdered a (b ∷ rest) (low, high, ((less, idle), old), h) =
    let below : ltb a.attempt_number b.attempt_number ≡ false = ground arith in
    rw (latest-IsOrdered b rest h, below)

-- A reading of the latest attempt is true when it is made.
pub is_reading_of-latest :
    (rest : List Attempt) → IsOrdered rest → is_reading_of (latest rest) rest ≡ true
unfolding latest is_reading_of
is_reading_of-latest [] h = refl
is_reading_of-latest (a ∷ rest) h =
    rw (latest-IsOrdered a rest h) (elim (Bool-cases (is_running a.status)) [
      | inl runs ↦ ground (arith, runs)
      | inr idle ↦ ground (arith, idle)
    ])

pub length-IsOrdered :
    (a : Attempt) (rest : List Attempt)
    → IsOrdered (a ∷ rest)
    → length (a ∷ rest) ≤ a.attempt_number
unfolding IsOrdered
length-IsOrdered a [] h = ground (arith, h)
length-IsOrdered a (b ∷ rest) (low, high, ((less, idle), old), h) =
    omega (arith, length-IsOrdered b rest h)

-- No newest attempt that runs.
unfoldable pub IsStopped : List Attempt → Type 0
IsStopped [] = Unit
IsStopped (a ∷ rest) = is_running a.status ≡ false
