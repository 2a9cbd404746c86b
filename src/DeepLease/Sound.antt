-- ===== src/DeepLease/Sound.antt =====
-- What every step of the workers keeps.
use webprobe.Base.{
  map, any, ◌<◌, ℕ, ◌<◌, ◌≡◌, refl, inl, inr, Bool, true, false, Option, none, some, List, [], ◌∷◌,
  map, any, arith, Bool-cases, ok,
}
use webprobe.DeepLease.Rows.{
  is_running, attempts_of, change, max_deep_attempts, Attempt, Database, is_running, attempts_of,
  max_deep_attempts, change,
}
use webprobe.DeepLease.Claims.{
  take_over, is_expired, expire, new_attempt, number_of_latest, Claimant, Reading, take_over,
  new_attempt, is_expired, expire, number_of_latest,
}
use webprobe.DeepLease.Steps.{System, system}
use webprobe.DeepLease.Attempts.{
  IsOrdered, IsStopped, is_reading_of, IsOrdered-map, is_reading_of-map,
}
use webprobe.DeepLease.Newest.{newest-any, IsOrdered-cons}
use webprobe.DeepLease.Writes.{IsWrite, ok_injective}

unfoldable pub is_claim_of : Option (Claimant × Reading) → List Attempt → Bool
is_claim_of none rest = true
is_claim_of (some (input, r)) rest = is_reading_of r.latest_attempt rest

-- Between two steps: the attempts are in order, and a claim's reading is of the newest.
pub record IsSound (s : System) : Type 0 where
  pub ordered : IsOrdered s.database.attempts
  pub read : is_claim_of s.claim s.database.attempts ≡ true

pub write-IsOrdered :
    (db after : Database) → IsWrite db after → IsOrdered db.attempts → IsOrdered after.attempts
unfolding IsWrite
write-IsOrdered db after (f, tame, does) h = rw does (IsOrdered-map f tame db.attempts h)

pub write-is_reading_of :
    (read : Option Attempt) (db after : Database)
    → IsWrite db after
    → is_reading_of read db.attempts ≡ true
    → is_reading_of read after.attempts ≡ true
unfolding IsWrite
write-is_reading_of read db after (f, tame, does) h =
    rw does (is_reading_of-map f tame read db.attempts h)

write-is_claim_of :
    (claim : Option (Claimant × Reading)) (db after : Database)
    → IsWrite db after
    → is_claim_of claim db.attempts ≡ true
    → is_claim_of claim after.attempts ≡ true
unfolding is_claim_of
write-is_claim_of none db after w h = refl
write-is_claim_of (some (input, r)) db after w h = write-is_reading_of r.latest_attempt db after w h

pub write-IsSound :
    (db after : Database) (claim : Option (Claimant × Reading))
    → IsWrite db after
    → IsSound (system db claim)
    → IsSound (system after claim)
write-IsSound db after claim w s = record {
  ordered = write-IsOrdered db after w s.ordered;
  read = write-is_claim_of claim db after w s.read;
}

expires_newest :
    (a : Attempt) (now later : ℕ) (rest : List Attempt)
    → IsOrdered rest
    → any (is_expired a later) rest ≡ true
    → IsStopped (map (change (is_expired a later) (expire now)) rest)
unfolding IsStopped
expires_newest a now later [] ord found = tt
expires_newest a now later (h ∷ rest) ord found =
    let is_it : is_expired a later h ≡ true =
      newest-any (is_expired a later) (λ b idle. ground (arith, idle)) h rest ord found in
    rw is_it refl

idle_newest :
    (read : Option Attempt) (rest : List Attempt)
    → is_reading_of read rest ≡ true
    → (elim read [ none ↦ false | some a ↦ is_running a.status ]) ≡ false
    → IsStopped rest
unfolding IsStopped is_reading_of
idle_newest read [] r idle = tt
idle_newest none (h ∷ rest) r idle = ground (arith, r)
idle_newest (some a) (h ∷ rest) r idle = ground (arith, r, idle)

-- A taken over attempt has stopped.
pub take_over-IsStopped :
    (db after : Database) (now later : ℕ) (read : Option Attempt)
    → take_over db now later read ≡ ok after
    → IsOrdered db.attempts
    → is_reading_of read db.attempts ≡ true
    → IsStopped after.attempts
unfolding take_over
take_over-IsStopped db after now later none h ord r =
    rw (← ok_injective db after h) (idle_newest none db.attempts r refl)
take_over-IsStopped db after now later (some a) h ord r = elim (Bool-cases (is_running a.status)) [
  | inr idle ↦
      let same : db ≡ after = ok_injective db after (cc (rw idle at h)) in
      rw (← same) (idle_newest (some a) db.attempts r idle)
  | inl runs ↦ elim (Bool-cases (any (is_expired a later) db.attempts)) [
    | inr none_found ↦ ground (arith, rw (runs, none_found) at h)
    | inl found ↦
        let taken = attempts_of db (map (change (is_expired a later) (expire now)) db.attempts) in
        let same : taken ≡ after = ok_injective taken after (cc (rw (runs, found) at h)) in
        rw (← same) (expires_newest a now later db.attempts ord found)
  ]
]

-- The insertion of the next attempt into a stopped list.
module _ (r : Reading) (id token : ℕ) where
  pub insert-IsOrdered :
      (rest : List Attempt)
      → IsOrdered rest
      → IsStopped rest
      → is_reading_of r.latest_attempt rest ≡ true
      → number_of_latest r.latest_attempt < max_deep_attempts
      → IsOrdered (new_attempt r id token ∷ rest)
  unfolding IsOrdered IsStopped is_reading_of
  insert-IsOrdered rest ord stopped read few = go r.latest_attempt rest ord stopped read few
    where
      go :
          (l : Option Attempt) (rest : List Attempt)
          → IsOrdered rest
          → IsStopped rest
          → is_reading_of l rest ≡ true
          → number_of_latest l < max_deep_attempts
          → IsOrdered (new_attempt (record r { latest_attempt = l }) id token ∷ rest)
      go none [] ord stopped read few = ground arith
      go none (h ∷ rest) ord stopped read few = ground (arith, read)
      go (some a) [] ord stopped read few = ground (arith, read)
      go (some a) (h ∷ rest) ord stopped read few =
          let same : h.attempt_number ≡ a.attempt_number = ground (arith, read) in
          IsOrdered-cons (new_attempt (record r { latest_attempt = some a }) id token) h rest
            (omega (arith, same)) (omega (arith, same)) ord stopped
