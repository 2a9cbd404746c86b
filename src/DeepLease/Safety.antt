-- ===== src/DeepLease/Safety.antt =====
-- What holds of the lease in every state that the workers reach.
use webprobe.Base.{
  length, ◌≤◌, List, [], ℕ, suc, ◌≡◌, refl, ap, inl, inr, false, not, ◌||◌, Option, none, some, ◌∷◌,
  any, eqb, leb, arith, Bool-cases, Result, Result-cases, ok, throw_if, ◌>>◌,
}
use webprobe.Base.Text.{Text, text_key}
use webprobe.Security.Urls.{Url, IpLibrary}
use webprobe.DeepLease.Rows.{
  Attempt, Attempt, Database, DeepLease, latest, attempts_of, max_deep_attempts, is_deep_running,
  is_scan_of,
}
use webprobe.DeepLease.Claims.{
  Claimant, Reading, read_claim, write_claim, take_over, insert, new_attempt, latest_is_busy,
  latest_is_completed, number_of_latest, lease_for,
}
use webprobe.DeepLease.Steps.{
  System, system, Step, begin, commit, roll_back, renew, release, persist, fail, fence, reconcile,
  elsewhere, Reach, start, next,
}
use webprobe.DeepLease.Attempts.{length-IsOrdered, IsOrdered, is_reading_of-latest}
use webprobe.DeepLease.Writes.{
  ok_after, ok_injective, take_over-IsWrite, renew_deep_lease-IsWrite,
  persist_deep_check_runs-IsWrite, release_deep_lease-IsWrite, record_deep_failure-IsWrite,
}
use webprobe.DeepLease.Outside.Writes.{fence-IsWrite, reconcile-IsWrite}
use webprobe.DeepLease.Sound.{
  IsSound, is_claim_of, write-IsOrdered, write-is_reading_of, write-IsSound, take_over-IsStopped,
  insert-IsOrdered,
}

-- What a committed claim has done.
pub record IsClaim (db after : Database) (r : Reading) (later id token : ℕ) : Type 0 where
  pub expired : Database
  pub took_over : take_over db r.now later r.latest_attempt ≡ ok expired
  pub few : leb max_deep_attempts (number_of_latest r.latest_attempt) ≡ false
  pub free :
      any
        (λ b. eqb b.id id || eqb b.attempt_number (suc (number_of_latest r.latest_attempt)))
        expired.attempts
      ≡ false
  pub inserted : after.attempts ≡ new_attempt r id token ∷ expired.attempts

pub insert-ok :
    (a : Attempt) (db after : Database)
    → insert a db ≡ ok after
    → (any (λ b. eqb b.id a.id || eqb b.attempt_number a.attempt_number) db.attempts ≡ false)
      × (after.attempts ≡ a ∷ db.attempts)
unfolding insert
insert-ok a db after h =
    elim (Bool-cases
      (any (λ b. eqb b.id a.id || eqb b.attempt_number a.attempt_number) db.attempts)) [
        | inl taken ↦ ground (arith, rw taken at h)
        | inr free ↦
            let same : attempts_of db (a ∷ db.attempts) ≡ after =
              ok_injective _ after (cc (rw free at h)) in
            (free, rw (← same) refl)
      ]

pub write_claim-ok :
    (db after : Database) (input : Claimant) (r : Reading) (later id token : ℕ) (lease : DeepLease)
    → write_claim db input r later id token ≡ ok (lease, after)
    → IsClaim db after r later id token
unfolding write_claim
write_claim-ok db after input r later id token lease h =
    elim (Result-cases (take_over db r.now later r.latest_attempt)) [
      | inl (e, threw) ↦ ground (arith, rw threw at h)
      | inr (expired, took) ↦
          elim (Bool-cases (
            latest_is_completed r.latest_attempt
            || leb max_deep_attempts (number_of_latest r.latest_attempt))) [
              | inl over ↦ ground (arith, rw (took, over) at h)
              | inr few ↦ elim (Result-cases (insert (new_attempt r id token) expired)) [
                | inl (e, threw) ↦ ground (arith, rw (took, few, threw) at h)
                | inr (done, put_in) ↦
                    let same : done ≡ after =
                      ap (λ (p : DeepLease × Database). p.1)
                        (ok_injective (lease_for input (new_attempt r id token) token, done)
                          (lease, after) (cc (rw (took, few, put_in) at h))) in
                    let placed = insert-ok (new_attempt r id token) expired done put_in in
                    record {
                      expired = expired;
                      took_over = took;
                      few = ground (arith, few);
                      free = placed.0;
                      inserted = rw (← same) placed.1;
                    }
              ]
            ]
    ]

commit-IsSound :
    (db after : Database) (input : Claimant) (r : Reading) (later id token : ℕ)
    → IsSound (system db (some (input, r)))
    → IsClaim db after r later id token
    → IsSound (system after none)
unfolding is_claim_of
commit-IsSound db after input r later id token s c =
    let write = take_over-IsWrite db c.expired r.now later r.latest_attempt c.took_over in
    record {
      ordered = rw c.inserted (
          insert-IsOrdered r id token c.expired.attempts
            (write-IsOrdered db c.expired write s.ordered)
            (take_over-IsStopped db c.expired r.now later r.latest_attempt c.took_over s.ordered
              s.read)
            (write-is_reading_of r.latest_attempt db c.expired write s.read)
            (ground (arith, c.few)));
      read = refl;
    }

begin-IsSound :
    (db : Database) (input : Claimant) (now : ℕ) (r : Reading)
    → read_claim db input now ≡ ok r
    → IsSound (system db none)
    → IsSound (system db (some (input, r)))
unfolding read_claim is_claim_of
begin-IsSound db input now r h s =
    let reading : Reading = record { now = now; latest_attempt = latest db.attempts } in
    let tests : Result (Unit {0}) =
      throw_if
        (not (is_scan_of db.scan input.scan_id input.organization_id input.site_id)
          || not (is_deep_running db.scan))
        "Deep scan is not running for this site"
      >> throw_if db.has_check_runs "Check runs already persisted"
      >> throw_if (latest_is_busy (latest db.attempts) now)
          "Deep execution lease is active or ambiguous" in
    let same : reading ≡ r = ok_injective reading r (ok_after tests (ok reading) r h) in
    record { ordered = s.ordered; read = rw (← same) (is_reading_of-latest db.attempts s.ordered) }

few : (rest : List Attempt) → IsOrdered rest → length rest ≤ max_deep_attempts
unfolding IsOrdered
few [] h = omega arith
few (a ∷ rest) h = omega (arith, length-IsOrdered a rest h, h.1)

module _ (parse_url : Text → Option Url) (ip : IpLibrary) where
  Step-IsSound : {s t : System} → Step parse_url ip s t → IsSound s → IsSound t
  unfolding is_claim_of
  Step-IsSound (begin {db} {input} {r} now h) s = begin-IsSound db input now r h s
  Step-IsSound (commit {db} {after} {input} {r} later id token lease h) s =
      commit-IsSound db after input r later id token s
        (write_claim-ok db after input r later id token lease h)
  Step-IsSound (roll_back {db} {claim}) s = record { ordered = s.ordered; read = refl }
  Step-IsSound (renew {db} {after} {claim} seen lease grant now later h) s =
      write-IsSound db after claim
        (renew_deep_lease-IsWrite parse_url ip seen db after lease grant now later h) s
  Step-IsSound (release {db} {claim} lease now) s =
      write-IsSound db _ claim (release_deep_lease-IsWrite db lease now) s
  Step-IsSound (persist {db} {after} {claim} seen input clock ended later h) s =
      write-IsSound db after claim
        (persist_deep_check_runs-IsWrite parse_url ip seen db after input clock ended later h) s
  Step-IsSound (fail {db} {claim} lease code terminal now) s =
      write-IsSound db _ claim (record_deep_failure-IsWrite db lease code terminal now) s
  Step-IsSound (fence {db} {claim} site_id now) s =
      write-IsSound db _ claim (fence-IsWrite db site_id now) s
  Step-IsSound (reconcile {db} {claim} scan_id inspection now closed ended) s =
      write-IsSound db _ claim (reconcile-IsWrite db scan_id inspection now closed ended) s
  Step-IsSound (elsewhere {db} {claim} other) s = record { ordered = s.ordered; read = s.read }

  -- In every state that is reached, the attempts' numbers fall from five at most to one at least, only
  -- the newest attempt runs, and a claim that has read but not written still knows the newest.
  pub Reach-IsSound : {s : System} → Reach parse_url ip s → IsSound s
  unfolding is_claim_of IsOrdered
  Reach-IsSound (start {db} h) = record { ordered = rw h tt; read = refl }
  Reach-IsSound (next r st) = Step-IsSound st (Reach-IsSound r)

  -- No deep scan is attempted more than five times.
  pub at_most_five :
      (s : System) → Reach parse_url ip s → length s.database.attempts ≤ max_deep_attempts
  at_most_five s reached = few s.database.attempts (Reach-IsSound reached).ordered
