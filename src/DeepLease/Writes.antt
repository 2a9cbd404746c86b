-- ===== src/DeepLease/Writes.antt =====
-- Each write of a worker but a claim's insertion leaves the attempts' ids and numbers and starts none.
use webprobe.Base.{
  ℕ, String, ◌≡◌, refl, inl, inr, Bool, true, false, not, ◌&&◌, ◌||◌, Option, none, some, List, [],
  ◌∷◌, map, any, arith, Bool-cases, Result, throw, ok, throw_if, ◌>>◌,
}
use webprobe.Base.Text.{Text}
use webprobe.Base.Value.{is_some}
use webprobe.Security.Urls.{Url, IpLibrary}
use webprobe.DeepLease.Rows.{
  Attempt, Database, DeepLease, DeepGrantIdentity, is_running, change, latest, is_scan_of,
  is_deep_running, attempts_of,
}
use webprobe.DeepLease.Claims.{
  is_expired, expire, take_over, is_held, interrupt, release_deep_lease,
}
use webprobe.DeepLease.Checks.{is_renewable, extend, renew_row, assert_deep_lease, renew_deep_lease}
use webprobe.DeepLease.Endings.{
  Persist, close_attempt, write_persist, check_persist, persist_deep_check_runs, is_retried,
  set_failure, is_latest_of, record_deep_failure,
}
use webprobe.DeepLease.Attempts.{IsTame, change-IsTame}

-- The attempts after the write.
unfoldable pub IsWrite : Database → Database → Type 0
IsWrite db after = (f : Attempt → Attempt) × IsTame f × (after.attempts ≡ map f db.attempts)

pub map-id : (rest : List Attempt) → rest ≡ map (λ a. a) rest
map-id [] = refl
map-id (a ∷ rest) = rw (← map-id rest) refl

pub unchanged-IsWrite : (db after : Database) → after.attempts ≡ db.attempts → IsWrite db after
unfolding IsWrite
unchanged-IsWrite db after same = (
  λ a. a,
  record { same_id = λ a. refl; same_number = λ a. refl; starts_none = λ a h. h },
  rw (same, ← map-id db.attempts) refl,
)

-- What follows a part that did not throw.
pub ok_after {ℓ} :
    {A : Type ℓ} (first : Result (Unit {0})) (r : Result A) (a : A) → (first >> r) ≡ ok a → r ≡ ok a
ok_after (throw e) r a h = ground (arith, h)
ok_after (ok u) r a h = h

pub ok_injective {ℓ} : {A : Type ℓ} (x a : A) → ok x ≡ ok a → x ≡ a
ok_injective x a h = ground (arith, h)

-- The update that a tested statement makes.
tested-IsWrite :
    (test : Bool) (m : String) (f : Attempt → Attempt)
    → IsTame f
    → (db written after : Database) → written.attempts ≡ map f db.attempts
    → (throw_if test m >> ok written) ≡ ok after
    → IsWrite db after
unfolding IsWrite
tested-IsWrite test m f tame db written after does h =
    let same : written ≡ after =
      ok_injective written after (ok_after (throw_if test m) (ok written) after h) in
    (f, tame, rw (← same) does)

pub expire-IsTame : (now : ℕ) → IsTame (expire now)
expire-IsTame now = record {
  same_id = λ a. refl;
  same_number = λ a. refl;
  starts_none = λ a h. refl;
}

pub take_over-IsWrite :
    (db after : Database) (now later : ℕ) (read : Option Attempt)
    → take_over db now later read ≡ ok after
    → IsWrite db after
unfolding take_over
take_over-IsWrite db after now later none h =
    unchanged-IsWrite db after (rw (← ok_injective db after h) refl)
take_over-IsWrite db after now later (some a) h = elim (Bool-cases (is_running a.status)) [
  | inl runs ↦
      tested-IsWrite (not (any (is_expired a later) db.attempts))
        "Deep lease was renewed concurrently" (change (is_expired a later) (expire now))
        (change-IsTame (is_expired a later) (expire now) (expire-IsTame now)) db
        (attempts_of db (map (change (is_expired a later) (expire now)) db.attempts)) after refl
        (cc (rw runs at h))
  | inr idle ↦ unchanged-IsWrite db after (rw (← ok_injective db after (cc (rw idle at h))) refl)
]

close-IsTame : (denied : Bool) (now : ℕ) → IsTame (close_attempt denied now)
close-IsTame true now = record {
  same_id = λ a. refl;
  same_number = λ a. refl;
  starts_none = λ a h. refl;
}
close-IsTame false now = record {
  same_id = λ a. refl;
  same_number = λ a. refl;
  starts_none = λ a h. refl;
}

write_persist-IsWrite :
    (db after : Database) (input : Persist) (ended now : ℕ)
    → write_persist db input ended now ≡ ok after
    → IsWrite db after
unfolding write_persist IsWrite
write_persist-IsWrite db after input ended now h =
    let denied = not (is_some input.grant_identity) in
    let test = is_renewable input.lease now in
    let same = ok_injective _ after (
      ok_after
        (throw_if (not (any test db.attempts) || input.is_aborted 3) "Deep execution lease lost") _
        after h) in
    (
      change test (close_attempt denied now),
      change-IsTame test (close_attempt denied now) (close-IsTame denied now),
      rw (← same) refl,
    )

module _ (parse_url : Text → Option Url) (ip : IpLibrary) where
  pub renew_deep_lease-IsWrite :
      (seen db after : Database) (lease : DeepLease) (grant : Option DeepGrantIdentity)
      (now later : ℕ)
      → renew_deep_lease parse_url ip seen db lease grant now later ≡ ok after
      → IsWrite db after
  unfolding renew_deep_lease renew_row
  renew_deep_lease-IsWrite seen db after lease grant now later h =
      tested-IsWrite (not (any (is_renewable lease later) db.attempts))
        "Deep execution lease unavailable" (change (is_renewable lease later) (extend later))
        (change-IsTame (is_renewable lease later) (extend later)
          (record { same_id = λ a. refl; same_number = λ a. refl; starts_none = λ a i. i }))
        db (attempts_of db (map (change (is_renewable lease later) (extend later)) db.attempts))
        after refl
        (ok_after (assert_deep_lease parse_url ip seen lease grant now) (renew_row db lease later)
          after h)

  pub persist_deep_check_runs-IsWrite :
      (seen db after : Database) (input : Persist) (clock : ℕ → ℕ) (ended later : ℕ)
      → persist_deep_check_runs parse_url ip seen db input clock ended later ≡ ok after
      → IsWrite db after
  unfolding persist_deep_check_runs
  persist_deep_check_runs-IsWrite seen db after input clock ended later h =
      write_persist-IsWrite db after input ended later (
        ok_after (check_persist parse_url ip seen input clock) (write_persist db input ended later)
          after h)

interrupt-IsTame : (now : ℕ) → IsTame (interrupt now)
interrupt-IsTame now = record {
  same_id = λ a. refl;
  same_number = λ a. refl;
  starts_none = λ a h. refl;
}

pub release_deep_lease-IsWrite :
    (db : Database) (lease : DeepLease) (now : ℕ) → IsWrite db (release_deep_lease db lease now)
unfolding release_deep_lease IsWrite
release_deep_lease-IsWrite db lease now = (
  change (is_held lease) (interrupt now),
  change-IsTame (is_held lease) (interrupt now) (interrupt-IsTame now),
  refl,
)

failure-IsTame : (code : String) (terminal : Bool) → IsTame (set_failure code terminal)
failure-IsTame code true = record {
  same_id = λ a. refl;
  same_number = λ a. refl;
  starts_none = λ a h. refl;
}
failure-IsTame code false = record {
  same_id = λ a. refl;
  same_number = λ a. refl;
  starts_none = λ a h. refl;
}

pub record_deep_failure-IsWrite :
    (db : Database) (lease : DeepLease) (code : String) (terminal : Bool) (now : ℕ)
    → IsWrite db (record_deep_failure db lease code terminal now)
unfolding record_deep_failure IsWrite
record_deep_failure-IsWrite db lease code terminal now =
    elim (Bool-cases (
      is_scan_of db.scan lease.scan_id lease.organization_id lease.site_id
      && is_deep_running db.scan
      && is_latest_of lease (latest db.attempts))) [
        | inl ours ↦ (
          change (is_retried lease) (set_failure code terminal),
          change-IsTame (is_retried lease) (set_failure code terminal)
              (failure-IsTame code terminal),
          rw ours refl,
        )
        | inr other ↦
            unchanged-IsWrite db (record_deep_failure db lease code terminal now) (rw other refl)
      ]
