-- ===== src/DeepLease/Claims.antt =====
-- deep-lease.ts: claimDeepLease, a transaction in two parts, and releaseDeepLease. The row of the
-- scan is locked from the first part to the end of the second, so that no other claim comes
-- between; the attempts themselves are not locked.
use webprobe.Base.{
  eqb, ℕ, suc, ◌+◌, Bool, true, false, not, ◌&&◌, ◌||◌, Option, none, some, ◌∷◌, if◌then◌else◌, ltb,
  leb, any, Result, ok, throw_if, ◌>>◌, ◌>>=◌,
}
use webprobe.DeepLease.Rows.{
  Attempt, running, retrying, Database, DeepLease, is_running, is_completed, lease_ms,
  max_deep_attempts, is_scan_of, is_deep_running, latest, update, attempts_of, is_of_lease,
}

pub record Claimant : Type 0 where
  pub scan_id : ℕ
  pub organization_id : ℕ
  pub site_id : ℕ

-- What the first part has read: the clock and the latest attempt.
pub record Reading : Type 0 where
  pub now : ℕ
  pub latest_attempt : Option Attempt

-- A legacy attempt has no time; one that is not over is busy.
abbrev pub is_busy : Attempt → ℕ → Bool
is_busy a now = elim a.lease_until [
  | none ↦ is_running a.status
  | some t ↦ is_running a.status && ltb now t
]

abbrev pub latest_is_busy : Option Attempt → ℕ → Bool
latest_is_busy none now = false
latest_is_busy (some a) now = is_busy a now

unfoldable pub read_claim : Database → Claimant → ℕ → Result Reading
read_claim db input now =
    let l = latest db.attempts in
    throw_if
      (not (is_scan_of db.scan input.scan_id input.organization_id input.site_id)
        || not (is_deep_running db.scan))
      "Deep scan is not running for this site"
    >> throw_if db.has_check_runs "Check runs already persisted"
    >> throw_if (latest_is_busy l now) "Deep execution lease is active or ambiguous"
    >> ok (record { now = now; latest_attempt = l })

-- `lease_until <= clock_timestamp()`, of the attempt that was read and still runs.
abbrev pub is_expired : Attempt → ℕ → Attempt → Bool
is_expired read now a =
    eqb a.id read.id
    && is_running a.status
    && (elim a.lease_until [ none ↦ false | some t ↦ leb t now ])

abbrev pub expire : ℕ → Attempt → Attempt
expire now a = record a {
  status = retrying;
  retryable = true;
  error_code = some "deep-lease-expired";
  completed_at = some now;
  lease_until = none;
}

-- The update of an attempt that was read as running; a second clock reading decides.
unfoldable pub take_over : Database → ℕ → ℕ → Option Attempt → Result Database
take_over db now later none = ok db
take_over db now later (some read) =
    if is_running read.status
    then throw_if (not (any (is_expired read later) db.attempts))
        "Deep lease was renewed concurrently"
      >> ok (update (is_expired read later) (expire now) db)
    else ok db

abbrev pub number_of_latest : Option Attempt → ℕ
number_of_latest none = 0
number_of_latest (some a) = a.attempt_number

abbrev pub latest_is_completed : Option Attempt → Bool
latest_is_completed none = false
latest_is_completed (some a) = is_completed a.status

abbrev pub new_attempt : Reading → ℕ → ℕ → Attempt
new_attempt r id token = record {
  id = id;
  attempt_number = suc (number_of_latest r.latest_attempt);
  status = running;
  retryable = false;
  error_code = none;
  started_at = r.now;
  completed_at = none;
  lease_until = some (r.now + lease_ms);
  lease_token = some token;
}

-- The insertion; the table's primary key and its unique index refuse a duplicate.
unfoldable pub insert : Attempt → Database → Result Database
insert a db =
    throw_if (any (λ b. eqb b.id a.id || eqb b.attempt_number a.attempt_number) db.attempts)
      "duplicate key value violates unique constraint"
    >> ok (attempts_of db (a ∷ db.attempts))

abbrev pub lease_for : Claimant → Attempt → ℕ → DeepLease
lease_for input a token = record {
  scan_id = input.scan_id;
  attempt_id = a.id;
  attempt_number = a.attempt_number;
  token = token;
  organization_id = input.organization_id;
  site_id = input.site_id;
}

-- The second part; `id` and `token` are the random UUIDs. A throw rolls everything back.
unfoldable pub write_claim :
    Database → Claimant → Reading → ℕ → ℕ → ℕ → Result (DeepLease × Database)
write_claim db input r later id token =
    let a = new_attempt r id token in
    take_over db r.now later r.latest_attempt >>= λ expired.
    throw_if
      (latest_is_completed r.latest_attempt
        || leb max_deep_attempts (number_of_latest r.latest_attempt))
      "Deep execution cannot be retried"
    >> insert a expired
    >>= λ inserted. ok (lease_for input a token, inserted)

-- The transaction, when nothing comes between its parts.
unfoldable pub claim_deep_lease :
    Database → Claimant → ℕ → ℕ → ℕ → ℕ → Result (DeepLease × Database)
claim_deep_lease db input now later id token =
    read_claim db input now >>= λ r. write_claim db input r later id token

abbrev pub interrupt : ℕ → Attempt → Attempt
interrupt now a = record a {
  status = retrying;
  retryable = true;
  error_code = some "deep-interrupted";
  completed_at = some now;
  lease_until = none;
}

-- The attempt of a lease, while it runs.
abbrev pub is_held : DeepLease → Attempt → Bool
is_held lease a = is_of_lease lease a && is_running a.status

unfoldable pub release_deep_lease : Database → DeepLease → ℕ → Database
release_deep_lease db lease now = update (is_held lease) (interrupt now) db
