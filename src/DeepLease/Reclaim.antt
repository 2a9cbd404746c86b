-- ===== src/DeepLease/Reclaim.antt =====
-- A scan whose worker is gone can be claimed again.
use webprobe.Base.{
  ltb, eqb, some, ℕ, suc, ◌≤◌, ◌<◌, ◌≡◌, refl, sym, ◌∙◌, ◌==◌, ◌+◌, ltb, inl, inr, true, false,
  ◌&&◌, ◌||◌, Option, none, some, List, [], ◌∷◌, map, any, eqb, leb, arith, Bool-cases, ok,
}
use mathlib.Core.Path.{subst}
use webprobe.Base.Text.{Text, codes, text_key}
use webprobe.Base.Value.{is_some}
use webprobe.Security.Urls.{Url, IpLibrary}
use webprobe.DeepLease.Rows.{
  is_of_lease, is_running, Attempt, Database, DeepLease, is_running, latest, attempts_of,
  max_deep_attempts, change, is_of_lease, lease_ms, is_scan_of, is_deep_running,
}
use webprobe.DeepLease.Claims.{
  Claimant, Reading, read_claim, write_claim, take_over, insert, new_attempt, is_busy,
  claim_deep_lease, is_expired, expire, latest_is_busy, latest_is_completed, number_of_latest,
  lease_for,
}
use webprobe.DeepLease.Checks.{assert_deep_lease}
use webprobe.DeepLease.Steps.{System, Reach}
use webprobe.DeepLease.Attempts.{any_key-map, IsTame, change-IsTame, latest-IsOrdered, IsOrdered}
use webprobe.DeepLease.Newest.{next_is_free}
use webprobe.DeepLease.Writes.{expire-IsTame, map-id}
use webprobe.DeepLease.Safety.{Reach-IsSound}

abbrev reading : Database → ℕ → Reading
reading db now = record { now = now; latest_attempt = latest db.attempts }

-- What is not busy at one time and still runs is expired at the next.
is_expired-busy :
    (a : Attempt) (now later : ℕ)
    → is_running a.status ≡ true
    → is_busy a now ≡ false
    → now ≤ later
    → is_expired a later a ≡ true
is_expired-busy a now later runs free le = go a.lease_until free
  where
    go :
        (t : Option ℕ)
        → is_busy (record a { lease_until = t }) now ≡ false
        → is_expired a later (record a { lease_until = t }) ≡ true
    go none free = ground (arith, runs, free)
    go (some t) free =
        let past : ltb now t ≡ false = ground (arith, runs, free) in ground (arith, runs, past)

-- An update of the attempts that leaves their keys.
record Takes (db : Database) (now later : ℕ) (read : Option Attempt) : Type 0 where
  f : Attempt → Attempt
  tame : IsTame f
  takes : take_over db now later read ≡ ok (attempts_of db (map f db.attempts))

Takes-none :
    (db : Database) (now later : ℕ) (read : Option Attempt)
    → take_over db now later read ≡ ok db
    → Takes db now later read
Takes-none db now later read h = record {
  f = λ a. a;
  tame = record { same_id = λ a. refl; same_number = λ a. refl; starts_none = λ a h. h };
  takes = rw (← map-id db.attempts) h;
}

Takes-newest :
    (db : Database) (now later : ℕ) (a : Attempt) (rest : List Attempt)
    → is_busy a now ≡ false
    → now ≤ later
    → Takes (attempts_of db (a ∷ rest)) now later (some a)
unfolding take_over
Takes-newest db now later a rest free le = elim (Bool-cases (is_running a.status)) [
  | inl runs ↦ record {
    f = change (is_expired a later) (expire now);
    tame = change-IsTame (is_expired a later) (expire now) (expire-IsTame now);
    takes =
        let over : is_expired a later a ≡ true = is_expired-busy a now later runs free le in
        rw (over, runs) refl;
  }
  | inr idle ↦ Takes-none (attempts_of db (a ∷ rest)) now later (some a) (rw idle refl)
]

Takes-latest :
    (db : Database) (now later : ℕ)
    → IsOrdered db.attempts
    → latest_is_busy (latest db.attempts) now ≡ false
    → now ≤ later
    → Takes db now later (latest db.attempts)
unfolding take_over latest
Takes-latest db now later ord free le = go db.attempts ord free
  where
    go :
        (rest : List Attempt)
        → IsOrdered rest
        → latest_is_busy (latest rest) now ≡ false
        → Takes (attempts_of db rest) now later (latest rest)
    go [] ord free = Takes-none (attempts_of db []) now later none refl
    go (a ∷ rest) ord free =
        let newest = latest-IsOrdered a rest ord in
        let idle : is_busy a now ≡ false = subst (λ l. latest_is_busy l now ≡ false) newest free in
        subst (λ l. Takes (attempts_of db (a ∷ rest)) now later l) (sym newest)
          (Takes-newest db now later a rest idle le)

-- The attempts of a claim's database after it, given what the take over changed.
abbrev claimed : Database → ℕ → ℕ → ℕ → (Attempt → Attempt) → Database
claimed db now id token f =
    attempts_of db (new_attempt (reading db now) id token ∷ map f db.attempts)

writes_claim :
    (db : Database) (input : Claimant) (now later id token : ℕ)
    → (w : Takes db now later (latest db.attempts))
    → latest_is_completed (latest db.attempts) ≡ false
    → leb max_deep_attempts (number_of_latest (latest db.attempts)) ≡ false
    → IsOrdered db.attempts
    → any (λ a. eqb a.id id) db.attempts ≡ false
    → write_claim db input (reading db now) later id token
      ≡ ok (
        lease_for input (new_attempt (reading db now) id token) token,
        claimed db now id token w.f,
      )
unfolding write_claim insert
writes_claim db input now later id token w open_ few ord fresh =
    let n = suc (number_of_latest (latest db.attempts)) in
    let free : any (λ b. eqb b.id id || eqb b.attempt_number n) (map w.f db.attempts) ≡ false =
      any_key-map w.f w.tame id n db.attempts ∙ next_is_free id db.attempts ord fresh in
    rw (w.takes, open_, few, free) refl

-- What the first test of a claim wants.
pub record IsClaimable (db : Database) (input : Claimant) (now : ℕ) : Type 0 where
  pub found : is_scan_of db.scan input.scan_id input.organization_id input.site_id ≡ true
  pub runs : is_deep_running db.scan ≡ true
  pub fresh : db.has_check_runs ≡ false
  pub free : latest_is_busy (latest db.attempts) now ≡ false
  pub open_ : latest_is_completed (latest db.attempts) ≡ false
  pub few : leb max_deep_attempts (number_of_latest (latest db.attempts)) ≡ false

reads_claim :
    (db : Database) (input : Claimant) (now : ℕ)
    → IsClaimable db input now
    → read_claim db input now ≡ ok (reading db now)
unfolding read_claim
reads_claim db input now c = rw (c.found, c.runs, c.fresh, c.free) refl

module _ (parse_url : Text → Option Url) (ip : IpLibrary) where
  asserts_first :
      (db : Database) (lease : DeepLease) (a : Attempt) (rest : List Attempt) (until now : ℕ)
      → is_scan_of db.scan lease.scan_id lease.organization_id lease.site_id ≡ true
      → is_deep_running db.scan ≡ true
      → is_of_lease lease a ≡ true
      → is_running a.status ≡ true
      → a.lease_until ≡ some until
      → now < until
      → db.site.status == codes "active" ≡ true
      → is_some db.site.verified_at ≡ true
      → assert_deep_lease parse_url ip (attempts_of db (a ∷ rest)) lease none now ≡ ok tt
  unfolding assert_deep_lease
  asserts_first db lease a rest until now found runs own going ends soon active verified =
      let lasts : ltb now until ≡ true = ground (arith, soon) in
      rw (found, runs, own, going, ends, lasts, active, verified) refl

  -- In a state that is reached, a running deep scan without check runs whose latest attempt, if
  -- any, is neither completed nor the fifth, and does not run under a lease that lasts or that
  -- has no end, can be claimed with a new id: the claim returns a lease, and while thirty seconds
  -- have not passed since the clock's first reading, its assertion without a grant holds on an
  -- active, verified site.
  pub claim_again :
      (s : System) (input : Claimant) (now later id token when : ℕ)
      → Reach parse_url ip s
      → IsClaimable s.database input now
      → any (λ a. eqb a.id id) s.database.attempts ≡ false
      → now ≤ later
      → when < now + lease_ms
      → s.database.site.status == codes "active" ≡ true
      → is_some s.database.site.verified_at ≡ true
      → (lease : DeepLease) × (after : Database) × (claim_deep_lease s.database input now later id
            token
          ≡ ok (lease, after))
        × (lease.attempt_id ≡ id)
        × (assert_deep_lease parse_url ip after lease none when ≡ ok tt)
  unfolding claim_deep_lease
  claim_again s input now later id token when reached c fresh le soon active verified =
      let db = s.database in
      let ord = (Reach-IsSound parse_url ip reached).ordered in
      let w = Takes-latest db now later ord c.free le in
      let written = writes_claim db input now later id token w c.open_ c.few ord fresh in
      let own : (eqb id id && eqb token token) ≡ true = ground arith in
      (
        lease_for input (new_attempt (reading db now) id token) token,
        claimed db now id token w.f,
        rw (reads_claim db input now c) written,
        refl,
        asserts_first db (lease_for input (new_attempt (reading db now) id token) token)
            (new_attempt (reading db now) id token) (map w.f db.attempts) (now + lease_ms) when
            c.found c.runs own refl refl soon active verified,
      )
