-- ===== src/DeepLease/Endings.antt =====
-- The two ways to end a deep scan: the transaction of persistDeepCheckRuns (check-persistence.ts)
-- and recordDeepFailure (apps/worker/src/internal-deep-worker.ts). The rows of the check runs
-- are the flag that they exist; the rows of the technologies are left out.
use webprobe.Base.{
  ℕ, String, Bool, true, false, not, ◌&&◌, ◌||◌, Option, none, some, if◌then◌else◌, ◌==◌, any, map,
  Result, ok, throw_if, ◌>>◌,
}
use webprobe.Base.Text.{Text, codes, text_key}
use webprobe.Base.Value.{at, is_some}
use webprobe.Security.Urls.{Url, IpLibrary}
use webprobe.Security.Ownership.{has_current_site_ownership_proof}
use webprobe.DeepLease.Rows.{
  Attempt, completed, failed, retrying, scan_completed, scan_failed, Database, DeepLease,
  DeepGrantIdentity, is_retrying, is_scan_of, is_deep_running, latest, change, is_of_lease,
}
use webprobe.DeepLease.Checks.{is_site_of_grant, uses_legacy_grant, check_legacy, is_renewable}

-- The input of persistDeepCheckRuns, less the rows to insert. `is_aborted k` is the signal at its
-- k-th reading within the transaction.
pub record Persist : Type 0 where
  pub scan_id : ℕ
  pub organization_id : ℕ
  pub site_id : ℕ
  pub target_url : Text
  pub lease : DeepLease
  pub grant_identity : Option DeepGrantIdentity
  pub is_aborted : ℕ → Bool

module _ (parse_url : Text → Option Url) (ip : IpLibrary) where
  unfoldable pub check_persist_grant :
      Database → Option DeepGrantIdentity → Bool → ℕ → ℕ → Result (Unit {0})
  check_persist_grant db none aborted now later = ok tt
  check_persist_grant db (some grant) aborted now later =
      throw_if
        (not (has_current_site_ownership_proof parse_url ip db.site (at now))
          || not (is_site_of_grant db.site grant))
        "Deep site verification changed before persistence"
      >> (elim (uses_legacy_grant grant) [
        | true ↦
            check_legacy parse_url ip "Deep grant changed before persistence" db.authorization
              db.site.canonical_url grant later
            >> throw_if aborted "Deep grant changed before persistence"
        | false ↦ ok tt
      ])

  -- What the transaction reads and tests before it writes. `clock` gives the readings of the attempt,
  -- the site and the grant.
  unfoldable pub check_persist : Database → Persist → (ℕ → ℕ) → Result (Unit {0})
  check_persist db input clock =
      throw_if
        (not (is_scan_of db.scan input.scan_id input.organization_id input.site_id)
          || not (is_deep_running db.scan))
        "Deep scan is not running for this site"
      >> throw_if (not (any (is_renewable input.lease (clock 0)) db.attempts) || input.is_aborted 0)
          "Deep execution lease lost"
      >> throw_if
          (not (db.site.status == codes "active")
            || not (is_some db.site.verified_at)
            || not (db.site.canonical_url == input.target_url))
          "Deep site changed before persistence"
      >> check_persist_grant db input.grant_identity (input.is_aborted 1) (clock 1) (clock 2)
      >> throw_if (input.is_aborted 2) "Deep execution aborted before persistence"
      >> throw_if db.has_check_runs "Check runs already persisted"

abbrev pub close_attempt : Bool → ℕ → Attempt → Attempt
close_attempt denied now a = record a {
  status = if denied then failed else completed;
  retryable = false;
  error_code = if denied then some "deep-authorization-denied" else none;
  completed_at = some now;
  lease_until = none;
}

-- The writes; the last one finds the attempt only while its lease lasts, else all are undone.
unfoldable pub write_persist : Database → Persist → ℕ → ℕ → Result Database
write_persist db input ended now =
    let denied = not (is_some input.grant_identity) in
    throw_if (not (any (is_renewable input.lease now) db.attempts) || input.is_aborted 3)
      "Deep execution lease lost"
    >> ok (record db {
      scan = record db.scan {
        status = if denied then scan_failed else scan_completed;
        completed_at = some ended;
        deep_error = if denied then some "deep-authorization-denied" else db.scan.deep_error;
      };
      attempts = map (change (is_renewable input.lease now) (close_attempt denied now)) db.attempts;
      has_check_runs = true;
    })

module _ (parse_url : Text → Option Url) (ip : IpLibrary) where
  -- `seen` is the database at the reads, `db` the one at the writes.
  unfoldable pub persist_deep_check_runs :
      Database → Database → Persist → (ℕ → ℕ) → ℕ → ℕ → Result Database
  persist_deep_check_runs seen db input clock ended later =
      check_persist parse_url ip seen input clock >> write_persist db input ended later

abbrev pub is_latest_of : DeepLease → Option Attempt → Bool
is_latest_of lease none = false
is_latest_of lease (some a) = is_of_lease lease a && is_retrying a.status

abbrev pub set_failure : String → Bool → Attempt → Attempt
set_failure code terminal a = record a {
  status = if terminal then failed else retrying;
  retryable = not terminal;
  error_code = some code;
}

abbrev pub is_retried : DeepLease → Attempt → Bool
is_retried lease a = is_of_lease lease a && is_retrying a.status

abbrev pub write_failure : Database → DeepLease → String → Bool → ℕ → Database
write_failure db lease code terminal now = record db {
  scan =
      if terminal
      then record db.scan { status = scan_failed; completed_at = some now; deep_error = some code }
      else db.scan;
  attempts = map (change (is_retried lease) (set_failure code terminal)) db.attempts;
}

unfoldable pub record_deep_failure : Database → DeepLease → String → Bool → ℕ → Database
record_deep_failure db lease code terminal now =
    let written = write_failure db lease code terminal now in
    if is_scan_of db.scan lease.scan_id lease.organization_id lease.site_id
      && is_deep_running db.scan
      && is_latest_of lease (latest db.attempts)
    then written
    else db
