-- ===== src/ScanRetry/Attempts.antt =====
-- scan-retry.ts: the attempts of a scan that is not deep, over the rows of the deep lease.
use webprobe.Base.{
  ℕ, suc, Bool, true, false, not, ◌&&◌, Option, none, some, if◌then◌else◌, eqb, ◌==◌, Result, ok,
  throw_if, ◌>>◌, ◌>>=◌,
}
use webprobe.ScanEngine.Types.{verified_deep_audit, mode_key}
use webprobe.DeepLease.Rows.{
  Attempt, running, completed, failed, retrying, Database, is_running, latest, update,
}
use webprobe.DeepLease.Claims.{insert, number_of_latest}
use webprobe.ScanRetry.Errors.{ScanErrorClassification}

pub record ActiveScanAttempt : Type 0 where
  pub id : ℕ
  pub scan_id : ℕ
  pub attempt_number : ℕ

-- `where id = … and status = 'running'`
abbrev pub is_active : ℕ → Attempt → Bool
is_active i a = eqb a.id i && is_running a.status

abbrev pub interrupted : ℕ → Attempt → Attempt
interrupted now a = record a {
  status = retrying;
  retryable = true;
  error_code = some "worker-interrupted";
  completed_at = some now;
}

unfoldable pub interrupt_latest : Option Attempt → ℕ → Database → Database
interrupt_latest none now db = db
interrupt_latest (some a) now db =
    let written = update (is_active a.id) (interrupted now) db in
    if is_running a.status then written else db

abbrev pub started : ℕ → ℕ → ℕ → Attempt
started id number now = record {
  id = id;
  attempt_number = number;
  status = running;
  retryable = false;
  error_code = none;
  started_at = now;
  completed_at = none;
  lease_until = none;
  lease_token = none;
}

-- `id` is the random UUID of the row.
unfoldable pub begin_scan_attempt : Database → ℕ → ℕ → ℕ → Result (ActiveScanAttempt × Database)
begin_scan_attempt db scan_id now id =
    let number = suc (number_of_latest (latest db.attempts)) in
    throw_if (not (eqb db.scan.id scan_id)) "Cannot start attempt for missing scan"
    >> throw_if (db.scan.mode == verified_deep_audit)
        "Deep attempts require the fenced lease lifecycle"
    >> (insert (started id number now) (interrupt_latest (latest db.attempts) now db)
        >>= λ inserted.
            ok (record { id = id; scan_id = scan_id; attempt_number = number }, inserted))

abbrev pub completion : ℕ → Attempt → Attempt
completion now a = record a {
  status = completed;
  retryable = false;
  error_code = none;
  completed_at = some now;
}

unfoldable pub complete_scan_attempt : Database → ActiveScanAttempt → ℕ → Database
complete_scan_attempt db attempt now = update (is_active attempt.id) (completion now) db

abbrev pub failure : ScanErrorClassification → Bool → ℕ → Attempt → Attempt
failure classification terminal now a = record a {
  status = if terminal then failed else retrying;
  retryable = classification.retryable;
  error_code = some classification.code;
  completed_at = some now;
}

unfoldable pub fail_scan_attempt :
    Database → ActiveScanAttempt → ScanErrorClassification → Bool → ℕ → Database
fail_scan_attempt db attempt classification terminal now =
    update (is_active attempt.id) (failure classification terminal now) db

unfoldable pub get_scan_attempt_count : Database → ℕ
get_scan_attempt_count db = number_of_latest (latest db.attempts)
