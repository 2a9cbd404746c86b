-- ===== src/ScanRetry/Tests.antt =====
-- A worker that is interrupted and comes back too late, and a transient error.
use webprobe.Base.{◌≡◌, refl, true, false, none, some, [], ◌∷◌, ok}
use webprobe.Security.Ownership.Tests.{proof}
use webprobe.ScanEngine.Types.{public_audit, ScanMode-discrete}
use webprobe.DeepLease.Rows.{
  Attempt, running, retrying, scan_running, Database, attempts_of, latest,
}
use webprobe.DeepLease.Claims.{insert}
use webprobe.ScanRetry.Errors.{ScanErrorClassification}
use webprobe.ScanRetry.Attempts.{
  ActiveScanAttempt, begin_scan_attempt, complete_scan_attempt, fail_scan_attempt,
  get_scan_attempt_count, interrupt_latest,
}
use webprobe.ScanRetry.History.{begin, run, superseded_lem}

abbrev public_scan : Database
public_scan = record {
  scan = record {
    id = 1;
    organization_id = 2;
    site_id = 3;
    status = scan_running;
    mode = public_audit;
    completed_at = none;
    deep_error = none;
  };
  attempts = [];
  has_check_runs = false;
  site = proof;
  authorization = none;
}

abbrev started_attempt : Attempt
started_attempt = record {
  id = 11;
  attempt_number = 2;
  status = running;
  retryable = false;
  error_code = none;
  started_at = 50;
  completed_at = none;
  lease_until = none;
  lease_token = none;
}

abbrev interrupted_attempt : Attempt
interrupted_attempt = record started_attempt {
  id = 10;
  attempt_number = 1;
  status = retrying;
  retryable = true;
  error_code = some "worker-interrupted";
  started_at = 0;
  completed_at = some 50;
}

abbrev second_scan : Database
second_scan = attempts_of public_scan (started_attempt ∷ interrupted_attempt ∷ [])

abbrev first_active : ActiveScanAttempt
first_active = record { id = 10; scan_id = 1; attempt_number = 1 }

abbrev second_active : ActiveScanAttempt
second_active = record { id = 11; scan_id = 1; attempt_number = 2 }

abbrev reset : ScanErrorClassification
reset = record { retryable = true; code = "ECONNRESET" }

second_begun :
    begin_scan_attempt (run (begin 1 0 10 ∷ []) public_scan) 1 50 11
    ≡ ok (second_active, second_scan)
unfolding begin_scan_attempt run insert interrupt_latest latest ScanMode-discrete
second_begun = refl

superseded_lem_example :
    (complete_scan_attempt second_scan first_active 60 ≡ second_scan)
    × (fail_scan_attempt second_scan first_active reset true 60 ≡ second_scan)
    × (get_scan_attempt_count second_scan ≡ 2)
superseded_lem_example =
    superseded_lem public_scan second_scan (begin 1 0 10 ∷ []) second_active first_active 1 50 11 60
      reset true refl second_begun refl
