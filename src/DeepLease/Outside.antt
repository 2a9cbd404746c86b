-- ===== src/DeepLease/Outside.antt =====
-- The code that changes the attempts of a deep scan without a lease: fenceRunningDeepAttempts of
-- apps/web/src/lib/deep-audit-grants.ts, when a grant changes or is revoked, and
-- reconcileStaleDeepScan of apps/worker/src/scan-scheduler.ts.
pub mod Writes
use webprobe.Base.{
  ℕ, String, Bool, true, false, not, ◌&&◌, ◌||◌, Option, none, some, eqb, ltb, if◌then◌else◌, ◌==◌,
}
use webprobe.ScanEngine.Types.{verified_deep_audit, mode_key}
use webprobe.DeepLease.Rows.{
  Attempt, failed, scan_failed, Database, is_running, is_retrying, is_deep_running, latest, update,
}

abbrev pub fence_at : ℕ → Attempt → Attempt
fence_at now a = record a { lease_until = some now }

-- On the one scan of the database, if it is a deep scan of the site.
unfoldable pub fence_running_deep_attempts : Database → ℕ → ℕ → Database
fence_running_deep_attempts db site_id now =
    if eqb db.scan.site_id site_id && db.scan.mode == verified_deep_audit
    then update (λ a. is_running a.status) (fence_at now) db
    else db

-- `ScheduledJobState`: whether there is a job, or its state.
pub data ScheduledJobState : Type 0 where
  is_present : Bool → ScheduledJobState
  missing waiting active delayed prioritized waiting_children completed failed_job unknown :
      ScheduledJobState

pub data StaleOutcome : Type 0 where
  stale_failed stale_pending inspection_failed : StaleOutcome

-- What an inspection says of the job: it stands for nothing known, it waits, or the scan is stale
-- for the reason of a code.
pub data Verdict : Type 0 where
  not_known still_pending : Verdict
  stale : String → Verdict

unfoldable pub verdict : ScheduledJobState → Verdict
verdict (is_present true) = not_known
verdict (is_present false) = stale "deep-worker-job-missing"
verdict unknown = not_known
verdict waiting = still_pending
verdict delayed = still_pending
verdict prioritized = still_pending
verdict waiting_children = still_pending
verdict failed_job = stale "deep-worker-job-failed"
verdict completed = stale "deep-worker-job-completed-with-running-scan"
verdict active = stale "deep-worker-lease-expired"
verdict missing = stale "deep-worker-job-missing"

-- A current lease: `lease_until > clock_timestamp()`, and not null.
abbrev pub has_lease : Attempt → ℕ → Bool
has_lease a now = is_running a.status && (elim a.lease_until [ none ↦ false | some t ↦ ltb now t ])

abbrev pub latest_has_lease : Option Attempt → ℕ → Bool
latest_has_lease none now = false
latest_has_lease (some a) now = has_lease a now

abbrev pub close_stale : String → ℕ → Attempt → Attempt
close_stale code now a = record a {
  status = failed;
  retryable = false;
  error_code = some code;
  completed_at = some now;
  lease_until = none;
}

-- The update of the latest attempt, if it runs or is to be retried.
unfoldable pub close_latest : Database → String → ℕ → Option Attempt → Database
close_latest db code now none = db
close_latest db code now (some read) =
    if is_running read.status || is_retrying read.status
    then update (λ a. eqb a.id read.id) (close_stale code now) db
    else db

unfoldable pub end_stale : Database → String → ℕ → Database
end_stale db code now = record db {
  scan = record db.scan { status = scan_failed; completed_at = some now; deep_error = some code };
}

-- Three clock readings: of the lease, and of the two updates. The row of the scan is locked, so the
-- last update finds it as it was read.
unfoldable pub reconcile_stale_deep_scan :
    Database → ℕ → ScheduledJobState → ℕ → ℕ → ℕ → StaleOutcome × Database
reconcile_stale_deep_scan db scan_id inspection now closed ended =
    let read = latest db.attempts in
    if not (eqb db.scan.id scan_id && is_deep_running db.scan) || latest_has_lease read now
    then (stale_pending, db)
    else elim (verdict inspection) [
      | not_known ↦ (inspection_failed, db)
      | still_pending ↦ (stale_pending, db)
      | stale code ↦ (stale_failed, end_stale (close_latest db code closed read) code ended)
    ]
