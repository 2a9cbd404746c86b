-- ===== src/DeepLease/Outside/Writes.antt =====
-- The writes from outside leave the attempts' ids and numbers and start none.
use webprobe.Base.{
  ℕ, String, refl, inl, inr, not, ◌&&◌, ◌||◌, Option, none, some, eqb, Bool-cases, ◌==◌,
}
use webprobe.ScanEngine.Types.{verified_deep_audit, mode_key}
use webprobe.DeepLease.Rows.{
  Attempt, Database, change, is_running, is_retrying, is_deep_running, latest,
}
use webprobe.DeepLease.Attempts.{IsTame, change-IsTame}
use webprobe.DeepLease.Writes.{IsWrite, unchanged-IsWrite}
use webprobe.DeepLease.Outside.{
  fence_at, fence_running_deep_attempts, ScheduledJobState, Verdict, not_known, still_pending,
  stale, verdict, StaleOutcome, stale_failed, stale_pending, inspection_failed, latest_has_lease,
  close_stale, close_latest, end_stale, reconcile_stale_deep_scan,
}

fence_at-IsTame : (now : ℕ) → IsTame (fence_at now)
fence_at-IsTame now = record {
  same_id = λ a. refl;
  same_number = λ a. refl;
  starts_none = λ a h. h;
}

pub fence-IsWrite :
    (db : Database) (site_id now : ℕ) → IsWrite db (fence_running_deep_attempts db site_id now)
unfolding fence_running_deep_attempts IsWrite
fence-IsWrite db site_id now =
    elim (Bool-cases (eqb db.scan.site_id site_id && db.scan.mode == verified_deep_audit)) [
      | inl ours ↦ (
        change (λ a. is_running a.status) (fence_at now),
        change-IsTame (λ a. is_running a.status) (fence_at now) (fence_at-IsTame now),
        rw ours refl,
      )
      | inr other ↦
          unchanged-IsWrite db (fence_running_deep_attempts db site_id now) (rw other refl)
    ]

close_stale-IsTame : (code : String) (now : ℕ) → IsTame (close_stale code now)
close_stale-IsTame code now = record {
  same_id = λ a. refl;
  same_number = λ a. refl;
  starts_none = λ a h. refl;
}

close_latest-IsWrite :
    (db : Database) (code : String) (now ended : ℕ) (read : Option Attempt)
    → IsWrite db (end_stale (close_latest db code now read) code ended)
unfolding close_latest end_stale IsWrite
close_latest-IsWrite db code now ended none =
    unchanged-IsWrite db (end_stale (close_latest db code now none) code ended) refl
close_latest-IsWrite db code now ended (some read) =
    elim (Bool-cases (is_running read.status || is_retrying read.status)) [
      | inl open_ ↦ (
        change (λ a. eqb a.id read.id) (close_stale code now),
        change-IsTame (λ a. eqb a.id read.id) (close_stale code now) (close_stale-IsTame code now),
        rw open_ refl,
      )
      | inr over ↦
          unchanged-IsWrite db (end_stale (close_latest db code now (some read)) code ended)
            (rw over refl)
    ]

pub reconcile-IsWrite :
    (db : Database) (scan_id : ℕ) (inspection : ScheduledJobState) (now closed ended : ℕ)
    → IsWrite db (reconcile_stale_deep_scan db scan_id inspection now closed ended).1
unfolding reconcile_stale_deep_scan
reconcile-IsWrite db scan_id inspection now closed ended =
    let read = latest db.attempts in
    elim (Bool-cases
      (not (eqb db.scan.id scan_id && is_deep_running db.scan) || latest_has_lease read now)) [
        | inl stays ↦
            unchanged-IsWrite db
              (reconcile_stale_deep_scan db scan_id inspection now closed ended).1 (rw stays refl)
        | inr goes ↦ rw goes (by_verdict (verdict inspection))
      ]
  where
    by_verdict :
        (v : Verdict)
        → IsWrite db
            (elim v as (λ x. StaleOutcome × Database) [
              | not_known ↦ (inspection_failed, db)
              | still_pending ↦ (stale_pending, db)
              | stale code ↦ (
                stale_failed,
                end_stale (close_latest db code closed (latest db.attempts)) code ended,
              )
            ]).1
    by_verdict not_known = unchanged-IsWrite db db refl
    by_verdict still_pending = unchanged-IsWrite db db refl
    by_verdict (stale code) = close_latest-IsWrite db code closed ended (latest db.attempts)
