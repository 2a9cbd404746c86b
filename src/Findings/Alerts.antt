-- ===== src/Findings/Alerts.antt =====
-- apps/worker/src/scan-alerts.ts: the findings of a scan that are alerted.
use webprobe.Base.{
  ℕ, String, not, ◌&&◌, Option, none, some, List, [], ◌∷◌, filter, if◌then◌else◌, ltb, leb,
  string_key, get,
}
use webprobe.Base.Value.{Value, is_some}
use webprobe.Score.Types.{Severity, medium}
use webprobe.Contracts.Completeness.{can_compare_new_finding}
use webprobe.Findings.Comparison.{severity_rank, fill_map}

-- Of a `GeneratedFinding` what the alerts read; the category is passed on and not used.
pub record GeneratedFinding : Type 0 where
  pub fingerprint : String
  pub severity : Severity
  pub code : String
  pub title : String
  pub page_url : String

pub record PreviousFindingSnapshot : Type 0 where
  pub fingerprint : String
  pub severity : Severity

-- `change` and `previousSeverity`: a new finding has no previous severity, a worsened one has.
pub record ScanDegradation : Type 0 where
  pub previous_severity : Option Severity
  pub fingerprint : String
  pub severity : Severity
  pub code : String
  pub title : String
  pub page_url : String

abbrev pub minimum_alert_rank : ℕ
minimum_alert_rank = severity_rank medium

abbrev pub degradation : GeneratedFinding → Option Severity → ScanDegradation
degradation f previous = record {
  previous_severity = previous;
  fingerprint = f.fingerprint;
  severity = f.severity;
  code = f.code;
  title = f.title;
  page_url = f.page_url;
}

-- One turn of the loop: what it pushes, if it pushes.
unfoldable pub degradation_of :
    List (String × Severity) → Option Value → GeneratedFinding → Option ScanDegradation
degradation_of previous summary f =
    if ltb (severity_rank f.severity) minimum_alert_rank
    then none
    else (elim (get f.fingerprint previous) [
      | none ↦
          if is_some summary && not (can_compare_new_finding summary f.code)
          then none
          else some (degradation f none)
      | some severity ↦
          if leb (severity_rank f.severity) (severity_rank severity)
          then none
          else some (degradation f (some severity))
    ])

abbrev pub push : Option ScanDegradation → List ScanDegradation → List ScanDegradation
push none rest = rest
push (some d) rest = d ∷ rest

unfoldable pub detect_in :
    List (String × Severity) → Option Value → List GeneratedFinding → List ScanDegradation
detect_in previous summary [] = []
detect_in previous summary (f ∷ rest) =
    push (degradation_of previous summary f) (detect_in previous summary rest)

unfoldable pub detect_scan_degradations :
    List GeneratedFinding → List PreviousFindingSnapshot → Option Value → List ScanDegradation
detect_scan_degradations current previous summary =
    detect_in (fill_map (λ f. f.fingerprint) (λ f. f.severity) [] previous) summary current

pub filter_degradations_by_minimum_severity : List ScanDegradation → Severity → List ScanDegradation
filter_degradations_by_minimum_severity degradations minimum =
    filter (λ d. leb (severity_rank minimum) (severity_rank d.severity)) degradations
