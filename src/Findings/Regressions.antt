-- ===== src/Findings/Regressions.antt =====
-- scan-comparison.ts beside scan-alerts.ts: what the comparison calls worse is alerted.
use webprobe.Base.{
  ◌≤◌, ◌≡◌, refl, sym, ◌∙◌, inl, inr, String, true, false, not, ◌&&◌, Option, none, some, List, [],
  ◌∷◌, ◌++◌, map, any, ltb, leb, arith, Bool-cases, Option-cases, string_key, get, put, get-put,
  ◌==◌,
}
use webprobe.Base.Value.{Value, is_some}
use text.Mathlib.Text.{starts_with}
use webprobe.Score.Types.{Severity}
use webprobe.Contracts.Completeness.{performance_metrics_comparable, can_compare_missing_finding}
use webprobe.Contracts.Completeness.Comparing.{compare_missing_iff}
use webprobe.Findings.Comparison.{
  ComparableFinding, CurrentFindingChange, new_finding, worsened, improved, unchanged,
  by_fingerprint, change_of, change_from, compare_scan_findings, severity_rank, fill_map,
}
use webprobe.Findings.Alerts.{
  GeneratedFinding, PreviousFindingSnapshot, degradation, degradation_of, detect_in,
  detect_scan_degradations, minimum_alert_rank,
}
use webprobe.Findings.Changes.{has_fingerprint, changes_lem}

-- The row that is stored of a finding, and what the alerts read of one.
abbrev pub stored : GeneratedFinding → ComparableFinding
stored f = record {
  fingerprint = f.fingerprint;
  severity = f.severity;
  code = f.code;
  title = f.title;
  page_url = some f.page_url;
}

abbrev pub snapshot : ComparableFinding → PreviousFindingSnapshot
snapshot f = record { fingerprint = f.fingerprint; severity = f.severity }

abbrev pub severity_of : Option ComparableFinding → Option Severity
severity_of none = none
severity_of (some f) = some f.severity

get-fill_map :
    (k : String) (previous : List ComparableFinding) (ms : List (String × Severity))
    (m : List (String × ComparableFinding))
    → get k ms ≡ severity_of (get k m)
    → get k (fill_map (λ f. f.fingerprint) (λ f. f.severity) ms (map snapshot previous))
      ≡ severity_of (get k (fill_map (λ f. f.fingerprint) (λ f. f) m previous))
unfolding fill_map
get-fill_map k [] ms m h = h
get-fill_map k (f ∷ rest) ms m h =
    get-fill_map k rest (put f.fingerprint f.severity ms) (put f.fingerprint f m)
      (elim (Bool-cases (f.fingerprint == k)) [
        | inl same ↦
            rw (get-put f.fingerprint k f.severity ms, get-put f.fingerprint k f m, same) refl
        | inr differ ↦
            rw (get-put f.fingerprint k f.severity ms, get-put f.fingerprint k f m, differ) h
      ])

-- A change for the worse, with the severity that it had.
abbrev pub worse_from : CurrentFindingChange → Option (Option Severity)
worse_from new_finding = some none
worse_from (worsened s) = some (some s)
worse_from (improved _) = none
worse_from (unchanged _) = none

detect-append :
    (previous : List (String × Severity)) (summary : Option Value)
    (earlier later : List GeneratedFinding)
    → detect_in previous summary (earlier ++ later)
      ≡ detect_in previous summary earlier ++ detect_in previous summary later
unfolding detect_in
detect-append previous summary [] later = refl
detect-append previous summary (f ∷ rest) later =
    elim (Option-cases (degradation_of previous summary f)) [
      | inl none_ ↦ rw (none_, detect-append previous summary rest later) refl
      | inr (d, one) ↦ rw (one, detect-append previous summary rest later) refl
    ]

any-stored :
    (k : String) (rest : List GeneratedFinding)
    → has_fingerprint k (map stored rest) ≡ any (λ f. f.fingerprint == k) rest
any-stored k [] = refl
any-stored k (f ∷ rest) = rw (any-stored k rest) refl

change_from-worse :
    (severity prior : Severity) (s : Option Severity)
    → worse_from (change_from severity prior) ≡ some s
    → (s ≡ some prior) × (leb (severity_rank severity) (severity_rank prior) ≡ false)
change_from-worse severity prior s h =
    elim (Bool-cases (ltb (severity_rank prior) (severity_rank severity))) [
      | inl over ↦ (ground (arith, rw over at h), ground (arith, over))
      | inr under ↦ elim (Bool-cases (ltb (severity_rank severity) (severity_rank prior))) [
        | inl less ↦ ground (arith, rw (under, less) at h)
        | inr same ↦ ground (arith, rw (under, same) at h)
      ]
    ]

new-degradation_of :
    (m : List (String × Severity)) (f : GeneratedFinding) (now before : Option Value)
    → get f.fingerprint m ≡ none
    → can_compare_missing_finding f.code now before ≡ true
    → minimum_alert_rank ≤ severity_rank f.severity
    → degradation_of m before f ≡ some (degradation f none)
unfolding degradation_of
new-degradation_of m f now before absent comparable major =
    let high : ltb (severity_rank f.severity) minimum_alert_rank ≡ false = ground arith in
    let new_too = ((compare_missing_iff f.code now before).0 comparable).1 in
    elim (Bool-cases (is_some before)) [
      | inl given ↦ rw (high, absent, given, new_too) refl
      | inr missing ↦ rw (high, absent, missing) refl
    ]

worsened-degradation_of :
    (m : List (String × Severity)) (f : GeneratedFinding) (before : Option Value) (prior : Severity)
    → get f.fingerprint m ≡ some prior
    → leb (severity_rank f.severity) (severity_rank prior) ≡ false
    → minimum_alert_rank ≤ severity_rank f.severity
    → degradation_of m before f ≡ some (degradation f (some prior))
unfolding degradation_of
worsened-degradation_of m f before prior there over major =
    let high : ltb (severity_rank f.severity) minimum_alert_rank ≡ false = ground arith in
    rw (high, there, over) refl

-- One finding, in the comparison and among the alerts.
worse-degradation_of :
    (p : List (String × ComparableFinding)) (m : List (String × Severity)) (f : GeneratedFinding)
    (now before : Option Value) (change : CurrentFindingChange) (s : Option Severity)
    → get f.fingerprint m ≡ severity_of (get f.fingerprint p)
    → change_of p now before (stored f) ≡ some change
    → worse_from change ≡ some s
    → minimum_alert_rank ≤ severity_rank f.severity
    → degradation_of m before f ≡ some (degradation f s)
unfolding change_of
worse-degradation_of p m f now before change s same changed worse major =
    elim (Bool-cases
      (starts_with f.code "performance." && not (performance_metrics_comparable now before))) [
        | inl skipped ↦ ground (arith, rw skipped at changed)
        | inr seen ↦ elim (Option-cases (get f.fingerprint p)) [
          | inl absent ↦ elim (Bool-cases (can_compare_missing_finding f.code now before)) [
            | inr skipped ↦ ground (arith, rw (seen, absent, skipped) at changed)
            | inl comparable ↦
                let is_new : some new_finding ≡ some change =
                  cc (rw (seen, absent, comparable) at changed) in
                let s_none : s ≡ none = ground (arith, is_new, worse) in
                rw s_none
                  (new-degradation_of m f now before (cc (rw absent at same)) comparable major)
          ]
          | inr (prior, there) ↦
              let is_from : some (change_from f.severity prior.severity) ≡ some change =
                cc (rw (seen, there) at changed) in
              let from_change : change_from f.severity prior.severity ≡ change =
                ground (arith, is_from) in
              let worse_too = rw (← from_change) at worse in
              let facts = change_from-worse f.severity prior.severity s worse_too in
              rw facts.0 (
                worsened-degradation_of m f before prior.severity (cc (rw there at same)) facts.1
                  major)
        ]
      ]

map-stored :
    (earlier later : List GeneratedFinding) (f : GeneratedFinding)
    → map stored (earlier ++ f ∷ later) ≡ map stored earlier ++ stored f ∷ map stored later
map-stored [] later f = refl
map-stored (g ∷ rest) later f = rw (map-stored rest later f) refl

-- If the comparison of two scans calls a finding new or worse whose fingerprint no other finding
-- of the scan has, and the finding is of medium severity or above, then the alerts, against the
-- same previous findings and summary, report it with its previous severity, at its place.
pub worse_is_alerted :
    (earlier later : List GeneratedFinding) (f : GeneratedFinding)
    (previous : List ComparableFinding) (now before : Option Value) (change : CurrentFindingChange)
    (s : Option Severity)
    → any (λ g. g.fingerprint == f.fingerprint) earlier ≡ false
    → any (λ g. g.fingerprint == f.fingerprint) later ≡ false
    → get f.fingerprint
        (compare_scan_findings
          (map stored (earlier ++ f ∷ later))
          previous
          now
          before).changes_by_fingerprint
      ≡ some change
    → worse_from change ≡ some s
    → minimum_alert_rank ≤ severity_rank f.severity
    → detect_scan_degradations (earlier ++ f ∷ later) (map snapshot previous) before
      ≡ detect_scan_degradations earlier (map snapshot previous) before
        ++ degradation f s ∷ detect_scan_degradations later (map snapshot previous) before
unfolding detect_scan_degradations detect_in get
worse_is_alerted earlier later f previous now before change s he hl changed worse major =
    let p = by_fingerprint previous in
    let m =
      fill_map (λ (g : PreviousFindingSnapshot). g.fingerprint)
        (λ (g : PreviousFindingSnapshot). g.severity) [] (map snapshot previous) in
    let own : change_of p now before (stored f) ≡ some change =
      sym (
        changes_lem (map stored earlier) (map stored later) previous (stored f) now before
          (any-stored f.fingerprint earlier ∙ he) (any-stored f.fingerprint later ∙ hl))
      ∙ (rw (← map-stored earlier later f) changed) in
    let alerted : degradation_of m before f ≡ some (degradation f s) =
      worse-degradation_of p m f now before change s
        (get-fill_map f.fingerprint previous [] [] refl) own worse major in
    detect-append m before earlier (f ∷ later) ∙ (rw alerted refl)
