-- ===== src/Findings/Comparison.antt =====
-- apps/web/src/lib/scan-comparison.ts: the changes from one scan to the next.
use text.Mathlib.Text.{starts_with}
use webprobe.Base.{
  ℕ, suc, String, Bool, not, ◌&&◌, Option, none, some, List, [], ◌∷◌, length, filter, if◌then◌else◌,
  ltb, string_key, put, get, add, contains,
}
use webprobe.Base.Value.{Value}
use webprobe.Score.Types.{Severity, info, low, medium, high, critical}
use webprobe.Contracts.Completeness.{performance_metrics_comparable, can_compare_missing_finding}

pub record ComparableFinding : Type 0 where
  pub fingerprint : String
  pub severity : Severity
  pub code : String
  pub title : String
  pub page_url : Option String

-- `change` with its `previousSeverity`
pub data CurrentFindingChange : Type 0 where
  new_finding : CurrentFindingChange
  worsened improved unchanged : Severity → CurrentFindingChange

pub record Counts : Type 0 where
  pub new_count : ℕ
  pub worsened_count : ℕ
  pub improved_count : ℕ
  pub unchanged_count : ℕ
  pub resolved_count : ℕ

pub record ScanComparison : Type 0 where
  pub performance_comparable : Bool
  pub changes_by_fingerprint : List (String × CurrentFindingChange)
  pub resolved_findings : List ComparableFinding
  pub counts : Counts

abbrev pub severity_rank : Severity → ℕ
severity_rank info = 0
severity_rank low = 1
severity_rank medium = 2
severity_rank high = 3
severity_rank critical = 4

-- `new Map(list.map((a) => [key(a), value(a)]))`, on what a map already holds.
unfoldable pub fill_map {ℓ κ} :
    {A : Type ℓ} {V : Type κ}
    → (A → String)
    → (A → V)
    → List (String × V)
    → List A
    → List (String × V)
fill_map key value m [] = m
fill_map key value m (a ∷ rest) = fill_map key value (put (key a) (value a) m) rest

abbrev pub by_fingerprint : List ComparableFinding → List (String × ComparableFinding)
by_fingerprint previous = fill_map (λ f. f.fingerprint) (λ f. f) [] previous

-- A finding that stands in both scans.
abbrev pub change_from : Severity → Severity → CurrentFindingChange
change_from severity prior =
    if ltb (severity_rank prior) (severity_rank severity)
    then worsened prior
    else if ltb (severity_rank severity) (severity_rank prior)
    then improved prior
    else unchanged prior

-- The change of a finding of the current scan; nothing where the loop goes on without one.
unfoldable pub change_of :
    List (String × ComparableFinding)
    → Option Value
    → Option Value
    → ComparableFinding
    → Option CurrentFindingChange
change_of previous now before finding =
    if starts_with finding.code "performance." && not (performance_metrics_comparable now before)
    then none
    else (elim (get finding.fingerprint previous) [
      | none ↦
          if not (can_compare_missing_finding finding.code now before)
          then none
          else some new_finding
      | some prior ↦ some (change_from finding.severity prior.severity)
    ])

abbrev pub no_counts : Counts
no_counts = record {
  new_count = 0;
  worsened_count = 0;
  improved_count = 0;
  unchanged_count = 0;
  resolved_count = 0;
}

abbrev pub count : CurrentFindingChange → Counts → Counts
count new_finding c = record c { new_count = suc c.new_count }
count (worsened _) c = record c { worsened_count = suc c.worsened_count }
count (improved _) c = record c { improved_count = suc c.improved_count }
count (unchanged _) c = record c { unchanged_count = suc c.unchanged_count }

abbrev pub Changes : Type 0
Changes = List (String × CurrentFindingChange) × Counts

abbrev pub note_change : ComparableFinding → Option CurrentFindingChange → Changes → Changes
note_change finding none acc = acc
note_change finding (some change) acc = (put finding.fingerprint change acc.0, count change acc.1)

-- The loop over the current findings.
unfoldable pub compare_current :
    List (String × ComparableFinding)
    → Option Value
    → Option Value
    → List ComparableFinding
    → Changes
    → Changes
compare_current previous now before [] acc = acc
compare_current previous now before (f ∷ rest) acc =
    compare_current previous now before rest (note_change f (change_of previous now before f) acc)

abbrev pub fingerprints : List ComparableFinding → List String → List String
fingerprints [] seen = seen
fingerprints (f ∷ rest) seen = fingerprints rest (add f.fingerprint seen)

unfoldable pub resolved :
    List ComparableFinding
    → List ComparableFinding
    → Option Value
    → Option Value
    → List ComparableFinding
resolved current previous now before =
    let seen = fingerprints current [] in
    filter (λ f. not (contains f.fingerprint seen) && can_compare_missing_finding f.code now before)
      previous

unfoldable pub compare_scan_findings :
    List ComparableFinding → List ComparableFinding → Option Value → Option Value → ScanComparison
compare_scan_findings current previous now before =
    let changes = compare_current (by_fingerprint previous) now before current ([], no_counts) in
    let gone = resolved current previous now before in
    record {
      performance_comparable = performance_metrics_comparable now before;
      changes_by_fingerprint = changes.0;
      resolved_findings = gone;
      counts = record changes.1 { resolved_count = length gone };
    }
