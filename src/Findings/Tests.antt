-- ===== src/Findings/Tests.antt =====
-- Witnesses of the comparison of two scans and of its alerts.
use webprobe.Base.{
  string_key, put, get, ◌≡◌, refl, some, List, [], ◌∷◌, ◌++◌, map, length, filter, put, get, arith,
}
use webprobe.Score.Types.{low, medium, high}
use webprobe.Contracts.Completeness.Tests.{seo_summary}
use webprobe.Contracts.Completeness.{analyzer_for_finding_code, can_compare_missing_finding}
use webprobe.Findings.Comparison.{
  ComparableFinding, ScanComparison, worsened, compare_scan_findings, compare_current, change_of,
  fill_map,
}
use webprobe.Findings.Alerts.{GeneratedFinding, degradation, detect_scan_degradations}
use webprobe.Findings.Counts.{Agrees, is_gone, counts_lem}
use webprobe.Findings.Regressions.{stored, snapshot, worse_is_alerted}

abbrev header_finding : GeneratedFinding
header_finding = record {
  fingerprint = "h";
  severity = high;
  code = "security.header";
  title = "Header";
  page_url = "/";
}

abbrev cookie_finding : GeneratedFinding
cookie_finding = record {
  fingerprint = "c";
  severity = medium;
  code = "security.cookie";
  title = "Cookie";
  page_url = "/";
}

abbrev older : List ComparableFinding
older = record (stored header_finding) { severity = low } ∷ []

header_worsened :
    get "h"
      (compare_scan_findings
        (map stored (cookie_finding ∷ header_finding ∷ []))
        older
        (some seo_summary)
        (some seo_summary)).changes_by_fingerprint
    ≡ some (worsened low)
unfolding compare_scan_findings compare_current change_of fill_map put get analyzer_for_finding_code
    can_compare_missing_finding
header_worsened = refl

worse_is_alerted_example :
    detect_scan_degradations
      (cookie_finding ∷ header_finding ∷ [])
      (map snapshot older)
      (some seo_summary)
    ≡ detect_scan_degradations (cookie_finding ∷ []) (map snapshot older) (some seo_summary)
      ++ degradation header_finding (some low)
        ∷ detect_scan_degradations [] (map snapshot older) (some seo_summary)
worse_is_alerted_example =
    worse_is_alerted (cookie_finding ∷ []) [] header_finding older (some seo_summary)
      (some seo_summary) (worsened low) (some low) refl refl header_worsened refl (omega arith)

abbrev comparison : ScanComparison
comparison =
    compare_scan_findings (map stored (cookie_finding ∷ header_finding ∷ [])) older
      (some seo_summary) (some seo_summary)

counts_lem_example :
    Agrees (comparison.changes_by_fingerprint, comparison.counts)
    × (comparison.resolved_findings
        ≡ filter
            (is_gone
              (map stored (cookie_finding ∷ header_finding ∷ []))
              (some seo_summary)
              (some seo_summary))
            older)
    × (comparison.counts.resolved_count
        ≡ length (
            filter
              (is_gone
                (map stored (cookie_finding ∷ header_finding ∷ []))
                (some seo_summary)
                (some seo_summary))
              older))
counts_lem_example =
    counts_lem (map stored (cookie_finding ∷ header_finding ∷ [])) older (some seo_summary)
      (some seo_summary) (refl, (refl, tt))
