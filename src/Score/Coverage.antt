-- ===== src/Score/Coverage.antt =====
-- apps/web/src/lib/report-score/coverage.ts and security-http-penalty.ts: what of a scan's summary was
-- observed, category by category.
use webprobe.Base.{
  ℕ, ◌+◌, String, Bool, true, false, not, ◌&&◌, ◌||◌, Option, none, some, List, [], ◌∷◌, map,
  if◌then◌else◌, ◌==◌, string_key, eqb, length, filter, min, find,
}
use webprobe.Base.Text.{Text, codes, to_lower}
use webprobe.Base.Value.{Value, nat, bool, string, number, array, property, to_list}
use webprobe.Contracts.Completeness.{
  ScannerV2Analyzer, crawl, AnalyzerStatus, complete, partial, unavailable,
  analyzer_status_from_summary, completeness_entry,
}
use webprobe.Score.Types.{
  ReportScoreCoverage, CategoryKey, security_http, security_web, performance, seo, accessibility,
  network,
}

abbrev pub finite_nonnegative_integer : Option Value → Option ℕ
finite_nonnegative_integer (some (number (nat n))) = some n
finite_nonnegative_integer _ = none

abbrev pub covered : AnalyzerStatus → Option String → ReportScoreCoverage
covered status reason = record {
  status = status;
  observed_count = none;
  eligible_count = none;
  reason = reason;
}

unfoldable pub scanner_coverage : Option Value → ScannerV2Analyzer → ReportScoreCoverage
scanner_coverage summary analyzer = elim (analyzer_status_from_summary summary analyzer) [
  | none ↦ covered unavailable (some "scanner-v2-completeness-missing")
  | some status ↦ record {
    status = status;
    observed_count =
        finite_nonnegative_integer
          (property "observedPageCount" (completeness_entry summary analyzer));
    eligible_count =
        finite_nonnegative_integer
          (property "eligiblePageCount" (completeness_entry summary analyzer));
    reason = none;
  }
]

-- `value === true`
abbrev pub is_true : Option Value → Bool
is_true (some (bool b)) = b
is_true _ = false

-- `typeof value === "boolean"`
abbrev pub is_boolean : Option Value → Bool
is_boolean (some (bool b)) = true
is_boolean _ = false

abbrev pub elements_of : Option Value → Option (List Value)
elements_of (some (array vs)) = some (to_list vs)
elements_of _ = none

-- `record(record(summary)?.http)`; a later `property` reads nothing from what is no object.
abbrev pub http_probe : Option Value → Option Value
http_probe summary = property "http" summary

-- `record(entry)?.expected === true`
abbrev is_expected : Value → Bool
is_expected v = is_true (property "expected" (some v))

unfoldable pub security_http_coverage : Option Value → ReportScoreCoverage
security_http_coverage summary =
    if is_true (property "ok" (http_probe summary))
    then elim (elements_of (property "securityHeaders" (http_probe summary))) [
      | none ↦ covered unavailable (some "http-security-probe-unavailable")
      | some headers ↦
          if eqb (length (filter is_expected headers)) 0
          then covered unavailable (some "http-security-controls-unavailable")
          else covered complete none
    ]
    else covered unavailable (some "http-security-probe-unavailable")

-- `typeof value === "string" && value.length > 0`
abbrev is_nonempty_text : Option Value → Bool
is_nonempty_text (some (string s)) = not (s == "")
is_nonempty_text _ = false

unfoldable pub security_web_coverage : Option Value → ReportScoreCoverage
security_web_coverage summary =
    if is_true (property "ok" (http_probe summary))
      && is_nonempty_text (property "protocol" (property "tls" (http_probe summary)))
    then covered complete none
    else covered unavailable (some "tls-observation-unavailable")

abbrev network_fallback : Option Value → ReportScoreCoverage → ReportScoreCoverage
network_fallback summary scanner =
    if is_boolean (property "ok" (http_probe summary))
    then covered partial (some "http-probe-only")
    else scanner

abbrev is_unavailable : AnalyzerStatus → Bool
is_unavailable unavailable = true
is_unavailable _ = false

unfoldable pub network_coverage : Option Value → ReportScoreCoverage
network_coverage summary =
    let scanner = scanner_coverage summary ScannerV2Analyzer.network in
    if not (is_unavailable scanner.status) then scanner else network_fallback summary scanner

unfoldable pub coverage_for_category : Option Value → CategoryKey → ReportScoreCoverage
coverage_for_category summary security_http = security_http_coverage summary
coverage_for_category summary security_web = security_web_coverage summary
coverage_for_category summary performance = scanner_coverage summary ScannerV2Analyzer.performance
coverage_for_category summary seo = scanner_coverage summary ScannerV2Analyzer.seo
coverage_for_category summary accessibility = scanner_coverage summary crawl
coverage_for_category summary network = network_coverage summary

-- `hay.startsWith(needle)` and `hay.includes(needle)`
abbrev begins : Text → Text → Bool
begins [] hay = true
begins (c ∷ needle) [] = false
begins (c ∷ needle) (d ∷ hay) = eqb c d && begins needle hay

pub includes : Text → Text → Bool
includes needle [] = begins needle []
includes needle (d ∷ hay) = begins needle (d ∷ hay) || includes needle hay

abbrev text_of : Option Value → Option String
text_of (some (string s)) = some s
text_of _ = none

abbrev is_csp : Value → Bool
is_csp v = elim (text_of (property "name" (some v))) [
  | none ↦ false
  | some name ↦
      name == "content-security-policy"
      && is_true (property "present" (some v))
      && (elim (text_of (property "value" (some v))) [ none ↦ false | some _ ↦ true ])
]

abbrev penalty_of_text : Text → ℕ
penalty_of_text value = min 8 (
    (if includes (codes "'unsafe-inline'") value then 4 else 0)
    + (if includes (codes "'unsafe-eval'") value then 4 else 0))

-- `toLowerCase` maps no other text onto the two ASCII literals.
unfoldable pub security_http_configuration_penalty : Option Value → ℕ
security_http_configuration_penalty summary =
    elim (elements_of (property "securityHeaders" (http_probe summary))) [
      | none ↦ 0
      | some headers ↦ elim (find is_csp headers) [
        | none ↦ 0
        | some csp ↦ elim (text_of (property "value" (some csp))) [
          | none ↦ 0
          | some value ↦ penalty_of_text (map to_lower (codes value))
        ]
      ]
    ]
