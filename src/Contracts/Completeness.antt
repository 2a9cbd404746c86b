-- ===== src/Contracts/Completeness.antt =====
-- packages/contracts/src/scan-completeness.ts: which analyses of a scan are complete, and which
-- findings of two scans may therefore be compared.
pub mod Comparing
pub mod Tests
use text.Mathlib.Text.{starts_with}
use Prim.Native.String
use webprobe.Base.{
  ℕ, zero, suc, String, Bool, true, false, not, ◌&&◌, ◌||◌, Option, none, some, if◌then◌else◌, ◌==◌,
  string_key, Key, key_of_discrete,
}
use webprobe.Base.Value.{Value, string, property}

pub data ScannerV2Analyzer : Type 0 where
  crawl network performance seo : ScannerV2Analyzer

pub data AnalyzerStatus : Type 0 where
  complete partial unavailable : AnalyzerStatus

unfoldable pub ScannerV2Analyzer-discrete : Discrete ScannerV2Analyzer
ScannerV2Analyzer-discrete = hlevel

unfoldable pub AnalyzerStatus-discrete : Discrete AnalyzerStatus
AnalyzerStatus-discrete = hlevel

instance abbrev pub analyzer_key : Key ScannerV2Analyzer
analyzer_key = key_of_discrete ScannerV2Analyzer-discrete

instance abbrev pub analyzer_status_key : Key AnalyzerStatus
analyzer_status_key = key_of_discrete AnalyzerStatus-discrete

unfoldable pub analyzer_for_finding_code : String → Option ScannerV2Analyzer
analyzer_for_finding_code code =
    if starts_with code "network."
    then some network
    else if starts_with code "performance."
    then some performance
    else if starts_with code "seo."
    then some seo
    else if starts_with code "broken-link."
        || starts_with code "javascript."
        || starts_with code "accessibility."
    then some crawl
    else none

-- The key of an analyzer in the summary.
abbrev pub analyzer_name : ScannerV2Analyzer → String
analyzer_name crawl = "crawl"
analyzer_name network = "network"
analyzer_name performance = "performance"
analyzer_name seo = "seo"

abbrev pub status_of_text : String → Option AnalyzerStatus
status_of_text s =
    if s == "complete"
    then some complete
    else if s == "partial"
    then some partial
    else if s == "unavailable"
    then some unavailable
    else none

abbrev pub status_of_value : Option Value → Option AnalyzerStatus
status_of_value (some (string s)) = status_of_text s
status_of_value _ = none

-- `summary.scannerV2.completeness[analyzer]`; on the way, what is no object ends it.
abbrev pub completeness_entry : Option Value → ScannerV2Analyzer → Option Value
completeness_entry summary analyzer =
    property (analyzer_name analyzer) (property "completeness" (property "scannerV2" summary))

unfoldable pub analyzer_status_from_summary :
    Option Value → ScannerV2Analyzer → Option AnalyzerStatus
analyzer_status_from_summary summary analyzer =
    status_of_value (property "status" (completeness_entry summary analyzer))

-- `slice(0, n)`, over a text whose characters are one unit each.
abbrev pub take_chars : ℕ → String → String
take_chars zero s = ""
take_chars (suc n) String.[] = ""
take_chars (suc n) (String.◌∷◌ c s) = String.◌∷◌ c (take_chars n s)

abbrev pub version_of_value : Option Value → String
version_of_value (some (string s)) = take_chars 32 s
version_of_value _ = "1.0.0"

pub performance_metric_version : Option Value → String
performance_metric_version summary =
    version_of_value
      (property "metricVersion" (property "performance" (property "scannerV2" summary)))

unfoldable pub performance_metrics_comparable : Option Value → Option Value → Bool
performance_metrics_comparable current previous =
    performance_metric_version current == performance_metric_version previous

abbrev pub is_complete : Option Value → ScannerV2Analyzer → Bool
is_complete summary analyzer = elim (analyzer_status_from_summary summary analyzer) [
  | some complete ↦ true
  | _ ↦ false
]

pub can_resolve_finding : String → Option Value → Option Value → Bool
can_resolve_finding code current previous = elim (analyzer_for_finding_code code) [
  | none ↦ true
  | some analyzer ↦
      if analyzer == performance && not (performance_metrics_comparable current previous)
      then false
      else is_complete current analyzer
]

pub can_compare_new_finding : Option Value → String → Bool
can_compare_new_finding previous code = elim (analyzer_for_finding_code code) [
  | none ↦ true
  | some analyzer ↦ is_complete previous analyzer
]

unfoldable pub can_compare_missing_finding : String → Option Value → Option Value → Bool
can_compare_missing_finding code current previous = elim (analyzer_for_finding_code code) [
  | none ↦ true
  | some analyzer ↦
      if analyzer == performance && not (performance_metrics_comparable current previous)
      then false
      else is_complete current analyzer && is_complete previous analyzer
]
