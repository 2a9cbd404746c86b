-- ===== src/Score/Report/Tests.antt =====
-- Witnesses and runs of the score of a report.
use webprobe.Base.{◌≡◌, refl, String, true, some, [], All, string_key}
use webprobe.Base.Value.{Value, no_entry, entry, object, bool, string, array, element, no_element}
use webprobe.Contracts.Completeness.{
  ScannerV2Analyzer-discrete, AnalyzerStatus-discrete, analyzer_status_from_summary,
}
use webprobe.Score.Types.{CategoryKey-discrete, grade_a, grade_for_score}
use webprobe.Score.Report.{
  score_report, score_of_categories, score_categories, total_weight, weighted_total,
  overall_coverage_cap, findings_for_category,
}
use webprobe.Score.Category.{
  score_report_category, category_score, effective_coverage, coverage_cap, finding_penalty,
  grouped_by_code, group_from, total_penalty,
}
use webprobe.Score.Coverage.{
  coverage_for_category, security_http_coverage, security_web_coverage, network_coverage,
  scanner_coverage, security_http_configuration_penalty,
}
use webprobe.Score.Report.Grade.{IsComplete, score_report-grade_a}

abbrev one : String → Value → Value
one k v = object (entry k v no_entry)

abbrev done : Value
done = one "status" (string "complete")

-- A summary in which everything was analysed.
abbrev full_summary : Value
full_summary = object (
    entry "http"
      (object (
        entry "ok" (bool true) (
          entry "tls" (one "protocol" (string "TLSv1.3")) (
            entry "securityHeaders" (array (element (one "expected" (bool true)) no_element))
              no_entry))))
      (entry "scannerV2"
        (one "completeness" (
          object (
            entry "crawl" done
              (entry "network" done (entry "performance" done (entry "seo" done no_entry))))))
        no_entry))

full_score : (score_report (some full_summary) []).grade ≡ some grade_a
unfolding CategoryKey-discrete ScannerV2Analyzer-discrete AnalyzerStatus-discrete score_report
    score_of_categories score_categories total_weight weighted_total overall_coverage_cap
    score_report_category category_score effective_coverage coverage_cap finding_penalty
    grouped_by_code group_from total_penalty findings_for_category coverage_for_category
    security_http_coverage security_web_coverage network_coverage scanner_coverage
    analyzer_status_from_summary security_http_configuration_penalty grade_for_score
full_score = refl

score_report-grade_a_example : All IsComplete (score_report (some full_summary) []).categories
score_report-grade_a_example = score_report-grade_a (some full_summary) [] full_score
