-- ===== src/Contracts/Completeness/Tests.antt =====
-- The summary of a scan.
use webprobe.Base.Value.{Value, no_entry, entry, object, string}

abbrev pub seo_summary : Value
seo_summary = object (
    entry "scannerV2"
      (object (
        entry "completeness"
          (object (entry "seo" (object (entry "status" (string "complete") no_entry)) no_entry))
          no_entry))
      no_entry)
