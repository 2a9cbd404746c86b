-- ===== src/Contracts/Completeness/Comparing.antt =====
-- scan-completeness.ts: how the three decisions on a finding depend on one another.
use webprobe.Base.{◌≡◌, ◌↔◌, String, true, Option, arith, string_key}
use webprobe.Base.Value.{Value}
use webprobe.Contracts.Completeness.{
  can_resolve_finding, can_compare_new_finding, can_compare_missing_finding, analyzer_key,
}

-- A finding that went missing is compared exactly when it could be resolved from the current summary
-- and could be compared as new against the previous one.
pub compare_missing_iff :
    (code : String) (current previous : Option Value)
    → (can_compare_missing_finding code current previous ≡ true) ↔ (
        (can_resolve_finding code current previous ≡ true)
        × (can_compare_new_finding previous code ≡ true))
unfolding can_compare_missing_finding can_resolve_finding can_compare_new_finding
compare_missing_iff code current previous = ground arith
