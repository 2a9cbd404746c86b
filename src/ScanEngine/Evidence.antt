-- ===== src/ScanEngine/Evidence.antt =====
-- apps/worker/src/scan-engine/evidence.ts: what a check reports.
use webprobe.Base.{ℕ, String, Bool, true, false, not, ◌&&◌, Result, ok, ◌>>◌, throw_if, ltb}
use webprobe.Base.Text.{codes}
use webprobe.Base.Value.{Value, object}
use webprobe.ScanEngine.Registry.{is_name, is_version}

-- `other_class` stands for a value that the union type does not have; the code tests for it.
pub data EvidenceClass : Type 0 where
  observation active_safe confirmed_risk manual_confirmation other_class : EvidenceClass

-- A number: a quotient of naturals, or what lies outside of these. A quotient by zero is NaN or
-- infinite.
pub data Confidence : Type 0 where
  quotient : ℕ → ℕ → Confidence
  negative not_finite : Confidence

pub record CheckEvidence : Type 0 where
  pub check_id : String
  pub check_version : String
  pub classification : EvidenceClass
  pub confidence : Confidence
  pub details : Value

unfoldable pub is_unit : Confidence → Bool
is_unit (quotient n d) = ltb 0 d && not (ltb d n)
is_unit _ = false

unfoldable pub is_class : EvidenceClass → Bool
is_class other_class = false
is_class _ = true

unfoldable pub is_structured : Value → Bool
is_structured (object fields) = true
is_structured _ = false

unfoldable pub create_evidence : CheckEvidence → Result CheckEvidence
create_evidence value = do
  throw_if (not (is_name 1 (codes value.check_id))) "Invalid check ID"
  throw_if (not (is_version (codes value.check_version))) "Invalid check version"
  throw_if (not (is_class value.classification)) "Invalid evidence classification"
  throw_if (not (is_unit value.confidence)) "Evidence confidence must be between zero and one"
  throw_if (not (is_structured value.details)) "Evidence data must be structured"
  ok value
