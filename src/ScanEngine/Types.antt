-- ===== src/ScanEngine/Types.antt =====
-- apps/worker/src/scan-engine/types.ts: scan modes, budgets, profiles and coverage reasons.
use webprobe.Base.{ℕ, String, Bool, List, [], ◌∷◌, Key, key_of_discrete}

pub data ScanMode : Type 0 where
  public_audit verified_deep_audit verified_monitoring : ScanMode

pub data BudgetKind : Type 0 where
  http_requests pages bytes_transferred dns_queries tls_handshakes active_safe_checks : BudgetKind

-- The two fields beside the kinds are named; `per_kind` is the `Record<BudgetKind, number>`.
pub record BudgetLimits {ℓ} (A : Type ℓ) : Type ℓ where
  pub per_kind : BudgetKind → A
  pub max_requests_per_hostname : A
  pub max_duration_ms : A

pub record ScanProfile : Type 0 where
  pub mode : ScanMode
  pub budget : BudgetLimits ℕ
  pub request_timeout_ms : ℕ
  pub navigation_timeout_ms : ℕ
  pub max_redirects : ℕ
  pub concurrency : ℕ
  pub allowed_checks : List String
  pub allow_active_safe : Bool

pub data CoverageReason : Type 0 where
  budget_http_requests budget_host_requests budget_pages budget_bytes_transferred : CoverageReason
  budget_dns_queries budget_tls_handshakes budget_active_safe_checks budget_time : CoverageReason
  authorization_unavailable scope_denied ssrf_denied dns_failed : CoverageReason
  transport_failed transport_timeout check_timeout : CoverageReason

unfoldable pub ScanMode-discrete : Discrete ScanMode
ScanMode-discrete = hlevel

unfoldable pub BudgetKind-discrete : Discrete BudgetKind
BudgetKind-discrete = hlevel

unfoldable pub CoverageReason-discrete : Discrete CoverageReason
CoverageReason-discrete = hlevel

instance abbrev pub mode_key : Key ScanMode
mode_key = key_of_discrete ScanMode-discrete

instance abbrev pub kind_key : Key BudgetKind
kind_key = key_of_discrete BudgetKind-discrete

instance abbrev pub reason_key : Key CoverageReason
reason_key = key_of_discrete CoverageReason-discrete

-- `budgetKinds`, in the order of the keys of `reasonByKind`.
abbrev pub budget_kinds : List BudgetKind
budget_kinds =
    http_requests ∷ pages ∷ bytes_transferred ∷ dns_queries ∷ tls_handshakes ∷ active_safe_checks
    ∷ []
