-- ===== src/ScanEngine/Profiles.antt =====
-- apps/worker/src/scan-engine/profiles.ts: the limits of each scan mode.
use webprobe.Base.{ℕ, ◌<◌, ◌≡◌, ◌≢◌, refl, ◌⊎◌, inl, inr, Bool, true, false, [], ◌∷◌, min, arith}
use webprobe.ScanEngine.Types.{
  ScanMode, public_audit, verified_monitoring, verified_deep_audit, BudgetKind, http_requests,
  pages, bytes_transferred, dns_queries, tls_handshakes, active_safe_checks, ScanProfile,
}

abbrev per_kind : ℕ → ℕ → ℕ → ℕ → ℕ → ℕ → BudgetKind → ℕ
per_kind h p b d t a http_requests = h
per_kind h p b d t a pages = p
per_kind h p b d t a bytes_transferred = b
per_kind h p b d t a dns_queries = d
per_kind h p b d t a tls_handshakes = t
per_kind h p b d t a active_safe_checks = a

-- The table `profiles` with `resolveScanProfile`, which throws for no mode of the type.
pub resolve_scan_profile : ScanMode → ScanProfile
resolve_scan_profile public_audit = record {
  mode = public_audit;
  budget = record {
    per_kind = per_kind 200 15 20_000_000 200 200 0;
    max_requests_per_hostname = 80;
    max_duration_ms = 120_000;
  };
  request_timeout_ms = 10_000;
  navigation_timeout_ms = 20_000;
  max_redirects = 5;
  concurrency = 1;
  allowed_checks = "v2-http" ∷ "v2-browser" ∷ [];
  allow_active_safe = false;
}
resolve_scan_profile verified_monitoring = record {
  mode = verified_monitoring;
  budget = record {
    per_kind = per_kind 1_000 20 50_000_000 1_000 1_000 0;
    max_requests_per_hostname = 1_000;
    max_duration_ms = 180_000;
  };
  request_timeout_ms = 10_000;
  navigation_timeout_ms = 60_000;
  max_redirects = 5;
  concurrency = 1;
  allowed_checks = "v2-http" ∷ "v2-browser" ∷ [];
  allow_active_safe = false;
}
resolve_scan_profile verified_deep_audit = record {
  mode = verified_deep_audit;
  budget = record {
    per_kind = per_kind 600 40 100_000_000 600 600 10;
    max_requests_per_hostname = 300;
    max_duration_ms = 300_000;
  };
  request_timeout_ms = 15_000;
  navigation_timeout_ms = 30_000;
  max_redirects = 5;
  concurrency = 2;
  allowed_checks = [];
  allow_active_safe = true;
}

-- The two modes that the older browser scan runs in.
pub data LegacyMode : Type 0 where
  legacy_public legacy_monitoring : LegacyMode

abbrev pub mode_of : LegacyMode → ScanMode
mode_of legacy_public = public_audit
mode_of legacy_monitoring = verified_monitoring

pub record BrowserRequest : Type 0 where
  pub max_pages : ℕ
  pub navigation_timeout_ms : ℕ
  pub check_accessibility : Bool
  pub capture_screenshots : Bool

pub record BrowserOptions : Type 0 where
  pub scan_mode : ScanMode
  pub max_pages : ℕ
  pub navigation_timeout_ms : ℕ
  pub check_accessibility : Bool
  pub capture_screenshot : Bool

pub resolve_legacy_browser_options : LegacyMode → BrowserRequest → BrowserOptions
resolve_legacy_browser_options mode requested =
    let profile = resolve_scan_profile (mode_of mode) in
    record {
      scan_mode = mode_of mode;
      max_pages = min requested.max_pages (profile.budget.per_kind pages);
      navigation_timeout_ms = min requested.navigation_timeout_ms profile.navigation_timeout_ms;
      check_accessibility = requested.check_accessibility;
      capture_screenshot = requested.capture_screenshots;
    }

-- Only the deep mode may run active-safe checks, and only it has a budget for them: the flag of the
-- profile and its budget agree.
pub active_safe_iff :
    (mode : ScanMode)
    → ((resolve_scan_profile mode).allow_active_safe ≡ true)
        × (0 < (resolve_scan_profile mode).budget.per_kind active_safe_checks)
        × (mode ≡ verified_deep_audit)
      ⊎ ((resolve_scan_profile mode).allow_active_safe ≡ false)
        × ((resolve_scan_profile mode).budget.per_kind active_safe_checks ≡ 0)
        × (mode ≢ verified_deep_audit)
unfolding resolve_scan_profile
active_safe_iff public_audit = inr (refl, refl, λ e. cc)
active_safe_iff verified_monitoring = inr (refl, refl, λ e. cc)
active_safe_iff verified_deep_audit = inl (refl, omega arith, refl)
