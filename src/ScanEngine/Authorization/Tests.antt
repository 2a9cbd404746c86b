-- ===== src/ScanEngine/Authorization/Tests.antt =====
-- Witnesses of the authorization: a verified site with a grant of its own.
use webprobe.Base.{◌≡◌, refl, ◌⊎◌, ◌↔◌, ◌≢◌, true, none, some}
use webprobe.Base.Text.{codes}
use webprobe.Base.Value.{at, is_some}
use webprobe.ScanEngine.Types.{verified_deep_audit, public_audit, ScanMode-discrete}
use webprobe.ScanEngine.Authorization.{
  DeepAuditAuthorization, deep, allowed, AuthorizationInput, active, paused, authorize_scan,
  authorize_deep, is_grant_bad, SiteStatus-discrete,
}
use webprobe.ScanEngine.Authorization.Deep.{
  MayGoDeep, level_of, authorize_scan-deep_iff, authorize_scan_level,
}

abbrev grant : DeepAuditAuthorization
grant = record {
  site_id = "site";
  proof_type = "dns_txt";
  proof_record_name = some "_probe.example.com";
  proof_token_hash =
      some (codes "0123456789abcdef0123456789abcdef0123456789abcdef0123456789abcdef");
  generation_id = some "g1";
  proof_verified_at = at 1000;
  expires_at = at 900_000;
  revoked_at = none;
  revalidated_at = some (at 400_000);
}

abbrev request : AuthorizationInput
request = record {
  mode = verified_deep_audit;
  site_id = "site";
  site_status = active;
  verified_at = some (at 500);
  deep_grant = some grant;
  now = at 700_000;
}

-- Five minutes after the lookup the grant still stands; a millisecond later it does not.
allowed_now : authorize_scan request ≡ allowed deep
unfolding authorize_scan authorize_deep is_grant_bad ScanMode-discrete SiteStatus-discrete
allowed_now = refl

authorize_scan-deep_iff_example :
    (authorize_scan request ≡ allowed deep) ↔ MayGoDeep request 700_000
authorize_scan-deep_iff_example = authorize_scan-deep_iff request 700_000 refl

authorize_scan_level_example :
    (deep ≡ level_of verified_deep_audit)
    × (active ≢ paused)
    × ((verified_deep_audit ≡ public_audit)
        ⊎ ((active ≡ active) × (is_some (some (at 500)) ≡ true)))
authorize_scan_level_example = authorize_scan_level request deep allowed_now
