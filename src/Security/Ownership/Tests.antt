-- ===== src/Security/Ownership/Tests.antt =====
-- Witnesses of the ownership proof.
use webprobe.Base.{
  ℕ, ◌*◌, ◌≤◌, ◌<◌, ◌≡◌, refl, true, false, Option, none, some, [], ◌++◌, if◌then◌else◌, ◌==◌, ok,
}
use webprobe.Base.Text.{Text, codes, text_key}
use webprobe.Base.Value.{at}
use webprobe.Security.Urls.{Url, IpLibrary, is_http, normalized_hostname}
use webprobe.Security.Ownership.{
  SiteOwnershipProof, canonical_site_origin, site_ownership_record_name, is_complete_proof,
  are_times_current, names_site, has_current_site_ownership_proof, get_site_ownership_proof_ttl_ms,
  day_ms,
}
use webprobe.Security.Ownership.Current.{has_current_proof_lem, ttl_bounds}

abbrev pub home : Url
home = record {
  protocol = codes "https:";
  username = [];
  password = [];
  hostname = codes "a.org";
  port = [];
  pathname = codes "/";
  search = [];
  hash = [];
  origin = codes "https://a.org";
}

abbrev pub parse_home : Text → Option Url
parse_home s = if s == codes "https://a.org/" then some home else none

abbrev pub names_only : IpLibrary
names_only = record { is_valid = λ s. false; parse = λ s. none }

abbrev pub proof : SiteOwnershipProof
proof = record {
  canonical_url = codes "https://a.org/";
  status = codes "active";
  verified_at = some (at 5);
  ownership_token_hash =
      some (codes "0123456789abcdef0123456789abcdef0123456789abcdef0123456789abcdef");
  ownership_record_name = some (codes "_agency-monitor.a.org");
  ownership_origin = some (codes "https://a.org");
  ownership_generation = some (codes "g");
  ownership_verified_at = some (at 5);
  ownership_expires_at = some (at 90);
  ownership_revalidated_at = some (at 7);
  ownership_invalidated_at = none;
}

proof_current : has_current_site_ownership_proof parse_home names_only proof (at 8) ≡ true
unfolding has_current_site_ownership_proof is_complete_proof names_site are_times_current
    canonical_site_origin site_ownership_record_name normalized_hostname
proof_current = refl

has_current_proof_lem_example :
    (url : Url) × (v : ℕ) × (r : ℕ) × (t : ℕ) × (e : ℕ) × (proof.status ≡ codes "active")
    × (proof.ownership_invalidated_at ≡ none)
    × (parse_home proof.canonical_url ≡ some url)
    × (is_http url ≡ true)
    × (names_only.is_valid (normalized_hostname url) ≡ false)
    × (proof.ownership_origin ≡ some url.origin)
    × (proof.ownership_record_name ≡ some (codes "_agency-monitor." ++ normalized_hostname url))
    × (proof.ownership_verified_at ≡ some (at v))
    × (proof.ownership_revalidated_at ≡ some (at r))
    × (at 8 ≡ at t)
    × (proof.ownership_expires_at ≡ some (at e))
    × (v ≤ r)
    × (r ≤ t)
    × (t < e)
has_current_proof_lem_example =
    has_current_proof_lem parse_home names_only proof (at 8) proof_current

two_days : get_site_ownership_proof_ttl_ms (some (codes " 2 ")) ≡ ok 172_800_000
unfolding get_site_ownership_proof_ttl_ms
two_days = refl

ttl_bounds_example : (day_ms ≤ 172_800_000) × (172_800_000 ≤ 90 * day_ms)
ttl_bounds_example = ttl_bounds (some (codes " 2 ")) 172_800_000 two_days
