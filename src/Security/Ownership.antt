-- ===== src/Security/Ownership.antt =====
-- packages/security/src/index.ts: the proof that a site belongs to its organization.
pub mod Current
pub mod Tests
use webprobe.Base.{
  ℕ, ◌+◌, ◌-◌, ◌*◌, Bool, true, false, not, ◌&&◌, ◌||◌, Option, none, some, List, [], ◌∷◌, ◌++◌,
  if◌then◌else◌, ◌==◌, ltb, leb, any, all, length, Result, throw, ok, throw_if, ◌>>◌, ◌>>=◌,
}
use webprobe.Base.Text.{Text, codes, text_key, is_hex_64, is_digit, is_empty}
use webprobe.Base.Value.{Date, at, invalid, before, not_after, is_some, max_safe_integer}
use webprobe.Contracts.Products.{trim}
use webprobe.Contracts.Versions.{number_of}
use webprobe.Security.Urls.{Url, IpLibrary, is_http, has_credentials, normalized_hostname}

pub record SiteOwnershipProof : Type 0 where
  pub canonical_url : Text
  pub status : Text
  pub verified_at : Option Date
  pub ownership_token_hash : Option Text
  pub ownership_record_name : Option Text
  pub ownership_origin : Option Text
  pub ownership_generation : Option Text
  pub ownership_verified_at : Option Date
  pub ownership_expires_at : Option Date
  pub ownership_revalidated_at : Option Date
  pub ownership_invalidated_at : Option Date

abbrev pub origin_of_url : IpLibrary → Url → Result Text
origin_of_url ip url =
    throw_if (not (is_http url) || has_credentials url) "Invalid canonical URL for ownership proof"
    >> throw_if (ip.is_valid (normalized_hostname url))
        "DNS ownership proof requires a domain hostname"
    >> ok url.origin

module _ (parse_url : Text → Option Url) (ip : IpLibrary) where
  unfoldable pub canonical_site_origin : Text → Result Text
  canonical_site_origin canonical_url = elim (parse_url canonical_url) [
    | none ↦ throw "Invalid URL"
    | some url ↦ origin_of_url ip url
  ]

  unfoldable pub site_ownership_record_name : Text → Result Text
  site_ownership_record_name canonical_url = elim (parse_url canonical_url) [
    | none ↦ throw "Invalid URL"
    | some url ↦ canonical_site_origin canonical_url >>= λ origin.
        ok (codes "_agency-monitor." ++ normalized_hostname url)
  ]

-- A text or a date that is there; an empty text is not.
abbrev pub given_text : Option Text → Bool
given_text none = false
given_text (some s) = not (is_empty s)

abbrev pub hash_is_hex : Option Text → Bool
hash_is_hex none = false
hash_is_hex (some s) = is_hex_64 s

-- The negation of the first test.
pub is_complete_proof : SiteOwnershipProof → Bool
is_complete_proof site =
    site.status == codes "active"
    && is_some site.verified_at
    && hash_is_hex site.ownership_token_hash
    && given_text site.ownership_record_name
    && given_text site.ownership_origin
    && given_text site.ownership_generation
    && is_some site.ownership_verified_at
    && is_some site.ownership_expires_at
    && is_some site.ownership_revalidated_at
    && not (is_some site.ownership_invalidated_at)

-- `left === right` of a text that may be missing and one that was computed.
abbrev pub is_text : Option Text → Text → Bool
is_text none t = false
is_text (some s) t = s == t

-- `a.getTime()` of a date that is there by the first test.
abbrev pub date_or_invalid : Option Date → Date
date_or_invalid none = invalid
date_or_invalid (some d) = d

pub are_times_current : SiteOwnershipProof → Date → Bool
are_times_current site now =
    let verified = date_or_invalid site.ownership_verified_at in
    let revalidated = date_or_invalid site.ownership_revalidated_at in
    let expires = date_or_invalid site.ownership_expires_at in
    not_after verified now
    && not_after verified revalidated
    && not_after revalidated now
    && before now expires

module _ (parse_url : Text → Option Url) (ip : IpLibrary) where
  -- The `try` block; a throw gives false.
  pub names_site : SiteOwnershipProof → Bool
  names_site site = elim (canonical_site_origin parse_url ip site.canonical_url) [
    | throw e ↦ false
    | ok origin ↦
        is_text site.ownership_origin origin
        && (elim (site_ownership_record_name parse_url ip site.canonical_url) [
          | throw e ↦ false
          | ok name ↦ is_text site.ownership_record_name name
        ])
  ]

  pub has_current_site_ownership_proof : SiteOwnershipProof → Date → Bool
  has_current_site_ownership_proof site now =
      is_complete_proof site && names_site site && are_times_current site now

-- SHA-256, as the hexadecimal text of the digest, is a parameter.
module _ (sha256 : Text → Text) where
  pub matches_site_ownership_token : List (List Text) → Text → Bool
  matches_site_ownership_token answers expected_hash =
      if not (is_hex_64 expected_hash) || ltb 32 (length answers)
      then false
      else any (λ fragments. is_match (join fragments) expected_hash) answers
    where
      join : List Text → Text
      join [] = []
      join (f ∷ fs) = f ++ join fs

      is_match : Text → Text → Bool
      is_match entry expected = not (ltb 1024 (length entry)) && sha256 entry == expected

pub data OwnershipDnsFailure : Type 0 where
  missing unavailable : OwnershipDnsFailure

-- By the error's code, if it has one.
pub classify_ownership_dns_failure : Option Text → OwnershipDnsFailure
classify_ownership_dns_failure none = unavailable
classify_ownership_dns_failure (some code) =
    if code == codes "ENODATA" || code == codes "ENOTFOUND" then missing else unavailable

abbrev pub day_ms : ℕ
day_ms = 86_400_000

-- The environment's setting in days; digits that are no safe integer are far above 90.
pub get_site_ownership_proof_ttl_ms : Option Text → Result ℕ
get_site_ownership_proof_ttl_ms none = ok (30 * day_ms)
get_site_ownership_proof_ttl_ms (some raw) =
    let value = trim raw in
    let days = number_of 0 value in
    if is_empty value
    then ok (30 * day_ms)
    else throw_if (not (all is_digit value)) "SITE_OWNERSHIP_PROOF_TTL_DAYS must be an integer"
      >> throw_if (not (leb days max_safe_integer) || ltb days 1 || ltb 90 days)
          "SITE_OWNERSHIP_PROOF_TTL_DAYS must be between 1 and 90"
      >> ok (days * day_ms)
