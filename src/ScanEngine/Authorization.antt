-- ===== src/ScanEngine/Authorization.antt =====
-- apps/worker/src/scan-engine/authorization.ts: who may be scanned, and how deep.
pub mod Deep
mod Tests
use webprobe.Base.{
  ℕ, String, Bool, true, false, not, ◌&&◌, ◌||◌, Option, none, some, [], if◌then◌else◌, Key,
  key_of_discrete, ◌==◌, string_key,
}
use webprobe.Base.Text.{Text, is_hex_64}
use webprobe.Base.Value.{
  Date, at, invalid, is_valid_date, before, not_after, elapsed_over, is_given, is_some,
}
use webprobe.ScanEngine.Types.{
  ScanMode, public_audit, verified_monitoring, verified_deep_audit, mode_key,
}

pub record DeepAuditAuthorization : Type 0 where
  pub site_id : String
  pub proof_type : String
  pub proof_record_name : Option String
  pub proof_token_hash : Option Text
  pub generation_id : Option String
  pub proof_verified_at : Date
  pub expires_at : Date
  pub revoked_at : Option Date
  pub revalidated_at : Option Date

pub data Level : Type 0 where
  public verified deep : Level

pub data Refusal : Type 0 where
  site_inactive site_unverified ownership_reverification_required : Refusal
  ownership_dns_unavailable deep_grant_missing deep_grant_invalid : Refusal
  deep_grant_expired deep_grant_revoked unknown_mode : Refusal

-- The optional `grantIdentity` is not set by `authorizeScan`.
pub data AuthorizationDecision : Type 0 where
  allowed : Level → AuthorizationDecision
  refused : Refusal → AuthorizationDecision

pub data SiteStatus : Type 0 where
  pending_verification active paused : SiteStatus

pub SiteStatus-discrete : Discrete SiteStatus
SiteStatus-discrete = hlevel

instance abbrev pub status_key : Key SiteStatus
status_key = key_of_discrete SiteStatus-discrete

pub record AuthorizationInput : Type 0 where
  pub mode : ScanMode
  pub site_id : String
  pub site_status : SiteStatus
  pub verified_at : Option Date
  pub deep_grant : Option DeepAuditAuthorization
  pub now : Date

-- `5 * 60_000`
abbrev pub revalidation_ms : ℕ
revalidation_ms = 300_000

-- `proofTokenHash ?? ""`
abbrev pub hash_text : Option Text → Text
hash_text none = []
hash_text (some s) = s

-- The last three tests on `revalidatedAt`, for a value that is there.
abbrev pub is_revalidation_bad : Date → Date → Date → Bool
is_revalidation_bad proof_verified_at revalidated now =
    not (is_valid_date revalidated)
    || before now proof_verified_at
    || before now revalidated
    || before revalidated proof_verified_at
    || elapsed_over now revalidated revalidation_ms

pub is_grant_bad : DeepAuditAuthorization → Date → Bool
is_grant_bad grant now =
    not (is_given grant.generation_id)
    || not (is_given grant.proof_record_name)
    || not (is_hex_64 (hash_text grant.proof_token_hash))
    || not (is_valid_date grant.proof_verified_at)
    || not (is_valid_date grant.expires_at)
    || (elim grant.revalidated_at [
      | none ↦ true
      | some revalidated ↦ is_revalidation_bad grant.proof_verified_at revalidated now
    ])

-- From `const grant = input.deepGrant` on.
pub authorize_deep : String → Date → Option DeepAuditAuthorization → AuthorizationDecision
authorize_deep site_id now none = allowed deep
authorize_deep site_id now (some grant) =
    if not (grant.site_id == site_id) || not (grant.proof_type == "dns_txt")
    then refused deep_grant_invalid
    else if is_some grant.revoked_at
    then refused deep_grant_revoked
    else if is_grant_bad grant now
    then refused deep_grant_invalid
    else if not_after grant.expires_at now
    then refused deep_grant_expired
    else allowed deep

pub authorize_scan : AuthorizationInput → AuthorizationDecision
authorize_scan input =
    if input.mode == public_audit
    then if input.site_status == paused then refused site_inactive else allowed public
    else if not (input.site_status == active)
    then refused site_inactive
    else if not (is_some input.verified_at)
    then refused site_unverified
    else if input.mode == verified_monitoring
    then allowed verified
    else if not (input.mode == verified_deep_audit)
    then refused unknown_mode
    else authorize_deep input.site_id input.now input.deep_grant
