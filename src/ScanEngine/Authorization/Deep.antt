-- ===== src/ScanEngine/Authorization/Deep.antt =====
-- authorization.ts: what a deep audit needs, and which level each mode can reach.
use text.Mathlib.TextEquality.{eq_iff}
use webprobe.Base.{
  ℕ, ◌+◌, ◌≤◌, ◌<◌, ◌≡◌, refl, ◌↔◌, ◌⊎◌, inl, inr, ◌≢◌, String, true, false, Option, none, some,
  arith, string_key,
}
use webprobe.Base.Text.{is_hex_64}
use webprobe.Base.Value.{Date, at, invalid, not_after, is_given, is_some}
use webprobe.ScanEngine.Types.{
  ScanMode, public_audit, verified_monitoring, verified_deep_audit, mode_key, ScanMode-discrete,
}
use webprobe.ScanEngine.Authorization.{
  DeepAuditAuthorization, Level, public, verified, deep, allowed, AuthorizationInput, active,
  paused, SiteStatus-discrete, status_key, is_grant_bad, authorize_deep, authorize_scan, hash_text,
  revalidation_ms,
}

-- A grant that stands at time t for the site: it is for this site, by DNS, neither revoked nor
-- expired, complete, and its proof was looked up again in the last five minutes.
pub record Stands (site_id : String) (t : ℕ) (g : DeepAuditAuthorization) : Type 0 where
  pub own_site : g.site_id ≡ site_id
  pub by_dns : g.proof_type ≡ "dns_txt"
  pub not_revoked : g.revoked_at ≡ none
  pub has_generation : is_given g.generation_id ≡ true
  pub has_record : is_given g.proof_record_name ≡ true
  pub has_hash : is_hex_64 (hash_text g.proof_token_hash) ≡ true
  pub proof_time : ℕ
  pub proved : g.proof_verified_at ≡ at proof_time
  pub lookup_time : ℕ
  pub looked_up : g.revalidated_at ≡ some (at lookup_time)
  pub in_order : proof_time ≤ lookup_time
  pub not_future : lookup_time ≤ t
  pub recent : t ≤ lookup_time + revalidation_ms
  pub expiry : ℕ
  pub expires : g.expires_at ≡ at expiry
  pub not_expired : t < expiry

abbrev ms : Date → ℕ
ms (at t) = t
ms invalid = 0

abbrev lookup_ms : Option Date → ℕ
lookup_ms none = 0
lookup_ms (some d) = ms d

Stands-allowed :
    (site_id : String) (t : ℕ) (g : DeepAuditAuthorization)
    → Stands site_id t g
    → authorize_deep site_id (at t) (some g) ≡ allowed deep
unfolding authorize_deep is_grant_bad
Stands-allowed site_id t g s =
    ground (arith, eq_iff g.site_id site_id, eq_iff g.proof_type "dns_txt")

-- The tests that `authorizeDeep` passed, one by one.
allowed_tests :
    (site_id : String) (t : ℕ) (g : DeepAuditAuthorization)
    → authorize_deep site_id (at t) (some g) ≡ allowed deep
    → (g.site_id ≡ site_id)
      × (g.proof_type ≡ "dns_txt")
      × (g.revoked_at ≡ none)
      × (is_grant_bad g (at t) ≡ false)
      × (not_after g.expires_at (at t) ≡ false)
unfolding authorize_deep
allowed_tests site_id t g e =
    ground (arith, eq_iff g.site_id site_id, eq_iff g.proof_type "dns_txt")

allowed-Stands :
    (site_id : String) (t : ℕ) (g : DeepAuditAuthorization)
    → authorize_deep site_id (at t) (some g) ≡ allowed deep
    → Stands site_id t g
unfolding is_grant_bad
allowed-Stands site_id t g e =
    let (own, dns, live, good, fresh) = allowed_tests site_id t g e in
    record {
      own_site = own;
      by_dns = dns;
      not_revoked = live;
      has_generation = ground (arith, good);
      has_record = ground (arith, good);
      has_hash = ground (arith, good);
      proof_time = ms g.proof_verified_at;
      proved = ground (arith, good);
      lookup_time = lookup_ms g.revalidated_at;
      looked_up = ground (arith, good);
      in_order = ground (arith, good);
      not_future = ground (arith, good);
      recent = ground (arith, good);
      expiry = ms g.expires_at;
      expires = ground (arith, good);
      not_expired = ground (arith, good, fresh);
    }

-- The level that a mode can reach.
abbrev pub level_of : ScanMode → Level
level_of public_audit = public
level_of verified_monitoring = verified
level_of verified_deep_audit = deep

abbrev pub MayGoDeep : AuthorizationInput → ℕ → Type 0
MayGoDeep input t =
    (input.mode ≡ verified_deep_audit)
    × (input.site_status ≡ active)
    × (is_some input.verified_at ≡ true)
    × ((input.deep_grant ≡ none)
        ⊎ ((g : DeepAuditAuthorization) × (input.deep_grant ≡ some g) × Stands input.site_id t g))

authorize_deep_cases :
    (site_id : String) (t : ℕ) (grant : Option DeepAuditAuthorization)
    → authorize_deep site_id (at t) grant ≡ allowed deep
    → (grant ≡ none) ⊎ ((g : DeepAuditAuthorization) × (grant ≡ some g) × Stands site_id t g)
authorize_deep_cases site_id t none e = inl refl
authorize_deep_cases site_id t (some g) e = inr (g, refl, allowed-Stands site_id t g e)

deep_tests :
    (input : AuthorizationInput)
    → authorize_scan input ≡ allowed deep
    → (input.mode ≡ verified_deep_audit)
      × (input.site_status ≡ active)
      × (is_some input.verified_at ≡ true)
      × (authorize_deep input.site_id input.now input.deep_grant ≡ allowed deep)
unfolding authorize_scan ScanMode-discrete SiteStatus-discrete
deep_tests input e = ground arith

grant_allowed :
    (site_id : String) (t : ℕ) (grant : Option DeepAuditAuthorization)
    → ((grant ≡ none) ⊎ ((g : DeepAuditAuthorization) × (grant ≡ some g) × Stands site_id t g))
    → authorize_deep site_id (at t) grant ≡ allowed deep
unfolding authorize_deep
grant_allowed site_id t grant (inl e) = rw e
grant_allowed site_id t grant (inr (g, e, s)) = rw e (Stands-allowed site_id t g s)

-- With a valid clock, a deep audit is allowed exactly for an active, verified site in the deep mode
-- whose dedicated grant, if there is one, stands.
pub authorize_scan-deep_iff :
    (input : AuthorizationInput) (t : ℕ)
    → input.now ≡ at t
    → (authorize_scan input ≡ allowed deep) ↔ MayGoDeep input t
unfolding authorize_scan ScanMode-discrete SiteStatus-discrete
authorize_scan-deep_iff input t clock = (
  λ e.
      let (mode, status, known, d) = deep_tests input e in
      (mode, status, known, authorize_deep_cases input.site_id t input.deep_grant (rw clock at d)),
  λ m. ground (arith, grant_allowed input.site_id t input.deep_grant m.3),
)

authorize_deep_level :
    (site_id : String) (now : Date) (grant : Option DeepAuditAuthorization) (l : Level)
    → authorize_deep site_id now grant ≡ allowed l
    → l ≡ deep
unfolding authorize_deep
authorize_deep_level site_id now none l e = ground arith
authorize_deep_level site_id now (some g) l e = ground arith

-- Whatever the clock and the grant, a scan is allowed only at the level of its mode, never for a
-- paused site, and above the public level only for an active and verified one.
pub authorize_scan_level :
    (input : AuthorizationInput) (l : Level)
    → authorize_scan input ≡ allowed l
    → (l ≡ level_of input.mode)
      × (input.site_status ≢ paused)
      × ((input.mode ≡ public_audit)
          ⊎ ((input.site_status ≡ active) × (is_some input.verified_at ≡ true)))
unfolding authorize_scan ScanMode-discrete SiteStatus-discrete
authorize_scan_level input l e =
    ground (arith, authorize_deep_level input.site_id input.now input.deep_grant l)
