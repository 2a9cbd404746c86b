-- ===== src/DeepLease/Checks.antt =====
-- deep-lease.ts: assertDeepLease and renewDeepLease. A read and an update are one statement each;
-- what other workers write between them is seen by the second only.
use webprobe.Base.{
  String, eqb, ℕ, ◌+◌, Bool, true, false, not, ◌&&◌, ◌||◌, Option, none, some, ◌==◌, any, find,
  Result, throw, ok, throw_if, ◌>>◌,
}
use webprobe.Base.Text.{Text, codes, text_key, is_empty}
use webprobe.Base.Value.{Date, at, not_after, is_some}
use webprobe.Security.Urls.{Url, IpLibrary}
use webprobe.Security.Ownership.{
  SiteOwnershipProof, has_current_site_ownership_proof, site_ownership_record_name, is_text,
  given_text,
}
use webprobe.DeepLease.Rows.{
  Attempt, Database, DeepLease, DeepGrantIdentity, Authorization, is_running, lease_ms, is_scan_of,
  is_deep_running, over, update, is_of_lease,
}
use webprobe.DeepLease.Claims.{is_held}

-- `a.getTime() === b.getTime()`; NaN equals nothing.
abbrev pub same_time : Date → Date → Bool
same_time (at a) (at b) = eqb a b
same_time _ _ = false

-- `a?.getTime() === b.getTime()`, of a date that may be missing.
abbrev pub is_time : Option Date → Date → Bool
is_time none d = false
is_time (some a) d = same_time a d

-- The site is still the one of the grant: the negation of the test for a changed verification.
unfoldable pub is_site_of_grant : SiteOwnershipProof → DeepGrantIdentity → Bool
is_site_of_grant site grant =
    site.canonical_url == grant.canonical_url
    && is_time site.verified_at grant.site_verified_at
    && is_text site.ownership_generation grant.ownership_generation
    && is_text site.ownership_token_hash grant.ownership_token_hash
    && is_time site.ownership_verified_at grant.ownership_verified_at
    && is_time site.ownership_revalidated_at grant.ownership_revalidated_at

pub uses_legacy_grant : DeepGrantIdentity → Bool
uses_legacy_grant grant =
    is_some grant.generation_id || is_some grant.token_hash || is_some grant.verified_at

-- `row.x === grant.x` of texts, where the grant's is there and not empty.
abbrev pub matches_given : Option Text → Option Text → Bool
matches_given row none = false
matches_given row (some t) = not (is_empty t) && is_text row t

abbrev pub matches_time : Date → Option Date → Bool
matches_time row none = false
matches_time row (some d) = same_time row d

-- The row of the joined tables: the scan's, and that of the lease's attempt.
abbrev pub has_row : Database → DeepLease → Bool
has_row db lease = is_scan_of db.scan lease.scan_id lease.organization_id lease.site_id

abbrev pub is_live : Option Attempt → ℕ → Bool
is_live none now = false
is_live (some a) now = is_running a.status && over a.lease_until now

abbrev pub extend : ℕ → Attempt → Attempt
extend now a = record a { lease_until = some (now + lease_ms) }

abbrev pub is_renewable : DeepLease → ℕ → Attempt → Bool
is_renewable lease now a = is_held lease a && over a.lease_until now

-- The update of a renewal, with its own clock reading.
unfoldable pub renew_row : Database → DeepLease → ℕ → Result Database
renew_row db lease now =
    throw_if (not (any (is_renewable lease now) db.attempts)) "Deep execution lease unavailable"
    >> ok (update (is_renewable lease now) (extend now) db)

module _ (parse_url : Text → Option Url) (ip : IpLibrary) where
  -- `row.recordName === expectedDeepProofRecord(canonicalUrl)`
  abbrev pub names_record : Option Text → Text → Result Bool
  names_record record_name canonical_url =
      elim (site_ownership_record_name parse_url ip canonical_url) [
        | throw e ↦ throw e
        | ok name ↦ ok (is_text record_name name)
      ]

  -- The negation of the second test, of an authorization that the join has found.
  abbrev pub is_authorization_of : Authorization → DeepGrantIdentity → ℕ → Bool
  is_authorization_of row grant now =
      matches_given row.proof_token_hash grant.token_hash
      && matches_given row.generation_id grant.generation_id
      && matches_time row.proof_verified_at grant.verified_at
      && not (not_after row.expires_at (at now))
      && not row.is_revoked

  -- The test reads from the left: the record's name is computed, and may throw, only after the
  -- grant's own fields and the type of the proof. A failed test throws the message.
  pub check_legacy :
      String → Option Authorization → Text → DeepGrantIdentity → ℕ → Result (Unit {0})
  check_legacy message row canonical_url grant now = elim row [
    | none ↦ throw message
    | some a ↦
        throw_if
          (not (given_text grant.generation_id)
            || not (given_text grant.token_hash)
            || not (is_some grant.verified_at)
            || not (a.proof_type == codes "dns_txt"))
          message
        >> (elim (names_record a.proof_record_name canonical_url) [
          | throw e ↦ throw e
          | ok named ↦ throw_if (not named || not (is_authorization_of a grant now)) message
        ])
  ]

  unfoldable pub check_grant : Database → DeepGrantIdentity → ℕ → Result (Unit {0})
  check_grant db grant now =
      throw_if (not (has_current_site_ownership_proof parse_url ip db.site (at now)))
        "Deep site ownership proof is stale"
      >> throw_if (not (is_site_of_grant db.site grant)) "Deep site verification changed"
      >> (elim (uses_legacy_grant grant) [
        | true ↦
            check_legacy "Deep authorization changed or expired" db.authorization
              db.site.canonical_url grant now
        | false ↦ ok tt
      ])

  abbrev pub check_optional_grant : Database → Option DeepGrantIdentity → ℕ → Result (Unit {0})
  check_optional_grant db none now = ok tt
  check_optional_grant db (some grant) now = check_grant db grant now

  unfoldable pub assert_deep_lease :
      Database → DeepLease → Option DeepGrantIdentity → ℕ → Result (Unit {0})
  assert_deep_lease db lease grant now =
      throw_if
        (not (has_row db lease)
          || not (is_deep_running db.scan)
          || not (is_live (find (is_of_lease lease) db.attempts) now))
        "Deep execution lease unavailable"
      >> throw_if (not (db.site.status == codes "active") || not (is_some db.site.verified_at))
          "Deep site is inactive or unverified"
      >> check_optional_grant db grant now

  -- `seen` is the database at the assertion, `db` the one at the update.
  unfoldable pub renew_deep_lease :
      Database → Database → DeepLease → Option DeepGrantIdentity → ℕ → ℕ → Result Database
  renew_deep_lease seen db lease grant now later =
      assert_deep_lease seen lease grant now >> renew_row db lease later
