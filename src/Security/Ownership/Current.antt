-- ===== src/Security/Ownership/Current.antt =====
-- packages/security/src/index.ts: what a current proof of ownership is, and its time to live.
use webprobe.Base.{
  ap, ◌∙◌, Option-cases, Result-cases, ℕ, ◌*◌, ◌≤◌, ◌<◌, ◌≡◌, refl, inl, inr, Bool, true, false,
  ◌&&◌, Option, none, some, ◌++◌, arith, ok,
}
use webprobe.Base.Text.{Text, codes, text_key}
use webprobe.Base.Value.{Date, at, before, not_after}
use webprobe.Security.Urls.{Url, IpLibrary, is_http, normalized_hostname}
use webprobe.Security.Ownership.{
  origin_of_url, is_text, date_or_invalid, SiteOwnershipProof, canonical_site_origin,
  site_ownership_record_name, is_complete_proof, are_times_current, names_site,
  has_current_site_ownership_proof, get_site_ownership_proof_ttl_ms, day_ms,
}

origin_of_url_lem :
    (ip : IpLibrary) (url : Url) (o : Text)
    → origin_of_url ip url ≡ ok o
    → (is_http url ≡ true) × (ip.is_valid (normalized_hostname url) ≡ false) × (o ≡ url.origin)
origin_of_url_lem ip url o h = ground (arith, h)

is_text-some : (s : Option Text) (t : Text) → is_text s t ≡ true → s ≡ some t
is_text-some none t h = ground (arith, h)
is_text-some (some s) t h = ap some ((text_key.same_iff s t).0 h)

are_times_current_lem :
    (site : SiteOwnershipProof) (now : Date)
    → are_times_current site now ≡ true
    → (v : ℕ) × (r : ℕ) × (t : ℕ) × (e : ℕ) × (site.ownership_verified_at ≡ some (at v))
      × (site.ownership_revalidated_at ≡ some (at r))
      × (now ≡ at t)
      × (site.ownership_expires_at ≡ some (at e))
      × (v ≤ r)
      × (r ≤ t)
      × (t < e)
unfolding are_times_current
are_times_current_lem site now h =
    go site.ownership_verified_at site.ownership_revalidated_at now site.ownership_expires_at h
  where
    go :
        (v r : Option Date) (t : Date) (e : Option Date)
        → (not_after (date_or_invalid v) t
            && not_after (date_or_invalid v) (date_or_invalid r)
            && not_after (date_or_invalid r) t
            && before t (date_or_invalid e))
          ≡ true
        → (i : ℕ) × (j : ℕ) × (k : ℕ) × (l : ℕ) × (v ≡ some (at i))
          × (r ≡ some (at j))
          × (t ≡ at k)
          × (e ≡ some (at l))
          × (i ≤ j)
          × (j ≤ k)
          × (k < l)
    go (some (at v)) (some (at r)) (at t) (some (at e)) h = (
      v,
      r,
      t,
      e,
      refl,
      refl,
      refl,
      refl,
      ground (arith, h),
      ground (arith, h),
      ground (arith, h),
    )
    go v r t e h = ground (arith, h)

ends_of_ten :
    (a b c d e f g h i j : Bool)
    → (a && b && c && d && e && f && g && h && i && j) ≡ true
    → (a ≡ true) × (j ≡ true)
ends_of_ten a b c d e f g h i j k = ground (arith, k)

is_complete_proof_lem :
    (site : SiteOwnershipProof)
    → is_complete_proof site ≡ true
    → (site.status ≡ codes "active") × (site.ownership_invalidated_at ≡ none)
unfolding is_complete_proof
is_complete_proof_lem site h =
    let (active, valid) = ends_of_ten _ _ _ _ _ _ _ _ _ _ h in
    ((text_key.same_iff site.status (codes "active")).0 active, ground (arith, valid))

three : (a b c : Bool) → (a && b && c) ≡ true → (a ≡ true) × (b ≡ true) × (c ≡ true)
three a b c h = ground (arith, h)

module _ (parse_url : Text → Option Url) (ip : IpLibrary) where
  names_site_lem :
      (site : SiteOwnershipProof)
      → names_site parse_url ip site ≡ true
      → (url : Url) × (parse_url site.canonical_url ≡ some url)
        × (is_http url ≡ true)
        × (ip.is_valid (normalized_hostname url) ≡ false)
        × (site.ownership_origin ≡ some url.origin)
        × (site.ownership_record_name ≡ some (codes "_agency-monitor." ++ normalized_hostname url))
  unfolding names_site canonical_site_origin site_ownership_record_name
  names_site_lem site h = elim (Option-cases (parse_url site.canonical_url)) [
    | inl e ↦ ground (arith, rw (names_site, canonical_site_origin, e) at h)
    | inr (url, e) ↦ elim (Result-cases (origin_of_url ip url)) [
      | inl (x, f) ↦ ground (arith, rw (names_site, canonical_site_origin, e, f) at h)
      | inr (o, f) ↦
          let (http, domain, own) = origin_of_url_lem ip url o f in
          let origin : canonical_site_origin parse_url ip site.canonical_url ≡ ok o =
            rw (canonical_site_origin, e) f in
          let name : site_ownership_record_name parse_url ip site.canonical_url
              ≡ ok (codes "_agency-monitor." ++ normalized_hostname url) =
            rw (site_ownership_record_name, e, origin) refl in
          let both : (is_text site.ownership_origin o
                && is_text site.ownership_record_name
                    (codes "_agency-monitor." ++ normalized_hostname url))
              ≡ true =
            rw (names_site, origin, name) at h in
          (
            url,
            e,
            http,
            domain,
            is_text-some site.ownership_origin o (ground (arith, both)) ∙ ap some own,
            is_text-some site.ownership_record_name _ (ground (arith, both)),
          )
    ]
  ]

  -- A current proof belongs to an active site whose canonical URL is plain HTTP(S) with a domain for a
  -- host, names that URL's origin and DNS record, was not invalidated, and was verified, then
  -- looked up again, both up to now, and expires after now.
  pub has_current_proof_lem :
      (site : SiteOwnershipProof) (now : Date)
      → has_current_site_ownership_proof parse_url ip site now ≡ true
      → (url : Url) × (v : ℕ) × (r : ℕ) × (t : ℕ) × (e : ℕ) × (site.status ≡ codes "active")
        × (site.ownership_invalidated_at ≡ none)
        × (parse_url site.canonical_url ≡ some url)
        × (is_http url ≡ true)
        × (ip.is_valid (normalized_hostname url) ≡ false)
        × (site.ownership_origin ≡ some url.origin)
        × (site.ownership_record_name ≡ some (codes "_agency-monitor." ++ normalized_hostname url))
        × (site.ownership_verified_at ≡ some (at v))
        × (site.ownership_revalidated_at ≡ some (at r))
        × (now ≡ at t)
        × (site.ownership_expires_at ≡ some (at e))
        × (v ≤ r)
        × (r ≤ t)
        × (t < e)
  unfolding has_current_site_ownership_proof
  has_current_proof_lem site now h =
      let (complete, names, times) = three _ _ _ h in
      let (active, valid) = is_complete_proof_lem site complete in
      let (url, parsed, http, domain, origin, name) = names_site_lem site names in
      let (v, r, t, e, verified, again, clock, expires, a, b, c) =
        are_times_current_lem site now times in
      (
        url, v, r, t, e, active, valid, parsed, http, domain, origin, name, verified, again, clock,
        expires, a, b, c,
      )

-- A time to live that is returned lies between one and ninety days.
pub ttl_bounds :
    (raw : Option Text) (ms : ℕ)
    → get_site_ownership_proof_ttl_ms raw ≡ ok ms
    → (day_ms ≤ ms) × (ms ≤ 90 * day_ms)
unfolding get_site_ownership_proof_ttl_ms
ttl_bounds raw ms h = ground (arith, h)
