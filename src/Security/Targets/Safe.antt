-- ===== src/Security/Targets/Safe.antt =====
-- packages/security/src/index.ts: what a target is that `assertPublicHttpUrl` accepts.
use webprobe.Base.{
  String, ◌≡◌, ◌≢◌, ◌↔◌, ◌⊎◌, refl, ap, inl, inr, Bool, true, false, not, ◌||◌, Option, some, List,
  [], ◌∷◌, ◌++◌, All, any, add, contains, arith, ◌==◌, Bool-cases, Option-cases, Result, throw, ok,
  Result-cases,
}
use webprobe.Base.Text.{Text, text_key}
use webprobe.Security.Urls.{
  Url, IpLibrary, is_public_ip, is_http, has_credentials, has_odd_port, is_local,
  normalized_hostname, validate_url_shape,
}
use webprobe.Security.Targets.{Target, distinct, answers_for, finish_target, assert_public_http_url}

any-contains :
    (p : Text → Bool) (a : Text) (xs : List Text)
    → contains a xs ≡ true
    → p a ≡ true
    → any p xs ≡ true
unfolding contains
any-contains p a [] h k = ground (arith, h)
any-contains p a (x ∷ xs) h k = elim (Bool-cases (x == a)) [
  | inl e ↦ let same : x ≡ a = (text_key.same_iff x a).0 e in rw same (rw k refl)
  | inr e ↦ ground (arith, any-contains p a xs (rw e at h) k)
]

any-append : (p : Text → Bool) (xs ys : List Text) → any p (xs ++ ys) ≡ (any p xs || any p ys)
any-append p [] ys = refl
any-append p (x ∷ xs) ys = ground (arith, any-append p xs ys)

any-add : (p : Text → Bool) (a : Text) (xs : List Text) → any p (add a xs) ≡ (any p xs || p a)
unfolding add
any-add p a xs = elim (Bool-cases (contains a xs)) [
  | inl e ↦ rw e (ground (arith, any-contains p a xs e))
  | inr e ↦ rw e (ground (arith, any-append p xs (a ∷ [])))
]

any-distinct :
    (p : Text → Bool) (seen xs : List Text) → any p (distinct seen xs) ≡ (any p seen || any p xs)
unfolding distinct
any-distinct p seen [] = ground arith
any-distinct p seen (x ∷ xs) = ground (arith, any-distinct p (add x seen) xs, any-add p x seen)

module _ (ip : IpLibrary) where
  abbrev pub AllPublic : List Text → Type 0
  AllPublic = All (λ a. is_public_ip ip a ≡ true)

  any-AllPublic : (xs : List Text) → (any (λ a. not (is_public_ip ip a)) xs ≡ false) ↔ AllPublic xs
  any-AllPublic [] = (λ h. tt, λ h. refl)
  any-AllPublic (x ∷ xs) = ground (arith, any-AllPublic xs)

-- The URL is plain HTTP on its own port, and names no local host.
abbrev pub IsPlain : Url → Text → Type 0
IsPlain url hostname =
    (is_http url ≡ true)
    × (has_credentials url ≡ false)
    × (has_odd_port url ≡ false)
    × (is_local hostname ≡ false)

validate_url_shape_iff :
    (url : Url) (hostname : Text) → (validate_url_shape url hostname ≡ ok tt) ↔ IsPlain url hostname
unfolding validate_url_shape
validate_url_shape_iff url hostname = ground arith

unit_ok : (r : Result (Unit {0})) → ((e : String) × (r ≡ throw e)) ⊎ (r ≡ ok tt)
unit_ok (throw e) = inl (e, refl)
unit_ok (ok tt) = inr refl

finish_target_iff :
    (ip : IpLibrary) (url : Url) (hostname : Text) (answers : List Text) (t : Target)
    → (finish_target ip url hostname answers ≡ ok t) ↔ (
        (answers ≢ [])
        × AllPublic ip answers
        × (record { url = url; hostname = hostname; addresses = distinct [] answers } ≡ t))
unfolding finish_target
finish_target_iff ip url hostname [] t = ground arith
finish_target_iff ip url hostname (a ∷ answers) t =
    let p : Text → Bool = λ x. not (is_public_ip ip x) in
    let same : any p (distinct [] (a ∷ answers)) ≡ any p (a ∷ answers) =
      any-distinct p [] (a ∷ answers) in
    let (sound, complete) = any-AllPublic ip (a ∷ answers) in
    elim (Bool-cases (any p (a ∷ answers))) [
      | inl e ↦
          rw (finish_target, same, e)
            (λ h. ground (arith, h), λ (ne, all, t'). ground (arith, complete all, e))
      | inr e ↦
          rw (finish_target, same, e)
            (λ h. (λ k. ground (arith, k), sound e, cc), λ (ne, all, t'). ap ok t')
    ]

module _ (parse_url : Text → Option Url) (ip : IpLibrary)
    (resolver : Text → Option (List Text)) where
  -- What an accepted target satisfies.
  abbrev pub IsSafe : Text → Target → Type 0
  IsSafe raw_url t =
      (url : Url) × (answers : List Text) × (parse_url raw_url ≡ some url)
      × IsPlain url (normalized_hostname url)
      × (answers_for ip resolver (normalized_hostname url) ≡ ok answers)
      × (answers ≢ [])
      × AllPublic ip answers
      × (record { url = url; hostname = normalized_hostname url; addresses = distinct [] answers }
          ≡ t)

  assert_public_http_url-IsSafe :
      (raw_url : Text) (t : Target)
      → assert_public_http_url parse_url ip resolver raw_url ≡ ok t
      → IsSafe raw_url t
  unfolding assert_public_http_url
  assert_public_http_url-IsSafe raw_url t h = elim (Option-cases (parse_url raw_url)) [
    | inl e ↦ ground (arith, rw (assert_public_http_url, e) at h)
    | inr (url, e) ↦ elim (unit_ok (validate_url_shape url (normalized_hostname url))) [
      | inl (x, f) ↦ ground (arith, rw (assert_public_http_url, e, f) at h)
      | inr f ↦ elim (Result-cases (answers_for ip resolver (normalized_hostname url))) [
        | inl (x, g) ↦ ground (arith, rw (assert_public_http_url, e, f, g) at h)
        | inr (answers, g) ↦
            let (ne, all, same) =
              (finish_target_iff ip url (normalized_hostname url) answers t).0
                (rw (assert_public_http_url, e, f, g) at h) in
            (
              url,
              answers,
              e,
              (validate_url_shape_iff url (normalized_hostname url)).0 f,
              g,
              ne,
              all,
              same,
            )
      ]
    ]
  ]

  IsSafe-assert_public_http_url :
      (raw_url : Text) (t : Target)
      → IsSafe raw_url t
      → assert_public_http_url parse_url ip resolver raw_url ≡ ok t
  unfolding assert_public_http_url
  IsSafe-assert_public_http_url raw_url t (url, answers, e, plain, g, ne, all, same) =
      let f : validate_url_shape url (normalized_hostname url) ≡ ok tt =
        (validate_url_shape_iff url (normalized_hostname url)).1 plain in
      rw (assert_public_http_url, e, f, g)
        ((finish_target_iff ip url (normalized_hostname url) answers t).1 (ne, all, same))

  -- A target is accepted exactly if its URL parses, is plain HTTP on its own port without
  -- credentials, and names no local host, and if its host, or each of the addresses that it resolves
  -- to, of which there is one, is public; the result holds those addresses.
  pub assert_public_http_url_iff :
      (raw_url : Text) (t : Target)
      → (assert_public_http_url parse_url ip resolver raw_url ≡ ok t) ↔ IsSafe raw_url t
  assert_public_http_url_iff raw_url t =
      (assert_public_http_url-IsSafe raw_url t, IsSafe-assert_public_http_url raw_url t)
