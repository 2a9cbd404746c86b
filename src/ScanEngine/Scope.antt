-- ===== src/ScanEngine/Scope.antt =====
-- apps/worker/src/scan-engine/scope-guard.ts: the origins that a scan may touch.
-- `new URL` is not code of the repository: it is the parameter `parse_url`, `none` where it throws.
mod Tests
use text.Mathlib.TextEquality.{eq_iff}
use webprobe.Base.{
  ◌≢◌, contains-add, String, Bool, true, false, not, ◌&&◌, ◌||◌, Option, none, some, List, [], ◌∷◌,
  map, if◌then◌else◌, ◌==◌, string_key, contains, add, any, Result, ok, throw, ◌>>=◌, ◌>>◌,
  throw_if, ◌≡◌, refl, ◌↔◌, ◌⊎◌, inl, inr, arith, Bool-cases, Option-cases,
}
use webprobe.Base.Value.{is_some}

-- The parts of a URL that the modelled code reads.
pub record Url : Type 0 where
  pub protocol : String
  pub username : String
  pub password : String
  pub hostname : String
  pub port : String
  pub origin : String

pub data ScopeDecision : Type 0 where
  allowed : ScopeDecision
  invalid_url outside_scope : ScopeDecision

module _ (parse_url : String → Option Url) where
  unfoldable pub origin_of : String → Option String
  origin_of raw_url = elim (parse_url raw_url) [
    | none ↦ none
    | some url ↦
        if not (url.protocol == "http:") && not (url.protocol == "https:")
          || not (url.username == "")
          || not (url.password == "")
        then none
        else some url.origin
  ]

  -- `new Set(origins)`, once none of them is null.
  abbrev pub origin_set : List (Option String) → List String → List String
  origin_set [] seen = seen
  origin_set (none ∷ os) seen = origin_set os seen
  origin_set (some o ∷ os) seen = origin_set os (add o seen)

  -- The constructor: the set of origins, or "Invalid scan scope".
  pub create : String → List String → Result (List String)
  create canonical_url additional_origins = do
    let origins = map origin_of (canonical_url ∷ additional_origins)
    throw_if (any (λ o. not (is_some o)) origins) "Invalid scan scope"
    ok (origin_set origins [])

  -- `if (!origin)`: an empty origin counts as none.
  unfoldable pub allows : List String → String → ScopeDecision
  allows origins raw_url = elim (origin_of raw_url) [
    | none ↦ invalid_url
    | some origin ↦
        if origin == ""
        then invalid_url
        else if contains origin origins
        then allowed
        else outside_scope
  ]

  pub allows_redirect : List String → String → String → ScopeDecision
  allows_redirect origins from to = elim (allows origins from) [
    | allowed ↦ allows origins to
    | refused ↦ refused
  ]

  -- Some of the URLs has this origin.
  abbrev pub Lists : String → List String → Type 0
  Lists o [] = ⊥
  Lists o (u ∷ us) = (origin_of u ≡ some o) ⊎ Lists o us

  contains-origin_set :
      (o : String) (us seen : List String)
      → any (λ x. not (is_some x)) (map origin_of us) ≡ false
      → (contains o (origin_set (map origin_of us) seen) ≡ true)
        ↔ ((contains o seen ≡ true) ⊎ Lists o us)
  contains-origin_set o [] seen h = ground arith
  contains-origin_set o (u ∷ us) seen h = elim (Option-cases (origin_of u)) [
    | inl missing ↦ absurd (ground arith)
    | inr (p, e) ↦
        let (to, from) = contains-origin_set o us (add p seen) (ground arith) in
        let added = contains-add o p seen in
        rw e (
          λ c. ground (arith, to c, added, eq_iff p o),
          λ c. from (ground (arith, added, eq_iff p o)),
        )
  ]

  create_made :
      (urls : List String) (canonical_url : String) (more origins : List String)
      → urls ≡ canonical_url ∷ more
      → create canonical_url more ≡ ok origins
      → (any (λ x. not (is_some x)) (map origin_of urls) ≡ false)
        × (origin_set (map origin_of urls) [] ≡ origins)
  unfolding create
  create_made urls c more origins all_urls made =
      rw all_urls (elim (Bool-cases (any (λ x. not (is_some x)) (map origin_of (c ∷ more)))) [
        | inl bad ↦ cc (rw bad at made)
        | inr good ↦ (good, cc (rw good at made))
      ])

  allows_lem :
      (origins : List String) (raw_url : String)
      → (allows origins raw_url ≡ allowed)
        ↔ ((o : String) × (origin_of raw_url ≡ some o) × (o ≢ "") × (contains o origins ≡ true))
  unfolding allows
  allows_lem origins raw_url = elim (Option-cases (origin_of raw_url)) [
    | inl missing ↦ rw missing (λ e. cc, λ (o, e, _, _). cc)
    | inr (o, e) ↦ rw e (
      λ a. (o, refl, ground (arith, eq_iff o ""), ground (arith, eq_iff o "")),
      λ (p, same, given, listed). ground (arith, eq_iff o ""),
    )
  ]

  -- A guard that could be made lets a URL pass exactly if the URL has an origin, and one of the URLs
  -- that the guard was made of has the same.
  pub allows_iff :
      (canonical_url : String) (additional_origins origins : List String) (raw_url : String)
      → create canonical_url additional_origins ≡ ok origins
      → (allows origins raw_url ≡ allowed) ↔ (
          (o : String) × (origin_of raw_url ≡ some o)
          × (o ≢ "")
          × Lists o (canonical_url ∷ additional_origins))
  allows_iff c more origins raw_url made =
      let (good, same) = create_made (c ∷ more) c more origins refl made in
      let (to, from) = allows_lem origins raw_url in
      (
        λ a.
            let (o, e, given, listed) = to a in
            (
              o,
              e,
              given,
              elim ((contains-origin_set o (c ∷ more) [] good).0 (rw same listed)) [
                | inl old ↦ absurd (unfold contains in (cc old))
                | inr l ↦ l
              ],
            ),
        λ (o, e, given, l).
            from (o, e, given, rw same at ((contains-origin_set o (c ∷ more) [] good).1 (inr l))),
      )

  -- A redirect passes exactly if both of its ends do.
  pub allows_redirect_iff :
      (origins : List String) (from to : String)
      → (allows_redirect origins from to ≡ allowed)
        ↔ ((allows origins from ≡ allowed) × (allows origins to ≡ allowed))
  unfolding allows_redirect
  allows_redirect_iff origins from to = ground arith
