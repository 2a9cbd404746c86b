-- ===== src/Security/Targets.antt =====
-- packages/security/src/index.ts, `assertPublicHttpUrl`.
pub mod Safe
mod Tests
use webprobe.Base.{
  Bool, true, false, not, Option, none, some, List, [], ◌∷◌, any, map, add, Result, throw, ok,
  throw_if, ◌>>◌, ◌>>=◌,
}
use webprobe.Base.Text.{Text, text_key}
use webprobe.Security.Urls.{
  Url, Address, IpLibrary, is_public_ip, normalized_hostname, validate_url_shape,
}

pub record Target : Type 0 where
  pub url : Url
  pub hostname : Text
  pub addresses : List Text

-- `[...new Set(list)]`
pub distinct : List Text → List Text → List Text
distinct seen [] = seen
distinct seen (a ∷ more) = distinct (add a seen) more

abbrev pub is_empty_list : List Text → Bool
is_empty_list [] = true
is_empty_list (a ∷ l) = false

pub finish_target : IpLibrary → Url → Text → List Text → Result Target
finish_target ip url hostname answers =
    throw_if (is_empty_list answers) "dns-empty"
    >> throw_if (any (λ address. not (is_public_ip ip address)) (distinct [] answers))
        "non-public-ip"
    >> ok (record { url = url; hostname = hostname; addresses = distinct [] answers })

-- The DNS answers are given by their addresses; the resolver that rejects is `none`. An address is
-- its own answer, once its kind was read.
unfoldable pub answers_for : IpLibrary → (Text → Option (List Text)) → Text → Result (List Text)
answers_for ip resolver hostname = elim (ip.is_valid hostname) [
  | true ↦ elim (ip.parse hostname) [ none ↦ throw "parse" | some address ↦ ok (hostname ∷ []) ]
  | false ↦ elim (resolver hostname) [ none ↦ throw "dns" | some answers ↦ ok answers ]
]

module _ (parse_url : Text → Option Url) (ip : IpLibrary)
    (resolver : Text → Option (List Text)) where
  pub assert_public_http_url : Text → Result Target
  assert_public_http_url raw_url = elim (parse_url raw_url) [
    | none ↦ throw "url"
    | some url ↦
        validate_url_shape url (normalized_hostname url)
        >> (answers_for ip resolver (normalized_hostname url)
            >>= finish_target ip url (normalized_hostname url))
  ]
