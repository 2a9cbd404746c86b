-- ===== src/Security/Urls.antt =====
-- packages/security/src/index.ts: hosts of parsed URLs, and IP addresses. The parsing of URLs and the
-- library ipaddr.js are parameters of the modules that use these.
use webprobe.Base.{
  Bool, false, not, ◌&&◌, ◌||◌, Option, none, some, List, [], ◌∷◌, map, if◌then◌else◌, ◌==◌, any,
  Result, throw_if, ◌>>◌,
}
use webprobe.Base.Text.{
  Text, codes, to_lower, text_key, begins, ends_with, drop_last, drop_first, is_empty,
}

-- What the code reads of a `URL`; its hostname is ASCII.
pub record Url : Type 0 where
  pub protocol : Text
  pub username : Text
  pub password : Text
  pub hostname : Text
  pub port : Text
  pub pathname : Text
  pub search : Text
  pub hash : Text
  pub origin : Text

-- A parsed address, by its range; an IPv6 address may carry an IPv4 one, of a range of its own.
pub data Address : Type 0 where
  ipv4 : Text → Address
  ipv6 : Text → Option Text → Address

pub record IpLibrary : Type 0 where
  pub is_valid : Text → Bool
  pub parse : Text → Option Address

abbrev pub is_unicast : Text → Bool
is_unicast range = range == codes "unicast"

unfoldable pub is_public_ip : IpLibrary → Text → Bool
is_public_ip ip address = elim (ip.parse address) [
  | none ↦ false
  | some (ipv4 range) ↦ is_unicast range
  | some (ipv6 range none) ↦ is_unicast range
  | some (ipv6 range (some mapped)) ↦ is_unicast mapped
]

-- `replace(/\.$/, "")`
abbrev pub without_dot : Text → Text
without_dot s = if ends_with (codes ".") s then drop_last s else s

abbrev pub without_brackets : Text → Text
without_brackets s =
    if begins (codes "[") s && ends_with (codes "]") s then drop_last (drop_first s) else s

unfoldable pub normalized_hostname : Url → Text
normalized_hostname url = without_brackets (without_dot (map to_lower url.hostname))

abbrev pub is_http : Url → Bool
is_http url = url.protocol == codes "http:" || url.protocol == codes "https:"

abbrev pub expected_port : Url → Text
expected_port url = if url.protocol == codes "https:" then codes "443" else codes "80"

abbrev pub blocked_host_suffixes : List Text
blocked_host_suffixes = codes ".localhost" ∷ codes ".local" ∷ codes ".internal" ∷ codes ".lan" ∷ []

unfoldable pub is_local : Text → Bool
is_local hostname =
    hostname == codes "localhost" || any (λ suffix. ends_with suffix hostname) blocked_host_suffixes

abbrev pub has_credentials : Url → Bool
has_credentials url = not (is_empty url.username) || not (is_empty url.password)

abbrev pub has_odd_port : Url → Bool
has_odd_port url = not (is_empty url.port) && not (url.port == expected_port url)

unfoldable pub validate_url_shape : Url → Text → Result (Unit {0})
validate_url_shape url hostname =
    throw_if (not (is_http url)) "scheme"
    >> throw_if (has_credentials url) "credentials"
    >> throw_if (has_odd_port url) "port"
    >> throw_if (is_local hostname) "hostname"
