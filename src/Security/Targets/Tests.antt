-- ===== src/Security/Targets/Tests.antt =====
-- A witness of the targets: a table of one URL, one address and one range.
use webprobe.Base.{
  add, contains, ◌≡◌, ◌↔◌, refl, Option, none, some, List, [], ◌∷◌, if◌then◌else◌, ◌==◌, ok,
}
use webprobe.Base.Text.{Text, codes, text_key}
use webprobe.Security.Urls.{
  normalized_hostname, validate_url_shape, is_local, is_public_ip, Url, ipv4, IpLibrary,
}
use webprobe.Security.Targets.{finish_target, distinct, answers_for, Target, assert_public_http_url}
use webprobe.Security.Targets.Safe.{IsSafe, assert_public_http_url_iff}

abbrev home : Url
home = record {
  protocol = codes "https:";
  username = [];
  password = [];
  hostname = codes "Example.org.";
  port = [];
  pathname = codes "/";
  search = [];
  hash = [];
  origin = codes "https://example.org.";
}

abbrev parse_home : Text → Option Url
parse_home s = if s == codes "https://Example.org." then some home else none

abbrev one_range : IpLibrary
one_range = record {
  is_valid = λ s. s == codes "93.184.216.34";
  parse = λ s. if s == codes "93.184.216.34" then some (ipv4 (codes "unicast")) else none;
}

abbrev resolve_home : Text → Option (List Text)
resolve_home s = if s == codes "example.org" then some (codes "93.184.216.34" ∷ []) else none

abbrev target : Target
target = record {
  url = home;
  hostname = codes "example.org";
  addresses = codes "93.184.216.34" ∷ [];
}

assert_public_http_url_iff_example :
    (assert_public_http_url parse_home one_range resolve_home (codes "https://Example.org.")
      ≡ ok target)
    ↔ IsSafe parse_home one_range resolve_home (codes "https://Example.org.") target
assert_public_http_url_iff_example =
    assert_public_http_url_iff parse_home one_range resolve_home (codes "https://Example.org.")
      target

accepted :
    assert_public_http_url parse_home one_range resolve_home (codes "https://Example.org.")
    ≡ ok target
unfolding assert_public_http_url finish_target distinct add contains answers_for normalized_hostname
    validate_url_shape is_local is_public_ip
accepted = refl
