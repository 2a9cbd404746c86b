-- ===== src/ScanEngine/Scope/Tests.antt =====
-- A witness of the scope guard, with a table in the place of `new URL`.
use webprobe.Base.{
  String, ◌≡◌, ◌≢◌, ◌↔◌, refl, Option, none, some, [], ◌∷◌, if◌then◌else◌, ◌==◌, string_key, add,
  contains,
}
use webprobe.ScanEngine.Scope.{Url, create, origin_of, allows, allowed, Lists, allows_iff}

abbrev page : String → String → Url
page origin host = record {
  protocol = "https:";
  username = "";
  password = "";
  hostname = host;
  port = "";
  origin = origin;
}

abbrev table : String → Option Url
table raw =
    if raw == "https://a.example/x"
    then some (page "https://a.example" "a.example")
    else if raw == "https://b.example"
    then some (page "https://b.example" "b.example")
    else none

allows_iff_example : (allows table ("https://a.example" ∷ []) "https://b.example" ≡ allowed) ↔ (
    (o : String) × (origin_of table "https://b.example" ≡ some o)
    × (o ≢ "")
    × Lists table o ("https://a.example/x" ∷ []))
allows_iff_example =
    allows_iff table "https://a.example/x" [] ("https://a.example" ∷ []) "https://b.example"
      (unfold create origin_of add contains in refl)
