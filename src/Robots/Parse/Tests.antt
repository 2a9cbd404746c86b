-- ===== src/Robots/Parse/Tests.antt =====
-- A document, and a witness of the bounds.
use webprobe.Base.{◌≤◌, ◌≡◌, refl, ◌⊎◌, true, false, [], ◌∷◌, ◌++◌, All, length, map, contains}
use webprobe.Base.Text.{Text, codes, to_lower}
use webprobe.Base.Value.{is_some}
use webprobe.Robots.Escapes.{unescaped, code_point, normalize_percent_escapes, normalize_from, step}
use webprobe.Robots.Allowed.{byte_length_from, disallow, max_rules, byte_length}
use webprobe.Robots.Parse.{
  max_robots_bytes, parse_robots_txt, read_lines, read_rule, check_rule, split_lines,
}
use webprobe.Robots.Parse.Sound.{IsBounded, parse_robots_txt_bounds}

abbrev lower_ascii : Text → Text
lower_ascii s = map to_lower s

abbrev document : Text
document = codes "User-Agent: * # all" ++ 13 ∷ 10 ∷ codes "Disallow: /private" ++ 10 ∷ codes "Allow"

abbrev agent : Text
agent = codes "AgencyMonitor"

parse_robots_txt_bounds_example :
    (length (parse_robots_txt lower_ascii document agent false).rules ≤ max_rules)
    × All IsBounded (parse_robots_txt lower_ascii document agent false).rules
    × ((is_some (parse_robots_txt lower_ascii document agent false).unavailable_reason ≡ true)
        ⊎ (byte_length document ≤ max_robots_bytes))
parse_robots_txt_bounds_example = parse_robots_txt_bounds lower_ascii document agent false

-- One line end with a carriage return, one without, and a line without a value.
parsed :
    (parse_robots_txt lower_ascii document agent false).rules
    ≡ record { directive = disallow; pattern = codes "/private" } ∷ []
unfolding parse_robots_txt read_lines read_rule check_rule split_lines contains
    normalize_percent_escapes normalize_from step byte_length byte_length_from unescaped code_point
parsed = refl
