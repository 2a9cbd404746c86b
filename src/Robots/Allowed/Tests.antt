-- ===== src/Robots/Allowed/Tests.antt =====
-- A run and a witness of the decision on a path.
use webprobe.Base.{All, ◌≤◌, ◌≡◌, refl, true, none, some, [], ◌∷◌, length}
use webprobe.Base.Text.{Text, codes}
use webprobe.Robots.Glob.{rule_matches, rule_loop, skip_stars}
use webprobe.Robots.Escapes.{
  normalize_percent_escapes, normalize_from, step, escaped, unescaped, code_point, percent,
}
use webprobe.Robots.Allowed.{
  allow, disallow, RobotsPolicy, Url, byte_length, byte_length_from, normalized_target, winner_of,
  is_robots_path_allowed,
}
use webprobe.Robots.Allowed.Longest.{Beaten, winner_of_longest}
use webprobe.Robots.Allowed.Closed.{IsTarget, IsModest, IsHarmless, is_robots_path_allowed_lem}

abbrev shop : RobotsPolicy
shop = record {
  rules =
      record { directive = disallow; pattern = codes "/cart" }
      ∷ record { directive = allow; pattern = codes "/cart/help" }
      ∷ [];
  sitemaps = [];
  unavailable_reason = none;
}

abbrev help : Url
help = record { pathname = codes "/cart/help"; search = [] }

help_allowed : is_robots_path_allowed shop help ≡ true
unfolding is_robots_path_allowed normalized_target byte_length byte_length_from
    normalize_percent_escapes normalize_from step escaped unescaped code_point percent winner_of
    rule_matches rule_loop skip_stars
help_allowed = refl

is_robots_path_allowed_lem_example :
    (shop.unavailable_reason ≡ none)
    × (length shop.rules ≤ 1024)
    × All IsModest shop.rules
    × ((target : Text) × IsTarget help target × All (IsHarmless shop.rules target) shop.rules)
is_robots_path_allowed_lem_example = is_robots_path_allowed_lem shop help help_allowed

help_winner :
    winner_of (codes "/cart/help") shop.rules 100 none
    ≡ some (some (record { directive = allow; pattern = codes "/cart/help" }))
unfolding winner_of byte_length byte_length_from rule_matches rule_loop skip_stars
help_winner = refl

winner_of_longest_example :
    All
      (Beaten
        (codes "/cart/help")
        (some (record { directive = allow; pattern = codes "/cart/help" })))
      shop.rules
winner_of_longest_example =
    winner_of_longest (codes "/cart/help") shop.rules 100 none
      (some (record { directive = allow; pattern = codes "/cart/help" })) help_winner
