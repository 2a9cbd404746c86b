-- ===== src/Contracts/Versions/Tests.antt =====
-- Witnesses of the order of versions.
use webprobe.Base.{◌≡◌, refl, some}
use webprobe.Base.Text.{codes, split_on}
use webprobe.Contracts.Versions.{compare_versions, parse_numeric_version, less}
use webprobe.Contracts.Versions.Order.{order_of, value_of, compare_versions_lem}

first_second : compare_versions (codes "8.2.9") (codes "8.2.10") ≡ some less
unfolding compare_versions parse_numeric_version split_on
first_second = refl

second_third : compare_versions (codes "8.2.10") (codes "8.10.0") ≡ some less
unfolding compare_versions parse_numeric_version split_on
second_third = refl

compare_versions_lem_example :
    compare_versions (codes "8.2.9") (codes "8.10.0")
    ≡ order_of (value_of (codes "8.2.9")) (value_of (codes "8.10.0"))
compare_versions_lem_example = compare_versions_lem (codes "8.2.9") (codes "8.10.0")
