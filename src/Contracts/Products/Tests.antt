-- ===== src/Contracts/Products/Tests.antt =====
-- A witness of the candidates, over ASCII texts.
use webprobe.Base.{◌≡◌, refl, true, map, contains}
use webprobe.Base.Text.{Text, codes, to_lower, text_key}
use webprobe.Contracts.Products.{
  normalized, nvd_product_matches_observation, correlatable_product_for_observation,
  candidate_nvd_products,
}
use webprobe.Contracts.Products.Candidates.{candidates_complete}

abbrev lower_ascii : Text → Text
lower_ascii s = map to_lower s

joomla_matches :
    nvd_product_matches_observation lower_ascii
      (codes "joomla")
      (codes "Joomla")
      (codes "Joomla")
      (codes " joomla!")
    ≡ true
unfolding nvd_product_matches_observation correlatable_product_for_observation
joomla_matches = refl

candidates_complete_example :
    contains
      (normalized lower_ascii (codes " joomla!"))
      (candidate_nvd_products lower_ascii (codes "joomla") (codes "Joomla"))
    ≡ true
candidates_complete_example =
    candidates_complete lower_ascii (codes "joomla") (codes "Joomla") (codes "Joomla")
      (codes " joomla!") joomla_matches
