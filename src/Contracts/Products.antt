-- ===== src/Contracts/Products.antt =====
-- packages/contracts/src/vulnerability-products.ts: which NVD products stand for an observed one.
-- `toLowerCase` needs the Unicode tables, so it is the parameter `lower_case`.
pub mod Candidates
mod Tests
use webprobe.Base.{
  ℕ, Bool, true, false, ◌&&◌, ◌||◌, Option, none, some, List, [], ◌∷◌, map, if◌then◌else◌, ◌==◌,
  eqb, leb, any, find, add,
}
use webprobe.Base.Text.{Text, codes, text_key}

pub record NvdProduct : Type 0 where
  pub vendor : Text
  pub product : Text

pub record CorrelatableProduct : Type 0 where
  pub key : Text
  pub observation_vendor : Text
  pub observation_product : Text
  pub nvd_products : List NvdProduct
  pub virtual_match_string : Text

abbrev nvd : Text → Text → NvdProduct
nvd vendor product = record { vendor = vendor; product = product }

abbrev correlatable : Text → Text → Text → List NvdProduct → Text → CorrelatableProduct
correlatable key vendor product nvd_products virtual = record {
  key = key;
  observation_vendor = vendor;
  observation_product = product;
  nvd_products = nvd_products;
  virtual_match_string = virtual;
}

abbrev pub products : List CorrelatableProduct
products =
    correlatable (codes "php:php") (codes "php") (codes "php")
      (nvd (codes "php") (codes "php") ∷ []) (codes "cpe:2.3:a:php:php:*:*:*:*:*:*:*:*")
    ∷ correlatable (codes "apache:http_server") (codes "apache") (codes "http_server")
        (nvd (codes "apache") (codes "http_server") ∷ [])
        (codes "cpe:2.3:a:apache:http_server:*:*:*:*:*:*:*:*")
    ∷ correlatable (codes "nginx:nginx") (codes "nginx") (codes "nginx")
        (nvd (codes "f5") (codes "nginx") ∷ nvd (codes "nginx") (codes "nginx") ∷ [])
        (codes "cpe:2.3:a:f5:nginx:*:*:*:*:*:*:*:*")
    ∷ correlatable (codes "wordpress:wordpress") (codes "wordpress") (codes "wordpress")
        (nvd (codes "wordpress") (codes "wordpress") ∷ [])
        (codes "cpe:2.3:a:wordpress:wordpress:*:*:*:*:*:*:*:*")
    ∷ correlatable (codes "drupal:drupal") (codes "drupal") (codes "drupal")
        (nvd (codes "drupal") (codes "drupal") ∷ [])
        (codes "cpe:2.3:a:drupal:drupal:*:*:*:*:*:*:*:*")
    ∷ correlatable (codes "joomla:joomla") (codes "joomla") (codes "joomla")
        (nvd (codes "joomla") (codes "joomla!") ∷ [])
        (codes "cpe:2.3:a:joomla:joomla\\!:*:*:*:*:*:*:*:*")
    ∷ correlatable (codes "vercel:next.js") (codes "vercel") (codes "next.js")
        (nvd (codes "vercel") (codes "next.js") ∷ [])
        (codes "cpe:2.3:a:vercel:next.js:*:*:*:*:*:*:*:*")
    ∷ []

-- The white space and line ends that `trim` removes.
abbrev pub is_space : ℕ → Bool
is_space c =
    leb 9 c && leb c 13
    || eqb c 32
    || eqb c 160
    || eqb c 0x1680
    || leb 0x2000 c && leb c 0x200A
    || eqb c 0x2028
    || eqb c 0x2029
    || eqb c 0x202F
    || eqb c 0x205F
    || eqb c 0x3000
    || eqb c 0xFEFF

abbrev pub trim_start : Text → Text
trim_start [] = []
trim_start (c ∷ s) = if is_space c then trim_start s else c ∷ s

abbrev pub push_unless_end : ℕ → Text → Text
push_unless_end c [] = if is_space c then [] else c ∷ []
push_unless_end c (d ∷ s) = c ∷ d ∷ s

abbrev pub trim_end : Text → Text
trim_end [] = []
trim_end (c ∷ s) = push_unless_end c (trim_end s)

abbrev pub trim : Text → Text
trim s = trim_end (trim_start s)

module _ (lower_case : Text → Text) where
  abbrev pub normalized : Text → Text
  normalized s = lower_case (trim s)

  abbrev pub is_observation : Text → Text → CorrelatableProduct → Bool
  is_observation vendor product c =
      c.observation_vendor == normalized vendor && c.observation_product == normalized product

  unfoldable pub correlatable_product_for_observation : Text → Text → Option CorrelatableProduct
  correlatable_product_for_observation vendor product =
      find (is_observation vendor product) products

  abbrev pub is_nvd : Text → Text → NvdProduct → Bool
  is_nvd vendor product n = n.vendor == normalized vendor && n.product == normalized product

  pub is_supported_nvd_product : Text → Text → Bool
  is_supported_nvd_product vendor product =
      any (λ c. any (is_nvd vendor product) c.nvd_products) products

  -- `new Set(...)`: every product once, in order.
  abbrev pub distinct_products : List Text → List NvdProduct → List Text
  distinct_products seen [] = seen
  distinct_products seen (n ∷ ns) = distinct_products (add n.product seen) ns

  pub candidate_nvd_products : Text → Text → List Text
  candidate_nvd_products vendor product =
      elim (correlatable_product_for_observation vendor product) [
        | none ↦ normalized product ∷ []
        | some mapping ↦ distinct_products [] mapping.nvd_products
      ]

  unfoldable pub nvd_product_matches_observation : Text → Text → Text → Text → Bool
  nvd_product_matches_observation vendor product nvd_vendor nvd_product =
      elim (correlatable_product_for_observation vendor product) [
        | none ↦
            normalized vendor == normalized nvd_vendor
            && normalized product == normalized nvd_product
        | some mapping ↦ any (is_nvd nvd_vendor nvd_product) mapping.nvd_products
      ]
