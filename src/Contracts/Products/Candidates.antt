-- ===== src/Contracts/Products/Candidates.antt =====
-- vulnerability-products.ts: the products by which advisories are looked up lose no match.
use webprobe.Base.{
  ◌≡◌, refl, inl, inr, true, List, [], ◌∷◌, arith, ◌==◌, any, contains, contains-add_self,
  contains-add_mono, add, Bool-cases, Option-cases,
}
use webprobe.Base.Text.{Text, text_key}
use webprobe.Contracts.Products.{
  NvdProduct, normalized, is_nvd, correlatable_product_for_observation, distinct_products,
  candidate_nvd_products, nvd_product_matches_observation,
}

module _ (lower_case : Text → Text) where
  kept :
      (p : Text) (seen : List Text) (ns : List NvdProduct)
      → contains p seen ≡ true
      → contains p (distinct_products lower_case seen ns) ≡ true
  kept p seen [] h = h
  kept p seen (n ∷ ns) h = kept p (add n.product seen) ns (contains-add_mono p n.product seen h)

  listed :
      (vendor product : Text) (seen : List Text) (ns : List NvdProduct)
      → any (is_nvd lower_case vendor product) ns ≡ true
      → contains (normalized lower_case product) (distinct_products lower_case seen ns) ≡ true
  listed vendor product seen [] h = ground (arith, h)
  listed vendor product seen (n ∷ ns) h = elim (Bool-cases (is_nvd lower_case vendor product n)) [
    | inl e ↦
        let both : (n.product == normalized lower_case product) ≡ true = ground (arith, e) in
        let same : n.product ≡ normalized lower_case product =
          (text_key.same_iff n.product (normalized lower_case product)).0 both in
        kept (normalized lower_case product) (add n.product seen) ns
          (rw same (contains-add_self (normalized lower_case product) seen))
    | inr e ↦ listed vendor product (add n.product seen) ns (rw e at h)
  ]

  -- An NVD product that matches an observation is among the candidates that it is looked up by.
  pub candidates_complete :
      (vendor product nvd_vendor nvd_product : Text)
      → nvd_product_matches_observation lower_case vendor product nvd_vendor nvd_product ≡ true
      → contains
          (normalized lower_case nvd_product)
          (candidate_nvd_products lower_case vendor product)
        ≡ true
  unfolding nvd_product_matches_observation candidate_nvd_products
  candidates_complete vendor product nvd_vendor nvd_product h =
      elim (Option-cases (correlatable_product_for_observation lower_case vendor product)) [
        | inl e ↦
            let both : (normalized lower_case product == normalized lower_case nvd_product) ≡ true =
              ground (arith, rw (nvd_product_matches_observation, e) at h) in
            rw (candidate_nvd_products, e) (unfold contains in (rw both refl))
        | inr (mapping, e) ↦
            rw (candidate_nvd_products, e)
              (listed nvd_vendor nvd_product [] mapping.nvd_products
                (rw (nvd_product_matches_observation, e) at h))
      ]
