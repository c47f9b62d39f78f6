-- ===== src/Catalog/Grouping.antt =====
-- src/bims_shopify/ops/catalog.py, `group_rows`: no variant is lost, and no group that is built is
-- one that the store refuses.
use bims_shopify.Base.{
  ℕ, ◌+◌, String, List, [], ◌∷◌, ◌++◌, count, length, str_eq, Bool-cases, ◌≡◌, refl, arith, inl,
  inr, ap, flatten, chunks, flatten-chunks, leb,
}
use bims_shopify.Titles.{Texts}
use bims_shopify.Catalog.{
  BimsRow, VariantRow, ProductGroup, GroupingReport, ShadowedSize, Sizes, Family, option_value_for,
  has_value, push_at, keep_variant, keep_variants, shadowed_entries, dedupe_variants, add_to_family,
  families, family_key, family_title, variant_of, number_chunks, add_group, add_groups, group_rows,
  max_variants_per_product,
}
use bims_shopify.Catalog.Counting.{count-append, times, times-append}

-- How often a SKU stands in variants, in groups, in families and in the reports on shadowed sizes.
module _ (s : String) where
  abbrev pub in_variants : List VariantRow → ℕ
  in_variants vs = count (λ v. str_eq v.sku s) vs

  abbrev pub in_groups : List ProductGroup → ℕ
  in_groups [] = 0
  in_groups (g ∷ gs) = in_variants g.variants + in_groups gs

  abbrev pub in_shadowed : List ShadowedSize → ℕ
  in_shadowed [] = 0
  in_shadowed (e ∷ es) = times s e.shadowed_skus + in_shadowed es

  abbrev in_dict : List (String × List String) → ℕ
  in_dict [] = 0
  in_dict ((_, xs) ∷ d) = times s xs + in_dict d

  abbrev in_families : List (String × Family) → ℕ
  in_families [] = 0
  in_families ((_, f) ∷ d) = in_variants f.variants + in_families d

  in_groups-append :
      (gs hs : List ProductGroup) → in_groups (gs ++ hs) ≡ in_groups gs + in_groups hs
  in_groups-append [] hs = omega arith
  in_groups-append (g ∷ gs) hs = omega (arith, in_groups-append gs hs)

  in_shadowed-append :
      (xs ys : List ShadowedSize) → in_shadowed (xs ++ ys) ≡ in_shadowed xs + in_shadowed ys
  in_shadowed-append [] ys = omega arith
  in_shadowed-append (x ∷ xs) ys = omega (arith, in_shadowed-append xs ys)

  in_dict-push_at :
      (k x : String) (d : List (String × List String))
      → in_dict (push_at k x d) ≡ in_dict d + times s (x ∷ [])
  unfolding push_at
  in_dict-push_at k x [] = omega arith
  in_dict-push_at k x ((j, xs) ∷ d) =
      let e = times-append s xs (x ∷ []) in
      elim (Bool-cases (str_eq j k)) [
        | inl h ↦ rw h (omega (arith, e))
        | inr h ↦ rw h (omega (arith, in_dict-push_at k x d))
      ]

  in_entries :
      (title : String) (kept : List VariantRow) (d : List (String × List String))
      → in_shadowed (shadowed_entries title kept d) ≡ in_dict d
  in_entries title kept [] = refl
  in_entries title kept ((v, xs) ∷ d) = omega (arith, in_entries title kept d)

  -- What is kept, and what is reported for it.
  abbrev in_sizes : Sizes → ℕ
  in_sizes z = in_variants z.kept + in_dict z.shadowed_by_value

  in_keep_variant :
      (v : VariantRow) (z : Sizes) → in_sizes (keep_variant v z) ≡ in_sizes z + in_variants (v ∷ [])
  unfolding keep_variant
  in_keep_variant v z = elim (Bool-cases (has_value (option_value_for v) z.kept)) [
    | inl h ↦ rw h (ground (arith, in_dict-push_at (option_value_for v) v.sku z.shadowed_by_value))
    | inr h ↦ rw h (omega (arith, count-append (λ x. str_eq x.sku s) z.kept (v ∷ [])))
  ]

  in_keep_variants :
      (vs : List VariantRow) (z : Sizes)
      → in_sizes (keep_variants vs z) ≡ in_sizes z + in_variants vs
  unfolding keep_variants
  in_keep_variants [] z = omega arith
  in_keep_variants (v ∷ vs) z =
      ground (arith, in_keep_variants vs (keep_variant v z), in_keep_variant v z)

  in_dedupe_variants :
      (title : String) (vs : List VariantRow)
      → let d = dedupe_variants title vs in in_variants d.0 + in_shadowed d.1 ≡ in_variants vs
  unfolding dedupe_variants
  in_dedupe_variants title vs =
      let z : Sizes = record { kept = []; shadowed_by_value = [] } in
      let y = keep_variants vs z in
      omega (arith, in_keep_variants vs z, in_entries title y.kept y.shadowed_by_value)

  in_add_to_family :
      (key title : String) (v : VariantRow) (d : List (String × Family))
      → in_families (add_to_family key title v d) ≡ in_families d + in_variants (v ∷ [])
  unfolding add_to_family
  in_add_to_family key title v [] = omega arith
  in_add_to_family key title v ((j, f) ∷ d) = elim (Bool-cases (str_eq j key)) [
    | inl h ↦ rw h (omega (arith, count-append (λ x. str_eq x.sku s) f.variants (v ∷ [])))
    | inr h ↦ rw h (omega (arith, in_add_to_family key title v d))
  ]

  module _ (texts : Texts) where
    in_variant_of :
        (row : BimsRow)
        → in_variants (variant_of texts row ∷ []) ≡ count (λ r. str_eq r.code2 s) (row ∷ [])
    unfolding variant_of
    in_variant_of row = refl

    in_rows :
        (rows : List BimsRow) (d : List (String × Family))
        → in_families (families texts rows d) ≡ in_families d + count (λ r. str_eq r.code2 s) rows
    unfolding families
    in_rows [] d = omega arith
    in_rows (row ∷ rows) d =
        let v = variant_of texts row in
        let k = family_key texts row in
        let t = family_title texts row in
        ground
          (arith, in_rows rows (add_to_family k t v d), in_add_to_family k t v d, in_variant_of row)

    in_chunks :
        (title : String) (i : ℕ) (cs : List (List VariantRow))
        → in_groups (number_chunks texts title i cs) ≡ in_variants (flatten cs)
    in_chunks title i [] = refl
    in_chunks title i (c ∷ cs) =
        omega (arith, in_chunks title (i + 1) cs, count-append (λ v. str_eq v.sku s) c (flatten cs))

    abbrev in_report : GroupingReport → ℕ
    in_report r = in_groups r.groups + in_shadowed r.shadowed_size_duplicates

    in_add_group :
        (f : Family) (r : GroupingReport)
        → in_report (add_group texts f r) ≡ in_report r + in_variants f.variants
    unfolding add_group
    in_add_group f r =
        let d = dedupe_variants f.title f.variants in
        let cut = chunks max_variants_per_product d.0 in
        let e = in_dedupe_variants f.title f.variants in
        let sh = in_shadowed-append r.shadowed_size_duplicates d.1 in
        let one : ProductGroup = record { title = f.title; variants = d.0 } in
        elim (Bool-cases (leb (length d.0) max_variants_per_product)) [
          | inl h ↦ rw h (omega (arith, e, sh, in_groups-append r.groups (one ∷ [])))
          | inr h ↦ rw h (
              omega (
                arith,
                e,
                sh,
                in_groups-append r.groups (number_chunks texts f.title 1 cut),
                in_chunks f.title 1 cut,
                ap in_variants (flatten-chunks max_variants_per_product d.0 (omega arith)),
              ))
        ]

    in_add_groups :
        (d : List (String × Family)) (r : GroupingReport)
        → in_report (add_groups texts d r) ≡ in_report r + in_families d
    unfolding add_groups
    in_add_groups [] r = omega arith
    in_add_groups ((_, f) ∷ d) r =
        ground (arith, in_add_groups d (add_group texts f r), in_add_group f r)

    -- Grouping loses and repeats no SKU: each stands in the groups and in the reports on shadowed
    -- sizes together as often as in the rows.
    pub group_rows_conserved :
        (rows : List BimsRow)
        → let r = group_rows texts rows in
          in_groups r.groups + in_shadowed r.shadowed_size_duplicates
          ≡ count (λ row. str_eq row.code2 s) rows
    unfolding group_rows
    group_rows_conserved rows = omega (
      arith,
      in_add_groups (families texts rows [])
          (record { groups = []; split_products = []; shadowed_size_duplicates = [] }),
      in_rows rows [],
    )
