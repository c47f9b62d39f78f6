-- ===== src/Catalog/Accepted.antt =====
-- src/bims_shopify/ops/catalog.py, `group_rows`: what the store asks of a product. At most 100
-- variants, and no two variants with one option value.
use bims_shopify.Base.{
  ℕ, ◌+◌, ◌≤◌, String, List, [], ◌∷◌, count, length, str_eq, eq_iff, All, All-append, Bool-cases,
  ◌≡◌, subst, sym, arith, inl, inr, flatten, chunks, flatten-chunks, chunks_fuel-All, leb, leb→le,
}
use bims_shopify.Titles.{Texts}
use bims_shopify.Catalog.{
  BimsRow, VariantRow, ProductGroup, GroupingReport, Sizes, Family, option_value_for, has_value,
  keep_variant, keep_variants, dedupe_variants, families, number_chunks, add_group, add_groups,
  group_rows, max_variants_per_product,
}
use bims_shopify.Catalog.Counting.{count-append, none→count}

-- How many variants have one option value.
abbrev pub with_value : String → List VariantRow → ℕ
with_value w vs = count (λ v. str_eq (option_value_for v) w) vs

abbrev pub DistinctValues : List VariantRow → Type 0
DistinctValues vs = (w : String) → with_value w vs ≤ 1

abbrev pub Accepted : ProductGroup → Type 0
Accepted g = (length g.variants ≤ max_variants_per_product) × DistinctValues g.variants

keep_variant-DistinctValues :
    (v : VariantRow) (z : Sizes) → DistinctValues z.kept → DistinctValues (keep_variant v z).kept
unfolding keep_variant
keep_variant-DistinctValues v z d w = elim (Bool-cases (has_value (option_value_for v) z.kept)) [
  | inl h ↦ rw h (d w)
  | inr h ↦ rw h (
      let e = count-append (λ x. str_eq (option_value_for x) w) z.kept (v ∷ []) in
      let n = none→count (λ x. str_eq (option_value_for x) (option_value_for v)) z.kept h in
      elim (Bool-cases (str_eq (option_value_for v) w)) [
        | inl k ↦
            let m = subst (λ y. with_value y z.kept ≡ 0) ((eq_iff (option_value_for v) w).0 k) n in
            ground (arith, e, m)
        | inr k ↦ ground (arith, e, d w)
      ])
]

keep_variants-DistinctValues :
    (vs : List VariantRow) (z : Sizes)
    → DistinctValues z.kept
    → DistinctValues (keep_variants vs z).kept
unfolding keep_variants
keep_variants-DistinctValues [] z d = d
keep_variants-DistinctValues (v ∷ vs) z d =
    keep_variants-DistinctValues vs (keep_variant v z) (keep_variant-DistinctValues v z d)

pub dedupe_variants-DistinctValues :
    (title : String) (vs : List VariantRow) → DistinctValues (dedupe_variants title vs).0
unfolding dedupe_variants
dedupe_variants-DistinctValues title vs =
    keep_variants-DistinctValues vs (record { kept = []; shadowed_by_value = [] })
      (λ w. omega arith)

module _ (texts : Texts) where
  number_chunks-Accepted :
      (title : String) (i : ℕ) (cs : List (List VariantRow))
      → All (λ c. length c ≤ max_variants_per_product) cs
      → DistinctValues (flatten cs)
      → All Accepted (number_chunks texts title i cs)
  number_chunks-Accepted title i [] a d = tt
  number_chunks-Accepted title i (c ∷ cs) a d =
      let e = λ (w : String). count-append (λ v. str_eq (option_value_for v) w) c (flatten cs) in
      (
        (a.0, λ w. omega (arith, d w, e w)),
        number_chunks-Accepted title (i + 1) cs a.1 (λ w. omega (arith, d w, e w)),
      )

  add_group-Accepted :
      (f : Family) (r : GroupingReport)
      → All Accepted r.groups
      → All Accepted (add_group texts f r).groups
  unfolding add_group
  add_group-Accepted f r a =
      let d = dedupe_variants f.title f.variants in
      let distinct = dedupe_variants-DistinctValues f.title f.variants in
      let cut = chunks max_variants_per_product d.0 in
      let one : ProductGroup = record { title = f.title; variants = d.0 } in
      elim (Bool-cases (leb (length d.0) max_variants_per_product)) [
        | inl h ↦ rw h (
            All-append Accepted r.groups (one ∷ []) a
              ((leb→le (length d.0) max_variants_per_product h, distinct), tt))
        | inr h ↦ rw h (
            All-append Accepted r.groups (number_chunks texts f.title 1 cut) a (
              number_chunks-Accepted f.title 1 cut
                (chunks_fuel-All (length d.0) max_variants_per_product d.0)
                (subst DistinctValues
                  (sym (flatten-chunks max_variants_per_product d.0 (omega arith))) distinct)))
      ]

  add_groups-Accepted :
      (d : List (String × Family)) (r : GroupingReport)
      → All Accepted r.groups
      → All Accepted (add_groups texts d r).groups
  unfolding add_groups
  add_groups-Accepted [] r a = a
  add_groups-Accepted ((_, f) ∷ d) r a =
      add_groups-Accepted d (add_group texts f r) (add_group-Accepted f r a)

  -- Every group that is built is one that the store accepts: it has at most 100 variants, and no
  -- two with one option value.
  pub group_rows-Accepted : (rows : List BimsRow) → All Accepted (group_rows texts rows).groups
  unfolding group_rows
  group_rows-Accepted rows =
      add_groups-Accepted (families texts rows [])
        (record { groups = []; split_products = []; shadowed_size_duplicates = [] }) tt
