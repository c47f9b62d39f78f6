-- ===== src/Catalog/Additions.antt =====
-- src/bims_shopify/ops/catalog.py, `apply_import`: it writes only what the shop does not have.
use bims_shopify.Base.{
  ℕ, ◌+◌, ◌≤◌, min, String, some, List, [], ◌∷◌, count, str_eq, eq_iff, All, All-append, Bool-cases,
  ◌≡◌, subst, arith, inl, inr,
}
use bims_shopify.Titles.{Texts}
use bims_shopify.Catalog.{VariantRow, ProductGroup, option_value_for}
use bims_shopify.Catalog.Counting.{count-append, mem, times, times-append, none→count}
use bims_shopify.Catalog.Grouping.{in_variants}
use bims_shopify.Catalog.Import.{
  Reason, Conflict, Additions, fold_value, add_missing, add_all_missing, conflict_of,
}

-- How many conflicts name one SKU.
abbrev pub in_conflicts : String → List Conflict → ℕ
in_conflicts s cs = count (λ c. str_eq c.sku s) cs

module _ (texts : Texts) where
  -- How many variants have one option value, as the shop compares them.
  abbrev pub with_key : String → List VariantRow → ℕ
  with_key k vs = count (λ v. str_eq (fold_value texts (option_value_for v)) k) vs

  -- The values that a product has and those of the new variants: none is there twice.
  abbrev pub Room : List String → List VariantRow → Type 0
  Room sizes vs = (k : String) → min 1 (times k sizes) + with_key k vs ≤ 1

  -- All that is counted is marked as taken.
  abbrev pub Marked : List String → Additions → Type 0
  Marked sizes st =
      (k : String) → min 1 (times k sizes) + with_key k st.to_add ≤ min 1 (times k st.taken)

  module _ (g : ProductGroup) (p : String) where
    add_missing-Marked :
        (sizes : List String) (v : VariantRow) (st : Additions)
        → Marked sizes st
        → Marked sizes (add_missing texts g p v st)
    unfolding add_missing
    add_missing-Marked sizes v st m k =
        let key = fold_value texts (option_value_for v) in
        elim (Bool-cases (mem key st.taken)) [
          | inl h ↦ rw h (m k)
          | inr h ↦ rw h (
              let z = none→count (λ t. str_eq t key) st.taken h in
              let e = times-append k st.taken (key ∷ []) in
              let f =
                count-append (λ x. str_eq (fold_value texts (option_value_for x)) k) st.to_add
                  (v ∷ []) in
              elim (Bool-cases (str_eq key k)) [
                | inl q ↦
                    let y = subst (λ t. times t st.taken ≡ 0) ((eq_iff key k).0 q) z in
                    ground (arith, m k, e, f, y)
                | inr q ↦ ground (arith, m k, e, f)
              ])
        ]

    pub add_all_missing-Marked :
        (sizes : List String) (vs : List VariantRow) (st : Additions)
        → Marked sizes st
        → Marked sizes (add_all_missing texts g p vs st)
    unfolding add_all_missing
    add_all_missing-Marked sizes [] st m = m
    add_all_missing-Marked sizes (v ∷ vs) st m =
        add_all_missing-Marked sizes vs (add_missing texts g p v st)
          (add_missing-Marked sizes v st m)

    -- What holds of the missing variants holds of those that are added.
    module _ (P : VariantRow → Type 0) where
      add_missing-All :
          (v : VariantRow) (st : Additions)
          → P v
          → All P st.to_add
          → All P (add_missing texts g p v st).to_add
      unfolding add_missing
      add_missing-All v st h a =
          elim (Bool-cases (mem (fold_value texts (option_value_for v)) st.taken)) [
            | inl q ↦ rw q a
            | inr q ↦ rw q (All-append P st.to_add (v ∷ []) a (h, tt))
          ]

      pub add_all_missing-All :
          (vs : List VariantRow) (st : Additions)
          → All P vs
          → All P st.to_add
          → All P (add_all_missing texts g p vs st).to_add
      unfolding add_all_missing
      add_all_missing-All [] st h a = a
      add_all_missing-All (v ∷ vs) st h a =
          add_all_missing-All vs (add_missing texts g p v st) h.1 (add_missing-All v st h.0 a)

    module _ (s : String) where
      add_missing_accounted :
          (v : VariantRow) (st : Additions)
          → let r = add_missing texts g p v st in
            in_variants s r.to_add + in_conflicts s r.conflicts
            ≡ in_variants s st.to_add + in_conflicts s st.conflicts + in_variants s (v ∷ [])
      unfolding add_missing
      add_missing_accounted v st =
          let c = conflict_of texts g (p ∷ []) Reason.size_taken (some p) v in
          elim (Bool-cases (mem (fold_value texts (option_value_for v)) st.taken)) [
            | inl q ↦ rw q (omega (arith, count-append (λ x. str_eq x.sku s) st.conflicts (c ∷ [])))
            | inr q ↦ rw q (omega (arith, count-append (λ x. str_eq x.sku s) st.to_add (v ∷ [])))
          ]

      pub add_all_missing_accounted :
          (vs : List VariantRow) (st : Additions)
          → let r = add_all_missing texts g p vs st in
            in_variants s r.to_add + in_conflicts s r.conflicts
            ≡ in_variants s st.to_add + in_conflicts s st.conflicts + in_variants s vs
      unfolding add_all_missing
      add_all_missing_accounted [] st = omega arith
      add_all_missing_accounted (v ∷ vs) st = ground (
        arith,
        add_all_missing_accounted vs (add_missing texts g p v st),
        add_missing_accounted v st,
      )
