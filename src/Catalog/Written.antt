-- ===== src/Catalog/Written.antt =====
-- src/bims_shopify/ops/catalog.py, `apply_import`: what a whole run writes, and that no variant of a
-- group drops out of its plan.
use bims_shopify.Base.{
  ◌+◌, String, Bool, true, false, not, Option, none, some, List, [], ◌∷◌, map, all, select, str_eq,
  eq_iff, All, All-append, All-imp, selected-All, Result-cases, Bool-cases, ◌≡◌, refl, subst, ◌≢◌,
  arith, inl, inr,
}
use bims_shopify.Titles.{Texts}
use bims_shopify.Catalog.{VariantRow, ProductGroup}
use bims_shopify.Catalog.Counting.{mem}
use bims_shopify.Catalog.Grouping.{in_variants}
use bims_shopify.Catalog.Additions.{
  in_conflicts, Room, add_all_missing-Marked, add_all_missing-All, add_all_missing_accounted,
}
use bims_shopify.Catalog.Import.{
  ExistingCatalogIndex, ImportResult, Reason, Conflict, Additions, AdditionPlan, Shop, Write,
  new_product, new_variants, present_of, products_of, sizes_of, group_skus, missing_of, conflict_of,
  add_all_missing, plan_for_product, plan_for_products, plan_variant_additions, carry_out,
  import_present, import_with, import_one, import_from, apply_import, add_outcome,
}

in_conflicts-map :
    (texts : Texts) (s : String) (g : ProductGroup) (ps : List String) (r : Reason)
    (p : Option String) (vs : List VariantRow)
    → in_conflicts s (map (conflict_of texts g ps r p) vs) ≡ in_variants s vs
in_conflicts-map texts s g ps r p [] = refl
in_conflicts-map texts s g ps r p (v ∷ vs) = ground (arith, in_conflicts-map texts s g ps r p vs)

mem-select :
    (p : String → Bool) (s : String) (xs : List String)
    → mem s xs ≡ true
    → p s ≡ true
    → mem s (select p xs) ≡ true
mem-select p s [] h k = ground arith
mem-select p s (x ∷ xs) h k = elim (Bool-cases (str_eq x s)) [
  | inl e ↦ let e' = (eq_iff x s).0 e in ground (arith, e', k, eq_iff x s)
  | inr e ↦ ground (arith, mem-select p s xs, e)
]

-- The SKUs of a group are those of its variants.
skus_listed :
    (vs : List VariantRow) (ws : List String)
    → ((s : String) → mem s (map (λ v. v.sku) vs) ≡ true → mem s ws ≡ true)
    → All (λ v. mem v.sku ws ≡ true) vs
skus_listed [] ws h = tt
skus_listed (v ∷ vs) ws h = (
  h v.sku (ground (arith, eq_iff v.sku v.sku)),
  skus_listed vs ws (λ s k. h s (ground (arith, k))),
)

-- A variant of a group that the shop has is among the group's present SKUs.
present_of_complete :
    (existing : List String) (g : ProductGroup)
    → All (λ v. mem v.sku (present_of existing g) ≡ false → mem v.sku existing ≡ false) g.variants
present_of_complete existing g =
    All-imp (λ v. mem v.sku (group_skus g) ≡ true)
      (λ v. mem v.sku (present_of existing g) ≡ false → mem v.sku existing ≡ false) g.variants
      (λ v m h. elim (Bool-cases (mem v.sku existing)) [
        | inl e ↦ let k = mem-select (λ s. mem s existing) v.sku (group_skus g) m e in absurd (cc)
        | inr e ↦ e
      ])
      (skus_listed g.variants (group_skus g) (λ s h. h))

missing_of-New :
    (texts : Texts) (existing : List String) (g : ProductGroup)
    → All (λ v. mem v.sku existing ≡ false) (missing_of texts (present_of existing g) g)
missing_of-New texts existing g =
    selected-All (λ v. mem v.sku existing ≡ false) (λ v. not (mem v.sku (present_of existing g)))
      g.variants
      (All-imp (λ v. mem v.sku (present_of existing g) ≡ false → mem v.sku existing ≡ false)
        (λ v. not (mem v.sku (present_of existing g)) ≡ true → mem v.sku existing ≡ false)
        g.variants (λ v h k. h (ground (arith, k))) (present_of_complete existing g))

module _ (texts : Texts) where
  -- What is known of a write when the shop has the SKUs `existing`.
  abbrev pub Fresh : List String → Option ExistingCatalogIndex → Write → Type 0
  Fresh existing index (new_product g) = All (λ v. mem v.sku existing ≡ false) g.variants
  Fresh existing none (new_variants p vs) = ⊥
  Fresh existing (some index) (new_variants p vs) =
      All (λ v. mem v.sku existing ≡ false) vs
      × ((sizes : List String) × (sizes_of index p ≡ some sizes) × Room texts sizes vs)

  -- A plan that names a product and variants has what a write needs.
  abbrev Sound : List String → ExistingCatalogIndex → AdditionPlan → Type 0
  Sound existing index plan =
      (p : String)
      → plan.product_id ≡ some p
      → plan.to_add ≢ []
      → Fresh existing (some index) (new_variants p plan.to_add)

  module _ (existing : List String) (index : ExistingCatalogIndex) (g : ProductGroup) where
    plan_for_product-Sound :
        (p : String) (o : Option (List String)) (missing : List VariantRow)
        → sizes_of index p ≡ o
        → All (λ v. mem v.sku existing ≡ false) missing
        → Sound existing index (plan_for_product texts g p o missing)
    plan_for_product-Sound p none missing e a q h n = absurd (n refl)
    plan_for_product-Sound p (some sizes) missing e a q h n =
        let st : Additions = record { taken = sizes; to_add = []; conflicts = [] } in
        let r = add_all_missing texts g p missing st in
        let marked = add_all_missing-Marked texts g p sizes missing st (λ k. omega arith) in
        let same : p ≡ q = cc in
        subst (λ t. Fresh existing (some index) (new_variants t r.to_add)) same
          (
            add_all_missing-All texts g p (λ v. mem v.sku existing ≡ false) missing st a tt,
            (sizes, e, λ k. omega (arith, marked k)),
          )

    plan_for_products-Sound :
        (ps : List String) (missing : List VariantRow)
        → All (λ v. mem v.sku existing ≡ false) missing
        → Sound existing index (plan_for_products texts g index ps missing)
    plan_for_products-Sound [] missing a q h n = absurd (n refl)
    plan_for_products-Sound (p ∷ []) missing a r h n =
        plan_for_product-Sound p (sizes_of index p) missing refl a r h n
    plan_for_products-Sound (p ∷ q ∷ ps) missing a r h n = absurd (n refl)

    plan-Sound :
        (present : List String)
        → All (λ v. mem v.sku existing ≡ false) (missing_of texts present g)
        → Sound existing index (plan_variant_additions texts g present index)
    unfolding plan_variant_additions
    plan-Sound present a =
        plan_for_products-Sound (products_of index present) (missing_of texts present g) a

    module _ (shop : Shop) where
      carry_out-Fresh :
          (p : Option String) (vs : List VariantRow) (cs : List Conflict)
          → ((q : String) → p ≡ some q → vs ≢ [] → Fresh existing (some index) (new_variants q vs))
          → All (Fresh existing (some index)) (carry_out texts shop g p vs cs).1
      carry_out-Fresh none vs cs h = tt
      carry_out-Fresh (some p) [] cs h = tt
      carry_out-Fresh (some p) (v ∷ vs) cs h = elim (Bool-cases (str_eq p "")) [
        | inl e ↦ rw e tt
        | inr e ↦ rw e (h p refl (λ k. absurd (cc)), tt)
      ]

module _ (texts : Texts) (shop : Shop) (existing : List String) where
  -- The missing variants of a group of which these SKUs are there.
  abbrev AllNew : ProductGroup → List String → Type 0
  AllNew g present = All (λ v. mem v.sku existing ≡ false) (missing_of texts present g)

  import_present-Fresh :
      (index : Option ExistingCatalogIndex) (g : ProductGroup) (present : List String)
      → AllNew g present
      → All (Fresh texts existing index) (import_present texts shop g present index).1
  import_present-Fresh none g present a = tt
  import_present-Fresh (some index) g present a =
      elim (Bool-cases (all (λ s. mem s present) (group_skus g))) [
        | inl e ↦ rw e tt
        | inr e ↦
            let plan = plan_variant_additions texts g present index in
            rw e (
              carry_out-Fresh texts existing index g shop plan.product_id plan.to_add plan.conflicts
                (plan-Sound texts existing index g present a))
      ]

  import_with-Fresh :
      (index : Option ExistingCatalogIndex) (g : ProductGroup) (present : List String)
      → All (λ v. mem v.sku present ≡ false → mem v.sku existing ≡ false) g.variants
      → AllNew g present
      → All (Fresh texts existing index) (import_with texts shop g present index).1
  import_with-Fresh index g [] h a = (
    All-imp (λ v. mem v.sku [] ≡ false → mem v.sku existing ≡ false)
        (λ v. mem v.sku existing ≡ false) g.variants (λ v k. k refl) h,
    tt,
  )
  import_with-Fresh index g (s ∷ ss) h a = import_present-Fresh index g (s ∷ ss) a

  import_one-Fresh :
      (index : Option ExistingCatalogIndex) (g : ProductGroup)
      → All (Fresh texts existing index) (import_one texts shop existing index g).1
  unfolding import_one
  import_one-Fresh index g =
      import_with-Fresh index g (present_of existing g) (present_of_complete existing g)
        (missing_of-New texts existing g)

  import_from-Fresh :
      (index : Option ExistingCatalogIndex) (gs : List ProductGroup) (r : ImportResult)
      → All (Fresh texts existing index) (import_from texts shop existing index gs r).1
  unfolding import_from
  import_from-Fresh index [] r = tt
  import_from-Fresh index (g ∷ gs) r =
      let one = import_one texts shop existing index g in
      elim (Result-cases one.0) [
        | inl (e, h) ↦ rw (h, import_from) (import_one-Fresh index g)
        | inr (o, h) ↦
            rw (h, import_from)
              (All-append (Fresh texts existing index) one.1
                (import_from texts shop existing index gs (add_outcome texts shop o r)).1
                (import_one-Fresh index g)
                (import_from-Fresh index gs (add_outcome texts shop o r)))
      ]

  -- Whatever the shop answers, an import writes only what is not among the SKUs of the shop that
  -- it is given: a product that it creates has none of them, and the variants that it adds to a
  -- product have none either, nor a value among the sizes of the product in the index, nor one
  -- value twice.
  pub apply_import-Fresh :
      (index : Option ExistingCatalogIndex) (groups : List ProductGroup)
      → All (Fresh texts existing index) (apply_import texts shop existing index groups).1
  unfolding apply_import
  apply_import-Fresh index groups = import_from-Fresh index groups (record {
    created = [];
    skipped_existing = [];
    failed = [];
    variants_added = [];
    conflicts = [];
  })

module _ (texts : Texts) (index : ExistingCatalogIndex) (s : String) (g : ProductGroup) where
  accounted_for_product :
      (p : String) (o : Option (List String)) (missing : List VariantRow)
      → let plan = plan_for_product texts g p o missing in
        in_variants s plan.to_add + in_conflicts s plan.conflicts ≡ in_variants s missing
  accounted_for_product p none missing =
      omega (arith, in_conflicts-map texts s g (p ∷ []) Reason.no_size_option (some p) missing)
  accounted_for_product p (some sizes) missing = omega (
    arith,
    add_all_missing_accounted texts g p s missing
        (record { taken = sizes; to_add = []; conflicts = [] }),
  )

  accounted_for_products :
      (ps : List String) (missing : List VariantRow)
      → let plan = plan_for_products texts g index ps missing in
        in_variants s plan.to_add + in_conflicts s plan.conflicts ≡ in_variants s missing
  accounted_for_products [] missing =
      omega (arith, in_conflicts-map texts s g [] Reason.not_in_index none missing)
  accounted_for_products (p ∷ []) missing = accounted_for_product p (sizes_of index p) missing
  accounted_for_products (p ∷ q ∷ ps) missing =
      omega (arith, in_conflicts-map texts s g (p ∷ q ∷ ps) Reason.spread none missing)

  -- No variant of a group drops out of its plan: of those that the shop lacks, each is added or is
  -- a conflict, as often as it stands in the group.
  pub plan_variant_additions_accounted :
      (present : List String)
      → let plan = plan_variant_additions texts g present index in
        in_variants s plan.to_add + in_conflicts s plan.conflicts
        ≡ in_variants s (missing_of texts present g)
  unfolding plan_variant_additions
  plan_variant_additions_accounted present =
      accounted_for_products (products_of index present) (missing_of texts present g)
