-- ===== src/Catalog/Import.antt =====
-- src/bims_shopify/ops/catalog.py, `apply_import`: what is written for each group of rows. The
-- shop's answers are the parameter `Shop`; the calls of one group do not depend on those of
-- another, so the concurrency, whose results keep the order of the groups, is not modelled.
use bims_shopify.Base.{
  String, not, Option, none, some, List, [], ◌∷◌, ◌++◌, map, all, select, str_eq, if◌then◌else◌,
  lookup, insert, Result, ok, err, ltb, length,
}
use bims_shopify.Titles.{Texts, strip}
use bims_shopify.Catalog.{VariantRow, ProductGroup, option_value_for}
use bims_shopify.Catalog.Counting.{mem}

-- `ExistingCatalogIndex`: the casefolded values of each option of each product.
pub record ExistingCatalogIndex : Type 0 where
  pub sku_to_product : List (String × String)
  pub product_options : List (String × List (String × List String))

pub data Reason : Type 0 where
  spread not_in_index no_size_option size_taken : Reason

pub record Conflict : Type 0 where
  pub title : String
  pub product_id : Option String
  pub sku : String
  pub option_value : String
  pub reason : Reason
  pub product_ids : List String

pub record Added : Type 0 where
  pub title : String
  pub product_id : String
  pub skus : List String

pub record Created : Type 0 where
  pub title : String
  pub product_id : Option String
  pub skus : List String

pub record Failed : Type 0 where
  pub title : String
  pub error : String

pub data Outcome : Type 0 where
  failed : Failed → Outcome
  created : Created → Outcome
  skipped : String → Outcome
  partial : Option Added → List Conflict → Outcome

pub record ImportResult : Type 0 where
  pub created : List Created
  pub skipped_existing : List String
  pub failed : List Failed
  pub variants_added : List Added
  pub conflicts : List Conflict

-- A call of the shop: its answer, one of the errors that the import isolates, or another.
pub data Answer (A : Type 0) : Type 0 where
  done : A → Answer A
  transient : String → Answer A
  raised : String → Answer A

pub record Shop : Type 0 where
  pub product_set : ProductGroup → Answer (Option String)
  pub bulk_create : String → List VariantRow → Answer (Unit {0})

-- The calls that write.
pub data Write : Type 0 where
  new_product : ProductGroup → Write
  new_variants : String → List VariantRow → Write

abbrev pub or_nothing {ℓ} : {A : Type ℓ} → Option (List A) → List A
or_nothing none = []
or_nothing (some xs) = xs

-- `set.add` on a set held as a list without repetitions.
abbrev pub add_to_set : String → List String → List String
add_to_set s xs = if mem s xs then xs else xs ++ s ∷ []

abbrev pub group_skus : ProductGroup → List String
group_skus g = map (λ v. v.sku) g.variants

-- `skus & existing_skus`
abbrev pub present_of : List String → ProductGroup → List String
present_of existing g = select (λ s. mem s existing) (group_skus g)

-- `index.sku_to_product[s] for s in present if s in index.sku_to_product`
unfoldable pub products_of : ExistingCatalogIndex → List String → List String
products_of index [] = []
products_of index (s ∷ ss) =
    let rest = products_of index ss in
    elim (lookup s index.sku_to_product) [ none ↦ rest | some p ↦ add_to_set p rest ]

abbrev pub sizes_of : ExistingCatalogIndex → String → Option (List String)
sizes_of index product_id = lookup "Size" (or_nothing (lookup product_id index.product_options))

-- The variables of the loop over the missing variants.
pub record Additions : Type 0 where
  pub taken : List String
  pub to_add : List VariantRow
  pub conflicts : List Conflict

-- What `_plan_variant_additions` returns.
pub record AdditionPlan : Type 0 where
  pub product_id : Option String
  pub to_add : List VariantRow
  pub conflicts : List Conflict

module _ (texts : Texts) where
  -- `value.strip().casefold()`
  unfoldable pub fold_value : String → String
  unfolding strip
  fold_value value = texts.casefold (strip texts value)

  -- One item of `options`.
  unfoldable pub add_option :
      String → String → List (String × List String) → List (String × List String)
  unfolding fold_value
  add_option name value per_product =
      insert name (add_to_set (fold_value value) (or_nothing (lookup name per_product))) per_product

  abbrev add_options :
      List (String × String) → List (String × List String) → List (String × List String)
  add_options [] per_product = per_product
  add_options ((name, value) ∷ options) per_product =
      add_options options (add_option name value per_product)

  -- `ExistingCatalogIndex.add_variant`
  unfoldable pub add_variant :
      String → String → List (String × String) → ExistingCatalogIndex → ExistingCatalogIndex
  unfolding add_option
  add_variant sku product_id options index = record {
    sku_to_product =
        if str_eq sku "" then index.sku_to_product else insert sku product_id index.sku_to_product;
    product_options =
        insert product_id
          (add_options options (or_nothing (lookup product_id index.product_options)))
          index.product_options;
  }

  abbrev pub conflict_of :
      ProductGroup → List String → Reason → Option String → VariantRow → Conflict
  conflict_of g product_ids reason product_id v = record {
    title = g.title;
    product_id = product_id;
    sku = v.sku;
    option_value = option_value_for v;
    reason = reason;
    product_ids = if ltb 1 (length product_ids) then product_ids else [];
  }

  -- One round of the loop.
  unfoldable pub add_missing : ProductGroup → String → VariantRow → Additions → Additions
  unfolding option_value_for fold_value
  add_missing g product_id v st =
      let key = fold_value (option_value_for v) in
      if mem key st.taken
      then record st {
        conflicts =
            st.conflicts ++ conflict_of g (product_id ∷ []) size_taken (some product_id) v ∷ [];
      }
      else record st { taken = add_to_set key st.taken; to_add = st.to_add ++ v ∷ [] }

  unfoldable pub add_all_missing : ProductGroup → String → List VariantRow → Additions → Additions
  unfolding add_missing
  add_all_missing g product_id [] st = st
  add_all_missing g product_id (v ∷ vs) st =
      add_all_missing g product_id vs (add_missing g product_id v st)

  -- `v.sku not in present`
  abbrev pub missing_of : List String → ProductGroup → List VariantRow
  missing_of present g = select (λ v. not (mem v.sku present)) g.variants

  abbrev pub only_conflicts :
      ProductGroup → List String → Reason → Option String → List VariantRow → AdditionPlan
  only_conflicts g product_ids reason product_id missing = record {
    product_id = product_id;
    to_add = [];
    conflicts = map (conflict_of g product_ids reason product_id) missing;
  }

  abbrev pub plan_for_product :
      ProductGroup → String → Option (List String) → List VariantRow → AdditionPlan
  plan_for_product g product_id none missing =
      only_conflicts g (product_id ∷ []) no_size_option (some product_id) missing
  plan_for_product g product_id (some sizes) missing =
      let st =
        add_all_missing g product_id missing
          (record { taken = sizes; to_add = []; conflicts = [] }) in
      record { product_id = some product_id; to_add = st.to_add; conflicts = st.conflicts }

  abbrev pub plan_for_products :
      ProductGroup → ExistingCatalogIndex → List String → List VariantRow → AdditionPlan
  plan_for_products g index [] missing = only_conflicts g [] not_in_index none missing
  plan_for_products g index (p ∷ []) missing = plan_for_product g p (sizes_of index p) missing
  plan_for_products g index (p ∷ q ∷ ps) missing = only_conflicts g (p ∷ q ∷ ps) spread none missing

  -- `_plan_variant_additions`; the ids of a conflict keep the order of the group.
  unfoldable pub plan_variant_additions :
      ProductGroup → List String → ExistingCatalogIndex → AdditionPlan
  unfolding products_of add_all_missing option_value_for
  plan_variant_additions g present index =
      plan_for_products g index (products_of index present) (missing_of present g)

  module _ (shop : Shop) where
    -- `except _TRANSIENT_SHOPIFY_EXCEPTIONS` gives the outcome `failed`.
    abbrev on_answer :
        {A : Type 0} → ProductGroup → (A → Outcome) → Answer A → Result String Outcome
    on_answer g f (done a) = ok (f a)
    on_answer g f (transient e) = ok (failed (record { title = g.title; error = e }))
    on_answer g f (raised e) = err e

    abbrev pub create_group : ProductGroup → Result String Outcome
    create_group g =
        on_answer g
          (λ product_id.
            created (record { title = g.title; product_id = product_id; skus = group_skus g }))
          (shop.product_set g)

    -- `if to_add and product_id`: the bulk create of the variants of a plan, and its outcome.
    abbrev pub carry_out :
        ProductGroup
        → Option String
        → List VariantRow
        → List Conflict
        → Result String Outcome × List Write
    carry_out g none to_add conflicts = (ok (partial none conflicts), [])
    carry_out g (some p) [] conflicts = (ok (partial none conflicts), [])
    carry_out g (some p) (v ∷ vs) conflicts =
        if str_eq p "" then (ok (partial none conflicts), []) else (
          on_answer g
              (λ _.
                partial
                  (some
                    (record { title = g.title; product_id = p; skus = map (λ x. x.sku) (v ∷ vs) }))
                  conflicts)
              (shop.bulk_create p (v ∷ vs)),
          new_variants p (v ∷ vs) ∷ [],
        )

    abbrev pub carry_out_plan : ProductGroup → AdditionPlan → Result String Outcome × List Write
    carry_out_plan g plan = carry_out g plan.product_id plan.to_add plan.conflicts

    -- A group of which some SKU exists.
    abbrev pub import_present :
        ProductGroup
        → List String
        → Option ExistingCatalogIndex
        → Result String Outcome × List Write
    import_present g present none = (ok (skipped g.title), [])
    import_present g present (some index) =
        if all (λ s. mem s present) (group_skus g)
        then (ok (skipped g.title), [])
        else carry_out_plan g (plan_variant_additions g present index)

    abbrev pub import_with :
        ProductGroup
        → List String
        → Option ExistingCatalogIndex
        → Result String Outcome × List Write
    import_with g [] index = (create_group g, new_product g ∷ [])
    import_with g (s ∷ ss) index = import_present g (s ∷ ss) index

    -- `import_one`: the outcome of a group, and the writes that it asks of the shop.
    unfoldable pub import_one :
        List String
        → Option ExistingCatalogIndex
        → ProductGroup
        → Result String Outcome × List Write
    unfolding plan_variant_additions
    import_one existing index g = import_with g (present_of existing g) index

    unfoldable pub add_outcome : Outcome → ImportResult → ImportResult
    add_outcome (skipped title) r = record r { skipped_existing = r.skipped_existing ++ title ∷ [] }
    add_outcome (failed f) r = record r { failed = r.failed ++ f ∷ [] }
    add_outcome (partial none conflicts) r = record r { conflicts = r.conflicts ++ conflicts }
    add_outcome (partial (some a) conflicts) r = record r {
      variants_added = r.variants_added ++ a ∷ [];
      conflicts = r.conflicts ++ conflicts;
    }
    add_outcome (created c) r = record r { created = r.created ++ c ∷ [] }

    -- The groups in order; an error that is not isolated ends the run.
    unfoldable pub import_from :
        List String
        → Option ExistingCatalogIndex
        → List ProductGroup
        → ImportResult
        → Result String ImportResult × List Write
    unfolding import_one add_outcome
    import_from existing index [] r = (ok r, [])
    import_from existing index (g ∷ gs) r =
        let one = import_one existing index g in
        elim one.0 [
          | err e ↦ (err e, one.1)
          | ok o ↦
              let rest = import_from existing index gs (add_outcome o r) in
              (rest.0, one.1 ++ rest.1)
        ]

    unfoldable pub apply_import :
        List String
        → Option ExistingCatalogIndex
        → List ProductGroup
        → Result String ImportResult × List Write
    unfolding import_from
    apply_import existing index groups = import_from existing index groups (record {
      created = [];
      skipped_existing = [];
      failed = [];
      variants_added = [];
      conflicts = [];
    })
