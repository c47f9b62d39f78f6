-- ===== src/Catalog/Stocked.antt =====
-- src/bims_shopify/ops/catalog.py, the commands `cleanup_no_stock` and `publish`: the products that
-- are hidden, or shown to customers, by their stock.
use bims_shopify.Base.{
  ℕ, ◌+◌, String, Bool, true, false, not, ◌&&◌, ◌||◌, Option, none, some, is_none, List, [], ◌∷◌,
  ◌++◌, any, str_eq, if◌then◌else◌, lookup, leb, length, take, ℤ,
}
use bims_shopify.Catalog.{has_stock}
use bims_shopify.Catalog.Counting.{mem}
use bims_shopify.Catalog.Import.{Answer, done, transient, raised}
use bims_shopify.Catalog.Dedupe.{
  ShopProduct, Entry, BatchResult, Ending, dry_run, refused, ran, skus_of, is_empty, entry_of,
  apply_all, no_change, above_ratio,
}

-- A SKU-keyed stock answer of BIMS.
abbrev pub Stock : Type 0
Stock = List (String × ℤ)

pub data Mode : Type 0 where
  draft delete : Mode

abbrev pub is_draft_mode : Mode → Bool
is_draft_mode draft = true
is_draft_mode delete = false

pub record CleanupPlan : Type 0 where
  pub total_products : ℕ
  pub targets : List Entry
  pub unknown : List Entry
  pub already_done : ℕ

-- `not skus or any(sku not in stock_by_sku for sku in skus)`
unfoldable pub is_unknown : Stock → ShopProduct → Bool
is_unknown stock p = is_empty (skus_of p) || any (λ s. is_none (lookup s stock)) (skus_of p)

-- Some SKU has stock above zero; `zero_stock` is the contrary.
unfoldable pub some_stock : Stock → ShopProduct → Bool
unfolding has_stock
some_stock stock p = any (has_stock stock) (skus_of p)

unfoldable pub see_for_cleanup : Stock → Mode → ShopProduct → CleanupPlan → CleanupPlan
unfolding is_unknown some_stock
see_for_cleanup stock mode p plan =
    if is_unknown stock p
    then record plan { unknown = plan.unknown ++ entry_of p ∷ [] }
    else if some_stock stock p
    then plan
    else if is_draft_mode mode && str_eq p.status "DRAFT"
    then record plan { already_done = plan.already_done + 1 }
    else record plan { targets = plan.targets ++ entry_of p ∷ [] }

unfoldable pub see_all_for_cleanup : Stock → Mode → List ShopProduct → CleanupPlan → CleanupPlan
unfolding see_for_cleanup
see_all_for_cleanup stock mode [] plan = plan
see_all_for_cleanup stock mode (p ∷ ps) plan =
    see_all_for_cleanup stock mode ps (see_for_cleanup stock mode p plan)

abbrev pub no_cleanup : List ShopProduct → CleanupPlan
no_cleanup products = record {
  total_products = length products;
  targets = [];
  unknown = [];
  already_done = 0;
}

unfoldable pub compute_cleanup_plan : Stock → Mode → List ShopProduct → CleanupPlan
unfolding see_all_for_cleanup
compute_cleanup_plan stock mode products =
    see_all_for_cleanup stock mode products (no_cleanup products)

-- `apply_cleanup`: the call is `delete_product` or `set_product_status(…, "DRAFT")`.
unfoldable pub apply_cleanup :
    (Mode → String → Answer (Unit {0})) → Mode → List Entry → BatchResult × Option String
unfolding apply_all
apply_cleanup change mode targets = apply_all (change mode) targets no_change

-- `_run_cleanup_no_stock` on the products of the scan and the stock of their SKUs.
unfoldable pub run_cleanup_no_stock :
    Bool → Bool → (Mode → String → Answer (Unit {0})) → Mode → Stock → List ShopProduct → Ending
unfolding compute_cleanup_plan apply_cleanup
run_cleanup_no_stock apply force change mode stock products =
    let plan = compute_cleanup_plan stock mode products in
    if not apply
    then dry_run
    else if not force && above_ratio (length plan.targets) plan.total_products
    then refused
    else let r = apply_cleanup change mode plan.targets in ran r.0 r.1

pub record PublishPlan : Type 0 where
  pub total_products : ℕ
  pub targets : List Entry
  pub skipped_no_images : List Entry
  pub skipped_no_stock : List Entry
  pub unknown : List Entry
  pub already_done : ℕ

-- `status == "ACTIVE" and publication_id in published_publication_ids`
abbrev pub is_published : String → ShopProduct → Bool
is_published publication_id p =
    str_eq p.status "ACTIVE" && mem publication_id p.published_publication_ids

unfoldable pub see_for_publish : Stock → String → Bool → ShopProduct → PublishPlan → PublishPlan
unfolding is_unknown some_stock
see_for_publish stock publication_id require_images p plan =
    if is_unknown stock p
    then record plan { unknown = plan.unknown ++ entry_of p ∷ [] }
    else if require_images && leb p.media_count 0
    then record plan { skipped_no_images = plan.skipped_no_images ++ entry_of p ∷ [] }
    else if not (some_stock stock p)
    then record plan { skipped_no_stock = plan.skipped_no_stock ++ entry_of p ∷ [] }
    else if is_published publication_id p
    then record plan { already_done = plan.already_done + 1 }
    else record plan { targets = plan.targets ++ entry_of p ∷ [] }

unfoldable pub see_all_for_publish :
    Stock → String → Bool → List ShopProduct → PublishPlan → PublishPlan
unfolding see_for_publish
see_all_for_publish stock publication_id require_images [] plan = plan
see_all_for_publish stock publication_id require_images (p ∷ ps) plan =
    see_all_for_publish stock publication_id require_images ps
      (see_for_publish stock publication_id require_images p plan)

abbrev pub cut_targets : Option ℕ → PublishPlan → PublishPlan
cut_targets none plan = plan
cut_targets (some limit) plan = record plan { targets = take limit plan.targets }

abbrev pub no_publish : List ShopProduct → PublishPlan
no_publish products = record {
  total_products = length products;
  targets = [];
  skipped_no_images = [];
  skipped_no_stock = [];
  unknown = [];
  already_done = 0;
}

unfoldable pub compute_publish_plan :
    Stock → String → Option ℕ → Bool → List ShopProduct → PublishPlan
unfolding see_all_for_publish
compute_publish_plan stock publication_id limit require_images products =
    cut_targets limit
      (see_all_for_publish stock publication_id require_images products (no_publish products))

-- The two calls of `publish_one`, the second only after the first is done.
abbrev pub publish_one :
    (String → Answer (Unit {0})) → (String → Answer (Unit {0})) → String → Answer (Unit {0})
publish_one activate publish product_id = elim (activate product_id) [
  | done _ ↦ publish product_id
  | transient x ↦ transient x
  | raised x ↦ raised x
]

-- `apply_publish`, its results in the order of the targets.
unfoldable pub apply_publish :
    (String → Answer (Unit {0}))
    → (String → Answer (Unit {0}))
    → List Entry
    → BatchResult × Option String
unfolding apply_all
apply_publish activate publish targets = apply_all (publish_one activate publish) targets no_change

-- `_run_publish` on the publication, the scan and the stock.
unfoldable pub run_publish :
    Bool
    → (String → Answer (Unit {0}))
    → (String → Answer (Unit {0}))
    → Stock
    → String
    → Option ℕ
    → Bool
    → List ShopProduct
    → Ending
unfolding compute_publish_plan apply_publish
run_publish apply activate publish stock publication_id limit require_images products =
    if not apply
    then dry_run
    else let plan = compute_publish_plan stock publication_id limit require_images products in
      let r = apply_publish activate publish plan.targets in ran r.0 r.1
