-- ===== src/Catalog/Dedupe.antt =====
-- src/bims_shopify/ops/catalog.py, the `dedupe` command: products of the shop all of whose SKUs an
-- earlier product has. A set of SKUs is a list without the empty ones; its order is not modelled.
use bims_shopify.Base.{
  ℕ, ◌+◌, ◌*◌, String, Bool, true, false, not, ◌&&◌, Option, none, some, List, [], ◌∷◌, ◌++◌, all,
  select, str_eq, if◌then◌else◌, Result, ok, err, ltb, length,
}
use bims_shopify.Catalog.Counting.{mem}
use bims_shopify.Catalog.Import.{Answer, done, transient, raised}

-- A product as `iter_all_products_with_skus` yields it.
pub record ShopProduct : Type 0 where
  pub id : String
  pub title : String
  pub status : String
  pub skus : List String
  pub media_count : ℕ
  pub published_publication_ids : List String

pub record Entry : Type 0 where
  pub product_id : String
  pub title : String
  pub skus : List String

pub record Overlap : Type 0 where
  pub product_id : String
  pub title : String
  pub skus : List String
  pub overlapping_skus : List String

-- `DedupePlan`, with the SKUs that are `claimed` so far.
pub record DedupePlan : Type 0 where
  pub total_products : ℕ
  pub kept : ℕ
  pub duplicates_to_delete : List Entry
  pub partial_overlap : List Overlap
  pub claimed : List String

-- `[s for s in (product.get("skus") or []) if s]`
abbrev pub skus_of : ShopProduct → List String
skus_of p = select (λ s. not (str_eq s "")) p.skus

abbrev pub is_empty : List String → Bool
is_empty [] = true
is_empty (_ ∷ _) = false

abbrev pub entry_of : ShopProduct → Entry
entry_of p = record { product_id = p.id; title = p.title; skus = skus_of p }

-- `skus and skus.issubset(claimed)`
unfoldable pub is_duplicate : List String → ShopProduct → Bool
is_duplicate claimed p = not (is_empty (skus_of p)) && all (λ s. mem s claimed) (skus_of p)

abbrev pub overlaps_of : List String → ShopProduct → List Overlap
overlaps_of claimed p =
    let overlap = select (λ s. mem s claimed) (skus_of p) in
    if is_empty overlap
    then []
    else record { product_id = p.id; title = p.title; skus = skus_of p; overlapping_skus = overlap }
      ∷ []

unfoldable pub see_product : ShopProduct → DedupePlan → DedupePlan
unfolding is_duplicate
see_product p plan =
    if is_duplicate plan.claimed p
    then record plan { duplicates_to_delete = plan.duplicates_to_delete ++ entry_of p ∷ [] }
    else record plan {
      kept = plan.kept + 1;
      partial_overlap = plan.partial_overlap ++ overlaps_of plan.claimed p;
      claimed = plan.claimed ++ skus_of p;
    }

unfoldable pub see_products : List ShopProduct → DedupePlan → DedupePlan
unfolding see_product
see_products [] plan = plan
see_products (p ∷ ps) plan = see_products ps (see_product p plan)

abbrev pub no_plan : List ShopProduct → DedupePlan
no_plan products = record {
  total_products = length products;
  kept = 0;
  duplicates_to_delete = [];
  partial_overlap = [];
  claimed = [];
}

unfoldable pub compute_dedupe_plan : List ShopProduct → DedupePlan
unfolding see_products
compute_dedupe_plan products = see_products products (no_plan products)

-- A product that the shop did not delete or change, and the error.
pub record Failure : Type 0 where
  pub product_id : String
  pub error : String

-- The result of a batch: `changed` are the products that the shop did delete or change.
pub record BatchResult : Type 0 where
  pub processed : ℕ
  pub failed : List Failure
  pub changed : List String

-- One product of a batch: the errors of the shop's client are isolated.
unfoldable pub apply_one : Entry → Answer (Unit {0}) → BatchResult → Result String BatchResult
apply_one e (done _) r =
    ok (record r { processed = r.processed + 1; changed = r.changed ++ e.product_id ∷ [] })
apply_one e (transient x) r =
    ok (record r { failed = r.failed ++ record { product_id = e.product_id; error = x } ∷ [] })
apply_one e (raised x) r = err x

-- The loop of `apply_dedupe` and of `apply_cleanup`; another error ends it.
unfoldable pub apply_all :
    (String → Answer (Unit {0})) → List Entry → BatchResult → BatchResult × Option String
unfolding apply_one
apply_all call [] r = (r, none)
apply_all call (e ∷ es) r = elim (apply_one e (call e.product_id) r) [
  | err x ↦ (r, some x)
  | ok s ↦ apply_all call es s
]

abbrev pub no_change : BatchResult
no_change = record { processed = 0; failed = []; changed = [] }

-- `apply_dedupe`
unfoldable pub apply_dedupe :
    (String → Answer (Unit {0})) → List Entry → BatchResult × Option String
unfolding apply_all
apply_dedupe delete_product duplicates = apply_all delete_product duplicates no_change

-- `dup_count / total_products > 0.6`, multiplied out.
abbrev pub above_ratio : ℕ → ℕ → Bool
above_ratio count total = ltb 0 total && ltb (6 * total) (10 * count)

-- How a command ends: the report of a dry run, a refusal by the safety guard, or a run.
pub data Ending : Type 0 where
  dry_run refused : Ending
  ran : BatchResult → Option String → Ending

-- `_run_dedupe` on the products of the scan.
unfoldable pub run_dedupe : Bool → Bool → (String → Answer (Unit {0})) → List ShopProduct → Ending
unfolding compute_dedupe_plan apply_dedupe
run_dedupe apply force delete_product products =
    let plan = compute_dedupe_plan products in
    if not apply
    then dry_run
    else if not force && above_ratio (length plan.duplicates_to_delete) plan.total_products
    then refused
    else let r = apply_dedupe delete_product plan.duplicates_to_delete in ran r.0 r.1

-- The products that are left when these are deleted.
abbrev pub remaining : List String → List ShopProduct → List ShopProduct
remaining deleted products = select (λ p. not (mem p.id deleted)) products

-- The products that the shop deleted.
abbrev pub deleted_by : Ending → List String
deleted_by dry_run = []
deleted_by refused = []
deleted_by (ran r _) = r.changed
