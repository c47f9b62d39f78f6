-- ===== src/Tests/Catalogs.antt =====
-- The import and the clean-ups of the catalog at concrete rows and products.
use bims_shopify.Base.{
  ◌+◌, ◌-◌, ◌*◌, ◌≤◌, min, String, true, false, none, some, List, [], ◌∷◌, count, length, map,
  str_eq, eq_iff, pos, ok, ◌≡◌, ◌≢◌, refl, subst, arith, All, Bool-cases, inl, inr, ◌==◌,
  if◌then◌else◌,
}
use Prim.Native.Char.{code}
use bims_shopify.Values.{Value, null, string, float, bool, int}
use bims_shopify.Titles.{Texts}
use bims_shopify.Catalog.{
  RawRow, BimsRow, Filtered, ProductGroup, filter_and_dedupe_rows, group_rows, bims_gate_failure,
}
use bims_shopify.Catalog.Filtering.{passes, Priced, filter_rows_once}
use bims_shopify.Catalog.Grouping.{in_groups, in_shadowed, group_rows_conserved}
use bims_shopify.Catalog.Accepted.{Accepted, group_rows-Accepted}
use bims_shopify.Catalog.Import.{ExistingCatalogIndex, done, transient, Shop, apply_import}
use bims_shopify.Catalog.Written.{Fresh, apply_import-Fresh}
use bims_shopify.Catalog.Dedupe.{ShopProduct, run_dedupe, deleted_by, remaining}
use bims_shopify.Catalog.Sold.{sold}
use bims_shopify.Catalog.Claimed.{DistinctIds, dedupe_keeps_skus}
use bims_shopify.Catalog.Counting.{times}
use bims_shopify.Catalog.Stocked.{
  Stock, draft, compute_cleanup_plan, compute_publish_plan, apply_cleanup,
}
use bims_shopify.Catalog.Targets.{Bare, Selling, drafted, targets_apart, cleanup_settles}
use bims_shopify.Healing.{create_missing}
use bims_shopify.Healing.Writes.{Careful, create_missing-Careful}
use bims_shopify.Tests.{shop}

abbrev str : Value → String
str null = "None"
str (bool b) = if b then "True" else "False"
str (int n) = "0"
str (float q) = "0.0"
str (string s) = s

abbrev texts : Texts
texts = record {
  is_space = λ c. code c == 32;
  casefold = λ s. s;
  str = str;
  number = λ n. if n == 1 then "1" else "2";
  parse_float = λ s. none;
}

abbrev raw : RawRow
raw = record {
  id = string "7";
  name = some "Shirt (M)";
  code2 = string "S-M";
  sell_price = float (pos 5500000000);
  enabled = none;
  exclude_ecommerce = none;
  main_product_id = null;
  ptype_id = null;
}

abbrev raws : List RawRow
raws =
    raw
    ∷ record raw { code2 = string "S-L"; name = some "shirt (L)" }
    ∷ record raw { id = string "8" }
    ∷ record raw { code2 = null; sell_price = string "?" }
    ∷ []

priced : All (Priced texts) raws
unfolding bims_gate_failure bims_shopify.Inventory.float_of
priced = (
  (λ _. (pos 5500000000, refl)),
  ((λ _. (pos 5500000000, refl)), ((λ _. (pos 5500000000, refl)), ((λ e. absurd (cc)), tt))),
)

filter_rows_once_example :
    (g : Filtered) × (filter_and_dedupe_rows texts raws ≡ ok g)
    × ((c : String)
        → (count (λ r. str_eq r.code2 c) g.rows ≡ min 1 (count (passes texts c) raws))
          × (count (λ d. str_eq d.code2 c) g.duplicates ≡ count (passes texts c) raws - 1))
filter_rows_once_example = filter_rows_once texts raws priced

abbrev shirt : BimsRow
shirt = record {
  bims_id = "7";
  name = "Shirt (M)";
  code2 = "S-M";
  sell_price = pos 5500000000;
  main_product_id = null;
  ptype_id = null;
}

abbrev rows : List BimsRow
rows =
    shirt
    ∷ record shirt { code2 = "S-M2" }
    ∷ record shirt { code2 = "S-L"; name = "Shirt (L)" }
    ∷ []

-- Both rows of one size are in one product, and the second is reported.
one_group :
    map (λ g. map (λ v. v.sku) g.variants) (group_rows texts rows).groups
    ≡ ("S-M" ∷ "S-L" ∷ []) ∷ []
unfolding group_rows
one_group = refl

group_rows_conserved_example :
    in_groups "S-M2" (group_rows texts rows).groups
      + in_shadowed "S-M2" (group_rows texts rows).shadowed_size_duplicates
    ≡ count (λ row. str_eq row.code2 "S-M2") rows
group_rows_conserved_example = group_rows_conserved "S-M2" texts rows

group_rows-Accepted_example : All Accepted (group_rows texts rows).groups
group_rows-Accepted_example = group_rows-Accepted texts rows

abbrev shirts : ProductGroup
shirts = record {
  title = "Shirt";
  variants =
      record { sku = "S-M"; price = pos 6; size = some "M"; bims_id = "7" }
      ∷ record { sku = "S-L"; price = pos 6; size = some "L"; bims_id = "8" }
      ∷ [];
}

abbrev index : ExistingCatalogIndex
index = record {
  sku_to_product = ("S-M", "gid/1") ∷ [];
  product_options = ("gid/1", ("Size", "m" ∷ []) ∷ []) ∷ [];
}

abbrev open_shop : Shop
open_shop = record {
  product_set = λ g. done (some "gid/2");
  bulk_create = λ p vs. transient "THROTTLED";
}

apply_import-Fresh_example :
    All
      (Fresh texts ("S-M" ∷ []) (some index))
      (apply_import texts open_shop ("S-M" ∷ []) (some index) (shirts ∷ [])).1
apply_import-Fresh_example =
    apply_import-Fresh texts open_shop ("S-M" ∷ []) (some index) (shirts ∷ [])

create_missing-Careful_example :
    Careful texts
      (λ s. none)
      open_shop
      index
      shop
      (create_missing texts (λ s. none) open_shop index shop (shirts ∷ []) none 90)
create_missing-Careful_example =
    create_missing-Careful texts (λ s. none) open_shop index shop (shirts ∷ []) none 90

abbrev product : ShopProduct
product = record {
  id = "1";
  title = "Shirt";
  status = "ACTIVE";
  skus = "S-M" ∷ "" ∷ [];
  media_count = 1;
  published_publication_ids = [];
}

abbrev products : List ShopProduct
products = product ∷ record product { id = "2" } ∷ []

distinct : DistinctIds products
distinct i = elim (Bool-cases (str_eq "1" i)) [
  | inl e ↦ subst (λ k. times k ("1" ∷ "2" ∷ []) ≤ 1) ((eq_iff "1" i).0 e) (omega arith)
  | inr e ↦ ground (arith, e)
]

dedupe_keeps_skus_example :
    let deleted = deleted_by (run_dedupe true true (λ i. done tt) products) in
    ((s : String) → sold s products ≡ true → sold s (remaining deleted products) ≡ true)
    × (true ≡ false → 10 * length deleted ≤ 6 * length products)
dedupe_keeps_skus_example = dedupe_keeps_skus (λ i. done tt) products true true distinct

abbrev stock : Stock
stock = ("S-M", pos 0) ∷ []

targets_apart_example :
    let hidden = (compute_cleanup_plan stock draft products).targets in
    let shown = (compute_publish_plan stock "p" none true products).targets in
    All (Bare stock products) hidden
    × (All (Selling stock products) shown × All (λ c. All (λ p. c.skus ≢ p.skus) shown) hidden)
targets_apart_example = targets_apart stock products draft "p" none true

cleanup_settles_example :
    let r =
      apply_cleanup (λ m i. done tt) draft (compute_cleanup_plan stock draft products).targets in
    (r.1 ≡ none) × ((compute_cleanup_plan stock draft (drafted r.0.changed products)).targets ≡ [])
cleanup_settles_example = cleanup_settles stock products (λ m i. done tt) (λ i. refl)
