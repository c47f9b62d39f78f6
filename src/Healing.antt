-- ===== src/Healing.antt =====
-- src/bims_shopify/ops/self_heal.py: the stage of the scheduled cycle that creates what the shop
-- lacks. The scan of the shop is the parameter `existing`; times are seconds. The reports are not
-- modelled, but for the counts that decide.
pub mod Writes
use bims_shopify.Base.{
  ℕ, zero, suc, ◌+◌, ◌-◌, ◌*◌, String, Bool, true, false, not, ◌&&◌, Option, none, some, List, [],
  ◌∷◌, ◌++◌, map, any, all, select, count, length, take, str_eq, if◌then◌else◌, leb, ltb, ◌==◌, ℤ,
  pos, negsuc, Result, ok, err, ◌>>=◌, lookup,
}
use bims_shopify.Values.{Value, string, float, int, get_or}
use bims_shopify.Snapshot.{Tenant, CatalogRow}
use bims_shopify.Inventory.{float_of, int_of, exceeds_ratio}
use bims_shopify.Titles.{Texts}
use bims_shopify.Catalog.{
  ProductGroup, Filtered, GroupingReport, catalog_row_to_raw, filter_and_dedupe_rows, group_rows,
  has_stock,
}
use bims_shopify.Catalog.Counting.{mem}
use bims_shopify.Catalog.Import.{
  ExistingCatalogIndex, ImportResult, Shop, Write, Conflict, Created, Added, group_skus,
  apply_import,
}

-- The remembered document; `parked` are the SKUs of conflicts.
pub record SkuIndex : Type 0 where
  pub at_time : ℕ
  pub skus : List String
  pub parked : List String

pub data StageStatus : Type 0 where
  noop ok_stage needs_confirmation : StageStatus

pub record CreateStage : Type 0 where
  pub status : StageStatus
  pub scanned_shopify : Bool
  pub missing_products : ℕ
  pub new_index : Option SkuIndex
  pub written_skus : List String

-- `sku_field_decline`: whether the stage declines.
abbrev is_code2 : Value → Bool
is_code2 (string s) = str_eq s "code2"
is_code2 Value.null = false
is_code2 (Value.bool b) = false
is_code2 (int n) = false
is_code2 (float q) = false

unfoldable pub sku_field_decline : Tenant → Bool
sku_field_decline tenant =
    not (is_code2 (get_or "product_sku_field" (string "code2") tenant.field_mappings))

-- `_index_is_fresh`: six hours.
unfoldable pub index_is_fresh : Option SkuIndex → ℕ → Bool
index_is_fresh none now = false
index_is_fresh (some i) now = ltb (now - i.at_time) 21600

abbrev pub known_skus : Option SkuIndex → List String
known_skus none = []
known_skus (some i) = i.skus ++ i.parked

-- `group_skus(g) - known`, as a test.
abbrev pub has_unknown : List String → ProductGroup → Bool
has_unknown known g = any (λ s. not (mem s known)) (group_skus g)

abbrev pub create_stage : StageStatus → Bool → ℕ → Option SkuIndex → List String → CreateStage
create_stage status scanned missing index written = record {
  status = status;
  scanned_shopify = scanned;
  missing_products = missing;
  new_index = index;
  written_skus = written;
}

-- `pending[:cap]`: a negative bound counts from the end.
unfoldable pub slice_to : {A : Type 0} → ℤ → List A → List A
slice_to (pos n) xs = take n xs
slice_to (negsuc n) xs = take (length xs - (n + 1)) xs

abbrev pub skus_created : List Created → List String
skus_created [] = []
skus_created (c ∷ cs) = c.skus ++ skus_created cs

abbrev pub skus_added : List Added → List String
skus_added [] = []
skus_added (a ∷ as') = a.skus ++ skus_added as'

-- `present & wanted`
abbrev pub matched_skus : List String → List ProductGroup → ℕ
matched_skus present groups = count (λ s. any (λ g. mem s (group_skus g)) groups) present

module _ (texts : Texts) where
  -- `eligible_groups` on the rows and the stock of a snapshot.
  unfoldable pub eligible_groups :
      List CatalogRow → List (String × ℤ) → Result String (List ProductGroup)
  unfolding catalog_row_to_raw filter_and_dedupe_rows group_rows has_stock
  eligible_groups rows stock = filter_and_dedupe_rows texts (map catalog_row_to_raw rows) >>= λ f.
      ok
        (select (λ g. any (λ v. has_stock stock v.sku) g.variants) (group_rows texts f.rows).groups)

  module _ (parse_int : String → Option ℤ) (shop : Shop) (existing : ExistingCatalogIndex) where
    -- The SKUs of the scan.
    abbrev pub present_skus : List String
    present_skus = map (λ e. e.0) existing.sku_to_product

    abbrev pub after_import :
        List String → ℕ → ℕ → Result String ImportResult → Result String CreateStage
    after_import present now missing (err e) = err e
    after_import present now missing (ok r) =
        let written = skus_created r.created ++ skus_added r.variants_added in
        ok (
          create_stage ok_stage true missing
            (some (record {
              at_time = now;
              skus = present ++ written;
              parked = map (λ c. c.sku) r.conflicts;
            }))
            written)

    -- The import of a batch, its result and its writes.
    abbrev pub import_batch : ℕ → ℕ → List ProductGroup → Result String CreateStage × List Write
    import_batch now missing batch =
        let r = apply_import texts shop present_skus (some existing) batch in
        (after_import present_skus now missing r.0, r.1)

    abbrev pub capped :
        ℕ → List ProductGroup → Result String ℤ → Result String CreateStage × List Write
    capped now pending (err e) = (err e, [])
    capped now pending (ok cap_of) = import_batch now (length pending) (slice_to cap_of pending)

    abbrev pub max_create_ratio : Tenant → Result String ℤ
    max_create_ratio tenant =
        float_of texts.parse_float parse_int
          (get_or "max_create_ratio" (float (pos 500000000)) tenant.field_mappings)

    abbrev pub max_create_per_cycle : Tenant → Result String ℤ
    max_create_per_cycle tenant =
        int_of texts.parse_float parse_int
          (get_or "max_create_per_cycle" (int (pos 300)) tenant.field_mappings)

    -- Whether the ratio guard fires.
    abbrev pub too_many_missing : List ProductGroup → List ProductGroup → ℤ → Bool
    too_many_missing groups pending ratio =
        leb 50 (matched_skus present_skus groups)
        && ltb 0 (length groups)
        && exceeds_ratio (length pending) (length groups) ratio

    abbrev pub guarded :
        Tenant
        → ℕ
        → List ProductGroup
        → List ProductGroup
        → Result String ℤ
        → Result String CreateStage × List Write
    guarded tenant now groups pending (err e) = (err e, [])
    guarded tenant now groups pending (ok ratio) =
        if too_many_missing groups pending ratio
        then (ok (create_stage needs_confirmation true (length pending) none []), [])
        else capped now pending (max_create_per_cycle tenant)

    abbrev pub scanned :
        Tenant → ℕ → List ProductGroup → List ProductGroup → Result String CreateStage × List Write
    scanned tenant now groups [] = (
      ok (
          create_stage noop true 0
            (some (record { at_time = now; skus = present_skus; parked = [] })) []),
      [],
    )
    scanned tenant now groups (g ∷ gs) =
        guarded tenant now groups (g ∷ gs) (max_create_ratio tenant)

    -- `create_missing`: the stage, and the writes that it asks of the shop.
    unfoldable pub create_missing :
        Tenant → List ProductGroup → Option SkuIndex → ℕ → Result String CreateStage × List Write
    unfolding index_is_fresh slice_to apply_import float_of int_of exceeds_ratio
    create_missing tenant groups index now =
        if index_is_fresh index now && not (any (has_unknown (known_skus index)) groups)
        then (ok (create_stage noop false 0 none []), [])
        else scanned tenant now groups (select (has_unknown present_skus) groups)
