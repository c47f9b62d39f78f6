-- ===== src/Snapshot.antt =====
-- src/bims_shopify/domain/snapshot.py, domain/product.py, application/snapshot_gate.py and the part
-- of domain/tenant.py that the workers read. Times are microseconds since some epoch. The reports
-- that the code only stores (timings, statistics) are JSON objects.
pub mod Eligibility
pub mod Gate
use bims_shopify.Base.{
  ℕ, ◌-◌, ◌*◌, String, Bool, true, false, not, ◌&&◌, Option, none, some, List, [], ◌∷◌, ltb,
  if◌then◌else◌, str_eq, ℤ, pos, lookup,
}
use bims_shopify.Values.{Value, bool, Object, get_or, is_truthy}
use bims_shopify.Stock.{ByWarehouse, StockDiscrepancy}

-- The columns of `Tenant` that the modelled code reads.
pub record Tenant : Type 0 where
  pub id : ℕ
  pub slug : String
  pub field_mappings : Object
  pub snapshot_max_age_minutes : ℕ
  -- In units of 10⁻⁹.
  pub pull_max_drop_ratio : ℕ

pub data Status : Type 0 where
  building current superseded rejected failed : Status

pub record CatalogRow : Type 0 where
  pub bims_id : String
  pub sku : Option String
  pub code2 : Option String
  pub name : String
  pub sell_price : ℤ
  pub enabled : Bool
  pub exclude_ecommerce : Bool
  pub company_id : Option ℤ

-- `bool(self.sku)`
abbrev pub has_sku : Option String → Bool
has_sku none = false
has_sku (some s) = not (str_eq s "")

unfoldable pub eligible : CatalogRow → Bool
eligible row = row.enabled && not row.exclude_ecommerce && has_sku row.sku

pub record StockRecord : Type 0 where
  pub quantity : ℤ
  pub by_warehouse : ByWarehouse
  pub unfiltered_total : Option ℤ

pub record CatalogPull : Type 0 where
  pub rows : List CatalogRow
  pub stock : List (String × ℤ)
  pub stock_by_warehouse : List (String × ByWarehouse)
  pub stock_unfiltered : List (String × ℤ)
  pub stock_discrepancies : List StockDiscrepancy
  pub reported_count : Option ℕ
  pub complete : Option Bool
  pub pages : ℕ
  pub stop_reason : String
  pub warnings : List String
  pub timings : Object

pub record SnapshotMeta : Type 0 where
  pub id : ℕ
  pub tenant_id : ℕ
  pub status : Status
  pub started_at : ℕ
  pub finished_at : Option ℕ
  pub rows_pulled : ℕ
  pub stock_rows : ℕ
  pub pages : ℕ
  pub reported_count : Option ℕ
  pub complete : Option Bool
  pub stop_reason : String
  pub warnings : List String
  pub timings : Object
  pub stats : Option Object
  pub rejection : Option Object

pub record CatalogSnapshot : Type 0 where
  pub meta : SnapshotMeta
  pub rows : List CatalogRow
  pub stock : List (String × StockRecord)

pub record ProductSnapshot : Type 0 where
  pub sku : String
  pub name : String
  pub price : ℤ
  pub stock : Option ℤ
  pub enabled : Bool

-- The stock of one SKU: an absent SKU is unknown, or zero where the tenant says so.
unfoldable pub resolve_quantity : Bool → Option ℤ → Option ℤ
resolve_quantity absent_means_zero (some q) = some q
resolve_quantity absent_means_zero none = if absent_means_zero then some (pos 0) else none

unfoldable pub snapshot_of : Bool → List (String × ℤ) → CatalogRow → String → ProductSnapshot
snapshot_of absent_means_zero stock row sku = record {
  sku = sku;
  name = row.name;
  price = row.sell_price;
  stock = resolve_quantity absent_means_zero (lookup sku stock);
  enabled = true;
}

-- The body of the loop: the row's products, before those of the rows that follow.
unfoldable pub add_row :
    Bool
    → List (String × ℤ)
    → CatalogRow
    → Option String
    → List ProductSnapshot
    → List ProductSnapshot
add_row absent_means_zero stock row none rest = rest
add_row absent_means_zero stock row (some sku) rest =
    if eligible row then snapshot_of absent_means_zero stock row sku ∷ rest else rest

unfoldable pub resolve_rows : Bool → List (String × ℤ) → List CatalogRow → List ProductSnapshot
resolve_rows absent_means_zero stock [] = []
resolve_rows absent_means_zero stock (row ∷ rows) =
    add_row absent_means_zero stock row row.sku (resolve_rows absent_means_zero stock rows)

abbrev pub absent_means_zero : Object → Bool
absent_means_zero field_mappings =
    is_truthy (get_or "absent_stock_means_zero" (bool false) field_mappings)

unfoldable pub resolve_product_snapshots :
    List CatalogRow → List (String × ℤ) → Object → List ProductSnapshot
resolve_product_snapshots rows stock field_mappings =
    resolve_rows (absent_means_zero field_mappings) stock rows

-- `{sku: record.quantity for ...}` of adapters/snapshot_erp.py.
unfoldable pub quantities : List (String × StockRecord) → List (String × ℤ)
quantities [] = []
quantities ((sku, r) ∷ rest) = (sku, r.quantity) ∷ quantities rest

-- `SnapshotERPAdapter.list_products`
unfoldable pub list_products : CatalogSnapshot → Tenant → List ProductSnapshot
unfolding quantities resolve_product_snapshots
list_products snapshot tenant =
    resolve_product_snapshots snapshot.rows (quantities snapshot.stock) tenant.field_mappings

-- Why a write declines, with the detail that is reported; an age is in microseconds.
pub data Decline : Type 0 where
  missing : Decline
  incomplete : ℕ → Option ℕ → ℕ → String → Decline
  stale : ℕ → ℕ → ℕ → ℕ → Decline

abbrev minute : ℕ
minute = 60000000

abbrev or_time : Option ℕ → ℕ → ℕ
or_time none t = t
or_time (some f) t = f

-- `meta.finished_at or meta.started_at`
abbrev pub finished_time : SnapshotMeta → ℕ
finished_time meta = or_time meta.finished_at meta.started_at

abbrev pub is_incomplete : Option Bool → Bool
is_incomplete (some false) = true
is_incomplete _ = false

-- An age that is negative in the source is 0 here, and the limit is never negative.
unfoldable pub decline_of : SnapshotMeta → Tenant → ℕ → Option Decline
decline_of meta tenant now =
    let finished = finished_time meta in
    if is_incomplete meta.complete
    then some (incomplete meta.id meta.reported_count meta.rows_pulled meta.stop_reason)
    else if ltb (tenant.snapshot_max_age_minutes * minute) (now - finished)
    then some (stale meta.id finished (now - finished) tenant.snapshot_max_age_minutes)
    else none

unfoldable pub snapshot_decline : Option SnapshotMeta → Tenant → ℕ → Option Decline
unfolding decline_of
snapshot_decline none tenant now = some missing
snapshot_decline (some meta) tenant now = decline_of meta tenant now
