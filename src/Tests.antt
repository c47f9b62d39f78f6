-- ===== src/Tests.antt =====
-- Runs of the modelled code at concrete inputs, and the data they use.
mod Stocks
mod Snapshots
mod Writes
mod Settlements
mod Catalogs
mod Pages
mod Tasks
use bims_shopify.Base.{ℕ, String, true, false, some, none, [], ◌∷◌, List, Bool, pos, negsuc, ℤ}
use bims_shopify.Values.{Object, int, float, string}
use bims_shopify.Stock.{ByWarehouse}
use bims_shopify.Snapshot.{
  Tenant, Status, CatalogRow, StockRecord, CatalogPull, SnapshotMeta, CatalogSnapshot,
}

-- One and two and a half units, and a debt of half a unit.
abbrev pub shelves : ByWarehouse
shelves = (1, pos 1000000000) ∷ (2, negsuc 499999999) ∷ (3, pos 2500000000) ∷ []

abbrev pub shop : Tenant
shop = record {
  id = 1;
  slug = "shop";
  field_mappings = ("max_changed_variants", int (pos 10)) ∷ [];
  snapshot_max_age_minutes = 60;
  pull_max_drop_ratio = 300000000;
}

abbrev pub pen : CatalogRow
pen = record {
  bims_id = "7";
  sku = some "PEN";
  code2 = none;
  name = "Pen";
  sell_price = pos 5000000000;
  enabled = true;
  exclude_ecommerce = false;
  company_id = none;
}

abbrev pub hidden : CatalogRow
hidden = record pen { sku = some "INK"; enabled = false }

abbrev pub sample_pull : CatalogPull
sample_pull = record {
  rows = pen ∷ hidden ∷ [];
  stock = ("PEN", pos 3000000000) ∷ [];
  stock_by_warehouse = ("PEN", shelves) ∷ [];
  stock_unfiltered = ("PEN", pos 3000000000) ∷ [];
  stock_discrepancies = [];
  reported_count = some 2;
  complete = some true;
  pages = 1;
  stop_reason = "end";
  warnings = [];
  timings = [];
}

abbrev pub pen_stock : StockRecord
pen_stock = record {
  quantity = pos 3000000000;
  by_warehouse = shelves;
  unfiltered_total = some (pos 3000000000);
}

abbrev pub sample_meta : SnapshotMeta
sample_meta = record {
  id = 1;
  tenant_id = 1;
  status = Status.current;
  started_at = 5;
  finished_at = some 9;
  rows_pulled = 2;
  stock_rows = 1;
  pages = 1;
  reported_count = some 2;
  complete = some true;
  stop_reason = "end";
  warnings = [];
  timings = [];
  stats = none;
  rejection = none;
}

abbrev pub sample_snapshot : CatalogSnapshot
sample_snapshot = record {
  meta = sample_meta;
  rows = pen ∷ hidden ∷ [];
  stock = ("PEN", pen_stock) ∷ [];
}
