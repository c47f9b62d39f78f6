-- ===== src/Reconcile/Tables.antt =====
-- The rows, counters and reports of src/bims_shopify/application/reconcile_inventory.py.
use bims_shopify.Base.{ℕ, String, Bool, Option, List, [], ℤ, Result}
use bims_shopify.Inventory.{
  InventoryDelta, Bucket, empty_bucket, NeedsConfirmation, GuardReason, UpdatedRow, FailedRow,
}

-- A row of `iter_variant_inventory`: `available` is whole, or `none` without an inventory level.
pub record VariantRow : Type 0 where
  pub sku : String
  pub inventory_item_id : String
  pub available : Option ℤ

pub data NoLevelAction : Type 0 where
  skip push : NoLevelAction

pub record DriftRow : Type 0 where
  pub sku : String
  pub shopify : ℤ
  pub snapshot : ℤ
  pub delta : ℤ

pub record NoLevelRow : Type 0 where
  pub sku : String
  pub snapshot : ℤ
  pub action : NoLevelAction

pub record NotInShopifyRow : Type 0 where
  pub sku : String
  pub bims_quantity : Option ℤ

-- The counters of `plan` while it runs.
pub record Tally : Type 0 where
  pub in_sync : ℕ
  pub unknown_stock : ℕ
  pub drift : Bucket DriftRow
  pub total_abs_delta : ℕ
  pub max_abs_delta : ℕ
  pub no_level : Bucket NoLevelRow
  pub no_level_pushed : ℕ
  pub no_level_skipped_zero : ℕ
  pub to_push : List InventoryDelta

abbrev pub empty_tally : Tally
empty_tally = record {
  in_sync = 0;
  unknown_stock = 0;
  drift = empty_bucket;
  total_abs_delta = 0;
  max_abs_delta = 0;
  no_level = empty_bucket;
  no_level_pushed = 0;
  no_level_skipped_zero = 0;
  to_push = [];
}

-- The result of `guard_numbers`; the ratio is a fraction, 0 / 1 for an empty run.
pub record GuardNumbers : Type 0 where
  pub evaluated : Bool
  pub forced : Bool
  pub fired : Bool
  pub reason : Option GuardReason
  pub changed_count : ℕ
  pub zero_count : ℕ
  pub zero_ratio : ℕ × ℕ
  pub max_zero_ratio : ℤ
  pub max_changed_variants : ℤ

pub record Report : Type 0 where
  pub scanned_snapshot : ℕ
  pub scanned_shopify : ℕ
  pub tally : Tally
  pub not_in_shopify : Bucket NotInShopifyRow
  pub updated : Bucket UpdatedRow
  pub failed : Bucket FailedRow
  pub blocked_by_guard : Bucket UpdatedRow
  pub guard : Option GuardNumbers

pub record ReconcilePlan : Type 0 where
  pub report : Report
  pub to_push : List InventoryDelta

-- What `apply` returns, or the exception of the guard's settings or of the writer.
pub data Applied : Type 0 where
  needs_confirmation : NeedsConfirmation → Applied
  resolved : List InventoryDelta → Applied

-- What a run of `apply` leaves: the result, the report and the batches that Shopify accepted.
pub record Run : Type 0 where
  pub result : Result String Applied
  pub report : Report
  pub accepted : List (List InventoryDelta)
