-- ===== src/Reconcile.antt =====
-- src/bims_shopify/application/reconcile_inventory.py: the comparison of Shopify's real quantities
-- with the snapshot, and its correction. Progress messages are not modelled.
mod Tables
pub mod Partition
pub mod Safety
pub mod Application
pub mod Convergence
unfoldable pub use Tables.*
use bims_shopify.Base.{
  ℕ, zero, suc, ◌+◌, String, Bool, true, false, not, Option, none, some, List, [], ◌∷◌, ◌++◌, map,
  if◌then◌else◌, length, ltb, max, ◌>>=◌, ℤ, pos, ◌-ℤ◌, ◌==ℤ◌, abs, lookup, insert, Result, ok, err,
  is_none,
}
use bims_shopify.Values.{Value, unit, of_int, truncate}
use bims_shopify.Snapshot.{Tenant, ProductSnapshot}
use bims_shopify.Inventory.{
  InventoryDelta, Bucket, empty_bucket, add, NeedsConfirmation, GuardReason, max_zero_ratio,
  max_changed_variants, check_safety_guard, Pushed, nothing_pushed, push_in_batches, sample_size,
  UpdatedRow, FailedRow, delta_row, add_updated, zeroed,
}

-- `_delta`
abbrev pub make_delta : String → Option ℤ → ℤ → VariantRow → InventoryDelta
make_delta sku previous stock row = record {
  sku = sku;
  previous_stock = previous;
  new_stock = stock;
  variant_inventory_item_id = some row.inventory_item_id;
}

-- The stock that the snapshot knows for a SKU.
abbrev pub known_stock : Option ProductSnapshot → Option ℤ
known_stock none = none
known_stock (some p) = p.stock

-- The body of the loop for a SKU whose stock is known: `target` is what a push would write.
unfoldable pub compare_available : String → VariantRow → ℤ → ℤ → Option ℤ → Tally → Tally
unfolding add of_int
compare_available sku row stock target none t =
    if target ==ℤ pos 0
    then record t {
      no_level_skipped_zero = t.no_level_skipped_zero + 1;
      no_level =
          add sample_size (record { sku = sku; snapshot = stock; action = NoLevelAction.skip }) 1
            t.no_level;
    }
    else record t {
      no_level_pushed = t.no_level_pushed + 1;
      no_level =
          add sample_size (record { sku = sku; snapshot = stock; action = NoLevelAction.push }) 1
            t.no_level;
      to_push = t.to_push ++ make_delta sku none stock row ∷ [];
    }
compare_available sku row stock target (some available) t =
    if available ==ℤ target then record t { in_sync = t.in_sync + 1 } else record t {
      total_abs_delta = t.total_abs_delta + abs (target -ℤ available);
      max_abs_delta = max t.max_abs_delta (abs (target -ℤ available));
      drift =
          add sample_size
            (record {
              sku = sku;
              shopify = available;
              snapshot = stock;
              delta = target -ℤ available;
            })
            1 t.drift;
      to_push = t.to_push ++ make_delta sku (some (of_int available)) stock row ∷ [];
    }

unfoldable pub compare_known : String → VariantRow → Option ℤ → Tally → Tally
unfolding compare_available truncate
compare_known sku row none t = record t { unknown_stock = t.unknown_stock + 1 }
compare_known sku row (some stock) t =
    compare_available sku row stock (truncate stock) row.available t

abbrev pub Catalog : Type 0
Catalog = List (String × ProductSnapshot)

-- `for sku, row in shopify.items()`
unfoldable pub compare_all : Catalog → List (String × VariantRow) → Tally → Tally
unfolding compare_known
compare_all snapshot [] t = t
compare_all snapshot ((sku, row) ∷ rows) t =
    compare_all snapshot rows (compare_known sku row (known_stock (lookup sku snapshot)) t)

-- `{p.sku: p for p in products}`: the last of several wins.
unfoldable pub index_products : Catalog → List ProductSnapshot → Catalog
index_products acc [] = acc
index_products acc (p ∷ ps) = index_products (insert p.sku p acc) ps

-- The rows of Shopify by SKU; the last of several wins.
unfoldable pub index_rows :
    List (String × VariantRow) → List VariantRow → List (String × VariantRow)
index_rows acc [] = acc
index_rows acc (r ∷ rs) = index_rows (insert r.sku r acc) rs

unfoldable pub missing_rows :
    List (String × VariantRow) → Catalog → Bucket NotInShopifyRow → Bucket NotInShopifyRow
unfolding add
missing_rows shopify [] b = b
missing_rows shopify ((sku, p) ∷ ps) b = missing_rows shopify ps (
    if is_none (lookup sku shopify)
    then add sample_size (record { sku = sku; bims_quantity = p.stock }) 1 b
    else b)

unfoldable pub plan : List ProductSnapshot → List VariantRow → ReconcilePlan
unfolding compare_all index_products index_rows missing_rows
plan products rows =
    let snapshot_by_sku = index_products [] products in
    let shopify = index_rows [] rows in
    let tally = compare_all snapshot_by_sku shopify empty_tally in
    record {
      report = record {
        scanned_snapshot = length snapshot_by_sku;
        scanned_shopify = length shopify;
        tally = tally;
        not_in_shopify = missing_rows shopify snapshot_by_sku empty_bucket;
        updated = empty_bucket;
        failed = empty_bucket;
        blocked_by_guard = empty_bucket;
        guard = none;
      };
      to_push = tally.to_push;
    }

abbrev finish : List InventoryDelta → Result String (Unit {0}) → Result String Applied
finish deltas (ok _) = ok (resolved deltas)
finish deltas (err e) = err e

-- The `try`/`finally` around the writer.
unfoldable pub write_plan : (ℕ → Option String) → List InventoryDelta → Report → Run
unfolding push_in_batches
write_plan answer deltas report =
    let (outcome, pushed) = push_in_batches answer deltas nothing_pushed in
    record {
      result = finish deltas outcome;
      report = record report { updated = pushed.updated; failed = pushed.failed };
      accepted = pushed.accepted;
    }

-- A call that raises before anything is written.
abbrev pub stopped : String → Report → Run
stopped e report = record { result = err e; report = report; accepted = [] }

-- `apply` after the guard has answered and its numbers are taken.
unfoldable pub apply_numbered :
    (ℕ → Option String)
    → Bool
    → List InventoryDelta
    → Report
    → Option NeedsConfirmation
    → Result String GuardNumbers
    → Run
unfolding write_plan add_updated
apply_numbered answer dry_run deltas report verdict (err e) = stopped e report
apply_numbered answer dry_run deltas report (some c) (ok numbers) = record {
  result = ok (needs_confirmation c);
  report = record report {
    guard = some numbers;
    blocked_by_guard = add_updated deltas empty_bucket;
  };
  accepted = [];
}
apply_numbered answer dry_run deltas report none (ok numbers) =
    let numbered = record report { guard = some numbers } in
    if dry_run
    then record { result = ok (resolved deltas); report = numbered; accepted = [] }
    else write_plan answer deltas numbered

abbrev reason_of : Option NeedsConfirmation → Option GuardReason
reason_of none = none
reason_of (some c) = some c.reason

module _ (parse_float parse_int : String → Option ℤ) where
  unfoldable pub guard_numbers :
      Tenant → List InventoryDelta → Option NeedsConfirmation → Bool → Result String GuardNumbers
  unfolding zeroed max_zero_ratio max_changed_variants
  guard_numbers tenant deltas verdict force = do
    ratio ← max_zero_ratio parse_float parse_int tenant
    changed ← max_changed_variants parse_float parse_int tenant
    ok (record {
      evaluated = not force;
      forced = force;
      fired = not (is_none verdict);
      reason = reason_of verdict;
      changed_count = length deltas;
      zero_count = zeroed deltas;
      zero_ratio = if ltb 0 (length deltas) then (zeroed deltas, length deltas) else (0, 1);
      max_zero_ratio = ratio;
      max_changed_variants = changed;
    })

  -- `None if force else check_safety_guard(...)`
  unfoldable pub guard_result :
      Tenant → List InventoryDelta → Bool → Result String (Option NeedsConfirmation)
  unfolding check_safety_guard
  guard_result tenant deltas true = ok none
  guard_result tenant deltas false = check_safety_guard parse_float parse_int tenant deltas

  unfoldable pub apply_verdict :
      (ℕ → Option String)
      → ReconcilePlan
      → Tenant
      → Bool
      → Bool
      → Result String (Option NeedsConfirmation)
      → Run
  unfolding guard_numbers apply_numbered
  apply_verdict answer p tenant dry_run force (err e) = stopped e p.report
  apply_verdict answer p tenant dry_run force (ok verdict) =
      apply_numbered answer dry_run p.to_push p.report verdict
        (guard_numbers tenant p.to_push verdict force)

  unfoldable pub apply : (ℕ → Option String) → ReconcilePlan → Tenant → Bool → Bool → Run
  unfolding guard_result apply_verdict
  apply answer p tenant dry_run force =
      apply_verdict answer p tenant dry_run force (guard_result tenant p.to_push force)
