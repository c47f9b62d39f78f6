-- ===== src/Tests/Writes.antt =====
-- The safety guard, the batch writer and the reconciliation at concrete deltas.
use mathlib.Core.Bool.{false≢true}
use bims_shopify.Base.{
  sym, ap, ◌∙◌, ℕ, ◌≤◌, String, ◌≡◌, ◌≢◌, refl, ◌↔◌, ◌⊎◌, Bool, true, false, Option, none, some,
  List, [], ◌∷◌, length, All, Exists, ℤ, pos, arith, Result, ok, err, Option-cases, flatten, chunks,
}
use bims_shopify.Snapshot.{ProductSnapshot}
use bims_shopify.Inventory.{
  InventoryDelta, check_safety_guard, push_in_batches, nothing_pushed, Pushed,
  inventory_push_batch_size,
}
use bims_shopify.Inventory.Guard.{Acceptable, check_safety_guard_iff}
use bims_shopify.Inventory.Push.{Accounts, push_in_batches-Accounts}
use bims_shopify.Reconcile.Convergence.{rows_after, compare_all_converges}
use bims_shopify.Reconcile.{
  compare_all, empty_tally, VariantRow, plan, apply, index_products, index_rows,
}
use bims_shopify.Reconcile.Application.{apply_writes}
use bims_shopify.Reconcile.Partition.{IsCounted, plan-IsCounted}
use bims_shopify.Reconcile.Safety.{Warrants, plan-IsWarranted}
use bims_shopify.Tests.{shop}

-- Texts are never numbers here.
abbrev no_number : String → Option ℤ
no_number s = none

abbrev delta : InventoryDelta
delta = record {
  sku = "PEN";
  previous_stock = none;
  new_stock = pos 3000000000;
  variant_inventory_item_id = some "gid://1";
}

abbrev deltas : List InventoryDelta
deltas = delta ∷ record delta { sku = "INK"; new_stock = pos 0 } ∷ []

check_safety_guard_iff_example :
    (check_safety_guard no_number no_number shop deltas ≡ ok none)
    ↔ ((deltas ≡ []) ⊎ Acceptable (pos 200000000) (pos 10) deltas)
unfolding bims_shopify.Inventory.max_zero_ratio bims_shopify.Base.lookup
    bims_shopify.Inventory.max_changed_variants
check_safety_guard_iff_example =
    check_safety_guard_iff no_number no_number shop deltas {ratio = pos 200000000}
      {changed = pos 10} refl refl

abbrev accepting : ℕ → Option String
accepting n = none

abbrev refusing : ℕ → Option String
refusing n = some "throttled"

push_in_batches-Accounts_example :
    (flatten (chunks inventory_push_batch_size deltas) ≡ deltas)
    × Accounts refusing 0
        (chunks inventory_push_batch_size deltas)
        nothing_pushed
        (push_in_batches refusing deltas nothing_pushed)
push_in_batches-Accounts_example = push_in_batches-Accounts refusing deltas nothing_pushed

abbrev product : ProductSnapshot
product = record {
  sku = "PEN";
  name = "Pen";
  price = pos 5000000000;
  stock = some (pos 3000000000);
  enabled = true;
}

abbrev variant : VariantRow
variant = record { sku = "PEN"; inventory_item_id = "gid://1"; available = some (pos 1) }

plan-IsCounted_example :
    IsCounted
      (index_products [] (product ∷ []))
      (index_rows [] (variant ∷ []))
      (plan (product ∷ []) (variant ∷ [])).report.tally
    × (((plan (product ∷ []) (variant ∷ [])).to_push
          ≡ (plan (product ∷ []) (variant ∷ [])).report.tally.to_push)
        × ((plan (product ∷ []) (variant ∷ [])).report.scanned_shopify
            ≡ length (index_rows [] (variant ∷ []))))
plan-IsCounted_example = plan-IsCounted (product ∷ []) (variant ∷ [])

plan-IsWarranted_example :
    All
      (λ d. Exists (Warrants (index_products [] (product ∷ [])) d) (index_rows [] (variant ∷ [])))
      (plan (product ∷ []) (variant ∷ [])).to_push
plan-IsWarranted_example = plan-IsWarranted (product ∷ []) (variant ∷ [])

abbrev is_empty : List (List InventoryDelta) → Bool
is_empty [] = true
is_empty (b ∷ bs) = false

drift_accepted :
    is_empty
      (apply no_number no_number accepting
        (plan (product ∷ []) (variant ∷ []))
        shop
        false
        false).accepted
    ≡ false
unfolding apply plan bims_shopify.Base.insert bims_shopify.Base.lookup bims_shopify.Base.chunks_fuel
drift_accepted = refl

drift_written :
    (apply no_number no_number accepting
      (plan (product ∷ []) (variant ∷ []))
      shop
      false
      false).accepted
    ≢ []
drift_written h = false≢true (sym drift_accepted ∙ ap is_empty h)

apply_writes_example :
    (false ≡ false)
    × ((false ≡ true)
        ⊎ (check_safety_guard no_number no_number shop (plan (product ∷ []) (variant ∷ [])).to_push
            ≡ ok none))
apply_writes_example =
    apply_writes accepting no_number no_number (plan (product ∷ []) (variant ∷ [])) shop false false
      drift_written

-- A variant whose SKU the snapshot does not have.
abbrev other : VariantRow
other = record { sku = "INK"; inventory_item_id = "gid://2"; available = none }

compare_all_converges_example :
    (compare_all
      (("PEN", product) ∷ [])
      (rows_after
        (compare_all
          (("PEN", product) ∷ [])
          (("PEN", variant) ∷ ("INK", other) ∷ [])
          empty_tally).to_push
        (("PEN", variant) ∷ ("INK", other) ∷ []))
      empty_tally).to_push
    ≡ []
compare_all_converges_example =
    compare_all_converges (("PEN", product) ∷ []) (("PEN", variant) ∷ ("INK", other) ∷ [])
      ((refl, tt), (tt, tt))
