-- ===== src/Reconcile/Safety.antt =====
-- What a comparison asks to be written.
use mathlib.Core.Bool.{false≢true}
use bims_shopify.Base.{
  String, ◌≡◌, ◌≢◌, refl, sym, ◌∙◌, inl, inr, true, false, Option, none, some, List, [], ◌∷◌, arith,
  ℤ, pos, ◌==ℤ◌, lookup, Bool-cases, All, All-append, All-imp, Exists,
}
use bims_shopify.Values.{truncate, of_int}
use bims_shopify.Snapshot.{ProductSnapshot}
use bims_shopify.Inventory.{InventoryDelta}
use bims_shopify.Reconcile.{
  VariantRow, Tally, empty_tally, compare_available, compare_known, compare_all, Catalog,
  known_stock, index_products, index_rows, plan, make_delta,
}

-- The quantity that Shopify holds is not the one that would be written; a variant without a level
-- holds none, and a zero would invent one.
abbrev pub Differs : Option ℤ → ℤ → Type 0
Differs none target = target ≢ pos 0
Differs (some available) target = available ≢ target

-- What a delta says of the quantity before it.
abbrev pub reported : Option ℤ → Option ℤ
reported none = none
reported (some available) = some (of_int available)

-- A delta is the one of a row of Shopify's: it writes the stock that the snapshot knows for the
-- row's SKU to the row's item, reports what the row holds, and changes it.
pub record Warrants (snapshot : Catalog) (d : InventoryDelta) (e : String × VariantRow)
    : Type 0 where
  pub same_sku : d.sku ≡ e.0
  pub same_item : d.variant_inventory_item_id ≡ some e.1.inventory_item_id
  pub known : known_stock (lookup d.sku snapshot) ≡ some d.new_stock
  pub previous : d.previous_stock ≡ reported e.1.available
  pub differs : Differs e.1.available (truncate d.new_stock)

pub ==ℤ_refl : (b : ℤ) → (b ==ℤ b) ≡ true
==ℤ_refl b = ground arith

==ℤ_false : (a b : ℤ) → (a ==ℤ b) ≡ false → a ≢ b
==ℤ_false a b h e = false≢true (sym h ∙ (rw e (==ℤ_refl b)))

-- Each row is one of the rows.
rows-Exists :
    (snapshot : Catalog) (rows : List (String × VariantRow))
    → All
        (λ e. (d : InventoryDelta) → Warrants snapshot d e → Exists (Warrants snapshot d) rows)
        rows
rows-Exists snapshot [] = tt
rows-Exists snapshot (e ∷ rows) = (
  λ d w. inl w,
  All-imp (λ f. (d : InventoryDelta) → Warrants snapshot d f → Exists (Warrants snapshot d) rows)
      (λ f. (d : InventoryDelta) → Warrants snapshot d f → Exists (Warrants snapshot d) (e ∷ rows))
      rows (λ f h d w. inr (h d w)) (rows-Exists snapshot rows),
)

module _ (snapshot : Catalog) (P : InventoryDelta → Type 0) where
  compare_available-All :
      (sku : String) (row : VariantRow) (stock : ℤ) (available : Option ℤ) (t : Tally)
      → known_stock (lookup sku snapshot) ≡ some stock
      → row.available ≡ available
      → ((d : InventoryDelta) → Warrants snapshot d (sku, row) → P d)
      → All P t.to_push
      → All P (compare_available sku row stock (truncate stock) available t).to_push
  unfolding compare_available
  compare_available-All sku row stock none t k r h a =
      elim (Bool-cases (truncate stock ==ℤ pos 0)) [
        | inl e ↦ rw e a
        | inr e ↦ rw e (
            All-append P t.to_push _ a (
              h (make_delta sku none stock row) (record {
                same_sku = refl;
                same_item = refl;
                known = k;
                previous = rw r refl;
                differs = rw r (==ℤ_false (truncate stock) (pos 0) e);
              }),
              tt,
            ))
      ]
  compare_available-All sku row stock (some v) t k r h a =
      elim (Bool-cases (v ==ℤ truncate stock)) [
        | inl e ↦ rw e a
        | inr e ↦ rw e (
            All-append P t.to_push _ a (
              h (make_delta sku (some (of_int v)) stock row) (record {
                same_sku = refl;
                same_item = refl;
                known = k;
                previous = rw r refl;
                differs = rw r (==ℤ_false v (truncate stock) e);
              }),
              tt,
            ))
      ]

  compare_known-All :
      (sku : String) (row : VariantRow) (o : Option ℤ) (t : Tally)
      → known_stock (lookup sku snapshot) ≡ o
      → ((d : InventoryDelta) → Warrants snapshot d (sku, row) → P d)
      → All P t.to_push
      → All P (compare_known sku row o t).to_push
  unfolding compare_known
  compare_known-All sku row none t k h a = a
  compare_known-All sku row (some stock) t k h a =
      compare_available-All sku row stock row.available t k refl h a

  compare_all-All :
      (rows : List (String × VariantRow)) (t : Tally)
      → All (λ e. (d : InventoryDelta) → Warrants snapshot d e → P d) rows
      → All P t.to_push
      → All P (compare_all snapshot rows t).to_push
  unfolding compare_all
  compare_all-All [] t h a = a
  compare_all-All ((sku, row) ∷ rows) t h a =
      compare_all-All rows (compare_known sku row (known_stock (lookup sku snapshot)) t) h.1
        (compare_known-All sku row (known_stock (lookup sku snapshot)) t refl h.0 a)

-- Every delta of a plan is the one of a row that Shopify lists: it writes the stock that the
-- snapshot knows for the row's SKU, never an unknown one, to the row's item, and the quantity that
-- Shopify lists there is another one; no zero is written where the row has no inventory level.
pub plan-IsWarranted :
    (products : List ProductSnapshot) (rows : List VariantRow)
    → All
        (λ d. Exists (Warrants (index_products [] products) d) (index_rows [] rows))
        (plan products rows).to_push
unfolding plan
plan-IsWarranted products rows =
    compare_all-All (index_products [] products)
      (λ d. Exists (Warrants (index_products [] products) d) (index_rows [] rows))
      (index_rows [] rows) empty_tally
      (rows-Exists (index_products [] products) (index_rows [] rows)) tt
