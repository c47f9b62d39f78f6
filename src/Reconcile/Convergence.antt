-- ===== src/Reconcile/Convergence.antt =====
-- A reconciliation whose writes arrive leaves nothing to reconcile.
use mathlib.Core.Bool.{false≢true}
use text.Mathlib.TextPositions.{eq_refl}
use bims_shopify.Base.{
  String, ◌≡◌, refl, sym, ap, ap₂, ◌∙◌, inl, inr, Bool, false, Option, none, some, List, [], ◌∷◌,
  ◌++◌, append-nil, append_assoc, if◌then◌else◌, ℤ, pos, ◌==ℤ◌, lookup, Bool-cases, All, All-imp,
  All-zip, subst, str_eq, eq_iff,
}
use bims_shopify.Values.{truncate, of_int}
use bims_shopify.Inventory.{InventoryDelta}
use bims_shopify.Reconcile.{
  VariantRow, Tally, empty_tally, compare_available, compare_known, compare_all, Catalog,
  known_stock, make_delta,
}
use bims_shopify.Reconcile.Safety.{==ℤ_refl}

abbrev pub Rows : Type 0
Rows = List (String × VariantRow)

abbrev pub is_item : Option String → String → Bool
is_item none id = false
is_item (some i) id = str_eq i id

-- Shopify's quantity of an item after absolute quantities have been set: the integer part of the
-- stock that was sent, and otherwise what it was.
unfoldable pub available_after : List InventoryDelta → String → Option ℤ → Option ℤ
available_after [] id available = available
available_after (d ∷ ds) id available =
    if is_item d.variant_inventory_item_id id
    then some (truncate d.new_stock)
    else available_after ds id available

abbrev pub row_after : List InventoryDelta → VariantRow → VariantRow
row_after ds row = record row { available = available_after ds row.inventory_item_id row.available }

abbrev pub rows_after : List InventoryDelta → Rows → Rows
rows_after ds [] = []
rows_after ds ((sku, row) ∷ rows) = (sku, row_after ds row) ∷ rows_after ds rows

-- Two SKUs never share an inventory item.
abbrev pub DistinctItems : Rows → Type 0
DistinctItems [] = Unit
DistinctItems ((_, row) ∷ rows) =
    All (λ e. str_eq row.inventory_item_id e.1.inventory_item_id ≡ false) rows × DistinctItems rows

-- The deltas of one row.
abbrev delta_of : String → VariantRow → Option ℤ → Option ℤ → List InventoryDelta
delta_of sku row none available = []
delta_of sku row (some stock) none =
    if truncate stock ==ℤ pos 0 then [] else make_delta sku none stock row ∷ []
delta_of sku row (some stock) (some a) =
    if a ==ℤ truncate stock then [] else make_delta sku (some (of_int a)) stock row ∷ []

compare_available_pushes :
    (sku : String) (row : VariantRow) (stock : ℤ) (a : Option ℤ) (t : Tally)
    → (compare_available sku row stock (truncate stock) a t).to_push
      ≡ t.to_push ++ delta_of sku row (some stock) a
unfolding compare_available
compare_available_pushes sku row stock none t = elim (Bool-cases (truncate stock ==ℤ pos 0)) [
  | inl e ↦ rw e (sym (append-nil t.to_push))
  | inr e ↦ rw e refl
]
compare_available_pushes sku row stock (some a) t = elim (Bool-cases (a ==ℤ truncate stock)) [
  | inl e ↦ rw e (sym (append-nil t.to_push))
  | inr e ↦ rw e refl
]

compare_known_pushes :
    (sku : String) (row : VariantRow) (stock : Option ℤ) (t : Tally)
    → (compare_known sku row stock t).to_push ≡ t.to_push ++ delta_of sku row stock row.available
unfolding compare_known
compare_known_pushes sku row none t = sym (append-nil t.to_push)
compare_known_pushes sku row (some stock) t = compare_available_pushes sku row stock row.available t

str_eq_flip : (a b : String) → str_eq a b ≡ false → str_eq b a ≡ false
str_eq_flip a b h = elim (Bool-cases (str_eq b a)) [
  | inl e ↦ absurd (false≢true (sym h ∙ (eq_iff a b).1 (sym ((eq_iff b a).0 e))))
  | inr e ↦ e
]

module _ (snapshot : Catalog) where
  -- The deltas of a plan, row by row.
  abbrev pushes : Rows → List InventoryDelta
  pushes [] = []
  pushes ((sku, row) ∷ rows) =
      delta_of sku row (known_stock (lookup sku snapshot)) row.available ++ pushes rows

  compare_all_pushes :
      (rows : Rows) (t : Tally) → (compare_all snapshot rows t).to_push ≡ t.to_push ++ pushes rows
  unfolding compare_all
  compare_all_pushes [] t = sym (append-nil t.to_push)
  compare_all_pushes ((sku, row) ∷ rows) t =
      let stock = known_stock (lookup sku snapshot) in
      compare_all_pushes rows (compare_known sku row stock t)
      ∙ ap (λ l. l ++ pushes rows) (compare_known_pushes sku row stock t)
      ∙ append_assoc t.to_push (delta_of sku row stock row.available) (pushes rows)

  -- A delta of one row says nothing of another item.
  after_other :
      (id sku : String) (row : VariantRow) (stock available a : Option ℤ) (ds : List InventoryDelta)
      → str_eq row.inventory_item_id id ≡ false
      → available_after (delta_of sku row stock available ++ ds) id a ≡ available_after ds id a
  unfolding available_after
  after_other id sku row none available a ds h = refl
  after_other id sku row (some stock) none a ds h = elim (Bool-cases (truncate stock ==ℤ pos 0)) [
    | inl e ↦ rw e refl
    | inr e ↦ rw (e, h) refl
  ]
  after_other id sku row (some stock) (some b) a ds h = elim (Bool-cases (b ==ℤ truncate stock)) [
    | inl e ↦ rw e refl
    | inr e ↦ rw (e, h) refl
  ]

  -- An item that no row has keeps its quantity.
  after_absent :
      (id : String) (rows : Rows) (a : Option ℤ)
      → All (λ e. str_eq e.1.inventory_item_id id ≡ false) rows
      → available_after (pushes rows) id a ≡ a
  unfolding available_after
  after_absent id [] a h = refl
  after_absent id ((sku, row) ∷ rows) a (h, hs) =
      after_other id sku row (known_stock (lookup sku snapshot)) row.available a (pushes rows) h
      ∙ after_absent id rows a hs

  -- What a row's own delta leaves needs no delta.
  after_own :
      (sku : String) (row : VariantRow) (stock available : Option ℤ) (ds : List InventoryDelta)
      (r : VariantRow)
      → available_after ds row.inventory_item_id available ≡ available
      → delta_of sku r stock
          (available_after (delta_of sku row stock available ++ ds) row.inventory_item_id available)
        ≡ []
  unfolding available_after
  after_own sku row none available ds r h = refl
  after_own sku row (some stock) none ds r h = elim (Bool-cases (truncate stock ==ℤ pos 0)) [
    | inl e ↦ rw (e, h) (rw e refl)
    | inr e ↦ rw (e, eq_refl row.inventory_item_id) (rw (==ℤ_refl (truncate stock)) refl)
  ]
  after_own sku row (some stock) (some b) ds r h = elim (Bool-cases (b ==ℤ truncate stock)) [
    | inl e ↦ rw (e, h) (rw e refl)
    | inr e ↦ rw (e, eq_refl row.inventory_item_id) (rw (==ℤ_refl (truncate stock)) refl)
  ]

  -- The row needs no delta once the deltas are written.
  abbrev Settled : List InventoryDelta → String × VariantRow → Type 0
  Settled ds (sku, row) =
      delta_of sku (row_after ds row) (known_stock (lookup sku snapshot))
        (available_after ds row.inventory_item_id row.available)
      ≡ []

  still-Settled :
      (sku : String) (row : VariantRow) (stock : Option ℤ) (ds : List InventoryDelta)
      (e : String × VariantRow)
      → str_eq row.inventory_item_id e.1.inventory_item_id ≡ false
      → Settled ds e
      → Settled (delta_of sku row stock row.available ++ ds) e
  still-Settled sku row stock ds (sku', row') apart h =
      subst
        (λ a.
          delta_of sku' (record row' { available = a }) (known_stock (lookup sku' snapshot)) a ≡ [])
        (sym
          (after_other row'.inventory_item_id sku row stock row.available row'.available ds apart))
        h

  All-Settled : (rows : Rows) → DistinctItems rows → All (Settled (pushes rows)) rows
  All-Settled [] d = tt
  All-Settled ((sku, row) ∷ rows) (apart, d) = (
    after_own sku row (known_stock (lookup sku snapshot)) row.available (pushes rows)
        (row_after (pushes ((sku, row) ∷ rows)) row)
        (after_absent row.inventory_item_id rows row.available (
          All-imp _ _ rows (λ e h. str_eq_flip row.inventory_item_id e.1.inventory_item_id h)
            apart)),
    All-zip _ _ _ rows
        (λ e h k. still-Settled sku row (known_stock (lookup sku snapshot)) (pushes rows) e h k)
        apart (All-Settled rows d),
  )

  pushes-Settled :
      (ds : List InventoryDelta) (rows : Rows)
      → All (Settled ds) rows
      → pushes (rows_after ds rows) ≡ []
  pushes-Settled ds [] h = refl
  pushes-Settled ds ((sku, row) ∷ rows) (h, hs) = ap₂ (λ a b. a ++ b) h (pushes-Settled ds rows hs)

  -- When every write of a comparison has arrived, and no two SKUs share an inventory item, comparing
  -- Shopify with the same snapshot again plans no write: one reconciliation is enough.
  pub compare_all_converges :
      (rows : Rows)
      → DistinctItems rows
      → (compare_all snapshot
          (rows_after (compare_all snapshot rows empty_tally).to_push rows)
          empty_tally).to_push
        ≡ []
  compare_all_converges rows d =
      compare_all_pushes (rows_after (compare_all snapshot rows empty_tally).to_push rows)
        empty_tally
      ∙ ap (λ ds. pushes (rows_after ds rows)) (compare_all_pushes rows empty_tally)
      ∙ pushes-Settled (pushes rows) rows (All-Settled rows d)
