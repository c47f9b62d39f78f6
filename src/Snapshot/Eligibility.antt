-- ===== src/Snapshot/Eligibility.antt =====
-- Which products a snapshot offers to the write cycle, and with what stock.
use bims_shopify.Base.{
  suc, String, ◌≡◌, refl, ◌⊎◌, inl, inr, Bool, true, false, Option, none, some, List, [], ◌∷◌,
  arith, if◌then◌else◌, ℤ, pos, lookup, length, count, All,
}
use bims_shopify.Snapshot.{
  CatalogRow, ProductSnapshot, CatalogSnapshot, Tenant, eligible, resolve_quantity, snapshot_of,
  add_row, resolve_rows, absent_means_zero, quantities, list_products, has_sku,
}

-- What a product's stock may be: the reported number; where none is reported, zero if the tenant
-- asked for it, and otherwise unknown.
abbrev pub Honest : Bool → List (String × ℤ) → ProductSnapshot → Type 0
Honest zero stock p =
    (lookup p.sku stock ≡ p.stock)
    ⊎ ((lookup p.sku stock ≡ none) × (zero ≡ true) × (p.stock ≡ some (pos 0)))

snapshot_of-Honest :
    (zero : Bool) (stock : List (String × ℤ)) (row : CatalogRow) (sku : String)
    → Honest zero stock (snapshot_of zero stock row sku)
unfolding snapshot_of resolve_quantity
snapshot_of-Honest zero stock row sku = by_lookup zero (lookup sku stock)
  where
    by_lookup :
        (z : Bool) (o : Option ℤ)
        → (o ≡ resolve_quantity z o)
          ⊎ ((o ≡ none) × (z ≡ true) × (resolve_quantity z o ≡ some (pos 0)))
    by_lookup z (some q) = inl refl
    by_lookup true none = inr (refl, refl, refl)
    by_lookup false none = inl refl

add_row-Honest :
    (zero : Bool) (stock : List (String × ℤ)) (row : CatalogRow) (sku : Option String)
    (rest : List ProductSnapshot)
    → All (Honest zero stock) rest
    → All (Honest zero stock) (add_row zero stock row sku rest)
unfolding add_row
add_row-Honest zero stock row none rest h = h
add_row-Honest zero stock row (some sku) rest h = go (eligible row)
  where
    go :
        (b : Bool)
        → All (Honest zero stock) (if b then snapshot_of zero stock row sku ∷ rest else rest)
    go true = (snapshot_of-Honest zero stock row sku, h)
    go false = h

resolve_rows-Honest :
    (zero : Bool) (stock : List (String × ℤ)) (rows : List CatalogRow)
    → All (Honest zero stock) (resolve_rows zero stock rows)
unfolding resolve_rows
resolve_rows-Honest zero stock [] = tt
resolve_rows-Honest zero stock (row ∷ rows) =
    add_row-Honest zero stock row row.sku (resolve_rows zero stock rows)
      (resolve_rows-Honest zero stock rows)

-- Every product of a snapshot has exactly the stock that was reported for its SKU; a SKU without a
-- stock record is unknown, and zero only if the tenant opted in.
pub list_products-Honest :
    (snapshot : CatalogSnapshot) (tenant : Tenant)
    → All
        (Honest (absent_means_zero tenant.field_mappings) (quantities snapshot.stock))
        (list_products snapshot tenant)
unfolding list_products
list_products-Honest snapshot tenant =
    resolve_rows-Honest (absent_means_zero tenant.field_mappings) (quantities snapshot.stock)
      snapshot.rows

has_sku_of_eligible : (row : CatalogRow) → eligible row ≡ true → has_sku row.sku ≡ true
unfolding eligible
has_sku_of_eligible row h = ground arith

length-add_row :
    (zero : Bool) (stock : List (String × ℤ)) (row : CatalogRow) (sku : Option String)
    (rest : List ProductSnapshot)
    → (eligible row ≡ true → has_sku sku ≡ true)
    → length (add_row zero stock row sku rest)
      ≡ (if eligible row then suc (length rest) else length rest)
unfolding add_row
length-add_row zero stock row none rest h = ground arith
length-add_row zero stock row (some sku) rest h = ground arith

length-resolve_rows :
    (zero : Bool) (stock : List (String × ℤ)) (rows : List CatalogRow)
    → length (resolve_rows zero stock rows) ≡ count eligible rows
unfolding resolve_rows
length-resolve_rows zero stock [] = refl
length-resolve_rows zero stock (row ∷ rows) = ground (
  arith,
  length-resolve_rows zero stock rows,
  has_sku_of_eligible row,
  length-add_row zero stock row row.sku (resolve_rows zero stock rows) (has_sku_of_eligible row),
)

-- Exactly the eligible rows become products: one each, whatever the stock says.
pub length-list_products :
    (snapshot : CatalogSnapshot) (tenant : Tenant)
    → length (list_products snapshot tenant) ≡ count eligible snapshot.rows
unfolding list_products
length-list_products snapshot tenant =
    length-resolve_rows (absent_means_zero tenant.field_mappings) (quantities snapshot.stock)
      snapshot.rows
