-- ===== src/Generations/Writing.antt =====
-- What the chunked writes of a staging leave behind: some rows of the new generation, and all of
-- them when no chunk fails.
use bims_shopify.Base.{
  ℕ, suc, ◌<◌, String, ◌≡◌, refl, sym, ap, ◌∙◌, Option, none, some, List, [], ◌∷◌, ◌++◌, append-nil,
  append_assoc, map, map-append, flatten, chunks, flatten-chunks, Result, ok, err, tag, tag-append,
}
use bims_shopify.Snapshot.{CatalogRow, StockRecord, CatalogPull}
use bims_shopify.Generations.{
  Db, stored_row, stock_entries, write_products, write_stock, continue_stock, write_rows,
}

abbrev pub add_rows : ℕ → List CatalogRow → List (String × StockRecord) → Db → Db
add_rows id xs ys db = record db {
  products = db.products ++ tag id xs;
  stock = db.stock ++ tag id ys;
}

-- Some rows of the generation were added to the products, and all of `cs` after a success.
record Adds (id : ℕ) (cs : List (List CatalogRow)) (db : Db) (out : Result String ℕ × Db)
    : Type 0 where
  rows : List CatalogRow
  added : out.1 ≡ add_rows id rows [] db
  complete : (n : ℕ) → out.0 ≡ ok n → rows ≡ map stored_row (flatten cs)

record AddsStock (id : ℕ) (cs : List (List (String × StockRecord))) (db : Db)
    (out : Result String ℕ × Db) : Type 0 where
  rows : List (String × StockRecord)
  added : out.1 ≡ add_rows id [] rows db
  complete : (n : ℕ) → out.0 ≡ ok n → rows ≡ flatten cs

add_rows-more :
    (id : ℕ) (xs ys : List CatalogRow) (db : Db)
    → add_rows id ys [] (record db { products = db.products ++ tag id xs })
      ≡ add_rows id (xs ++ ys) [] db
add_rows-more id xs ys db = simp (tag-append, append_assoc)

add_rows-more_stock :
    (id : ℕ) (xs ys : List (String × StockRecord)) (db : Db)
    → add_rows id [] ys (record db { stock = db.stock ++ tag id xs }) ≡ add_rows id [] (xs ++ ys) db
add_rows-more_stock id xs ys db = simp (tag-append, append_assoc)

add_rows_none : (id : ℕ) (db : Db) → db ≡ add_rows id [] [] db
unfolding tag
add_rows_none id db = simp append-nil

add_rows_both :
    (id : ℕ) (xs : List CatalogRow) (ys : List (String × StockRecord)) (db : Db)
    → add_rows id [] ys (add_rows id xs [] db) ≡ add_rows id xs ys db
unfolding tag
add_rows_both id xs ys db = simp append-nil

module _ (id : ℕ) (fail : ℕ → Option String) where
  write_products-Adds :
      (n : ℕ) (cs : List (List CatalogRow)) (db : Db)
      → Adds id cs db (write_products id fail n cs db)
  unfolding write_products
  write_products-Adds n [] db = record {
    rows = [];
    added = add_rows_none id db;
    complete = λ m h. refl;
  }
  write_products-Adds n (c ∷ cs) db = go (write_products-Adds (suc n) cs step) (fail n)
    where
      step : Db
      step = record db { products = db.products ++ tag id (map stored_row c) }

      go :
          Adds id cs step (write_products id fail (suc n) cs step)
          → (o : Option String)
          → Adds id (c ∷ cs) db (elim o as (λ _. Result String ℕ × Db) [
            | some e ↦ (err e, db)
            | none ↦ write_products id fail (suc n) cs step
          ])
      go ih (some e) = record { rows = []; added = add_rows_none id db; complete = λ m h. cc }
      go ih none = record {
        rows = map stored_row c ++ ih.rows;
        added = ih.added ∙ add_rows-more id (map stored_row c) ih.rows db;
        complete = λ m h.
            ap (λ r. map stored_row c ++ r) (ih.complete m h)
            ∙ sym (map-append stored_row c (flatten cs));
      }

  write_stock-Adds :
      (n : ℕ) (cs : List (List (String × StockRecord))) (db : Db)
      → AddsStock id cs db (write_stock id fail n cs db)
  unfolding write_stock
  write_stock-Adds n [] db = record {
    rows = [];
    added = add_rows_none id db;
    complete = λ m h. refl;
  }
  write_stock-Adds n (c ∷ cs) db = go (write_stock-Adds (suc n) cs step) (fail n)
    where
      step : Db
      step = record db { stock = db.stock ++ tag id c }

      go :
          AddsStock id cs step (write_stock id fail (suc n) cs step)
          → (o : Option String)
          → AddsStock id (c ∷ cs) db (elim o as (λ _. Result String ℕ × Db) [
            | some e ↦ (err e, db)
            | none ↦ write_stock id fail (suc n) cs step
          ])
      go ih (some e) = record { rows = []; added = add_rows_none id db; complete = λ m h. cc }
      go ih none = record {
        rows = c ++ ih.rows;
        added = ih.added ∙ add_rows-more_stock id c ih.rows db;
        complete = λ m h. ap (λ r. c ++ r) (ih.complete m h);
      }

-- A staging adds rows of its own generation only, and after a success exactly those of the pull.
pub record Wrote (id size : ℕ) (pull : CatalogPull) (db : Db) (out : Result String ℕ × Db)
    : Type 0 where
  pub rows : List CatalogRow
  pub stock : List (String × StockRecord)
  pub added : out.1 ≡ add_rows id rows stock db
  pub complete :
      (n : ℕ)
      → out.0 ≡ ok n
      → 0 < size
      → (rows ≡ map stored_row pull.rows) × (stock ≡ stock_entries pull pull.stock)

module _ (id : ℕ) (fail : ℕ → Option String) (size : ℕ) (pull : CatalogPull) (db : Db) where
  continue_stock-Wrote :
      (out : Result String ℕ × Db)
      → Adds id (chunks size pull.rows) db out
      → Wrote id size pull db (continue_stock id fail size pull out)
  unfolding continue_stock
  continue_stock-Wrote (err e, db') a = record {
    rows = a.rows;
    stock = [];
    added = a.added;
    complete = λ n h p. cc;
  }
  continue_stock-Wrote (ok n, db') a = wrote (write_stock-Adds id fail n cs db')
    where
      cs : List (List (String × StockRecord))
      cs = chunks size (stock_entries pull pull.stock)

      wrote :
          AddsStock id cs db' (write_stock id fail n cs db')
          → Wrote id size pull db (write_stock id fail n cs db')
      wrote s = record {
        rows = a.rows;
        stock = s.rows;
        added = s.added ∙ ap (add_rows id [] s.rows) a.added ∙ add_rows_both id a.rows s.rows db;
        complete = λ m h p. (
          a.complete n refl ∙ ap (map stored_row) (flatten-chunks size pull.rows p),
          s.complete m h ∙ flatten-chunks size (stock_entries pull pull.stock) p,
        );
      }

  pub write_rows-Wrote : Wrote id size pull db (write_rows id fail size pull db)
  unfolding write_rows
  write_rows-Wrote =
      continue_stock-Wrote (write_products id fail 0 (chunks size pull.rows) db)
        (write_products-Adds id fail 0 (chunks size pull.rows) db)
