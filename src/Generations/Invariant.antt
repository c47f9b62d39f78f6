-- ===== src/Generations/Invariant.antt =====
-- The invariant of the store, and that staging, aborting, promoting, rejecting and purging keep it.
use bims_shopify.Base.{
  ℕ, suc, ◌≤◌, ◌<◌, String, ◌≡◌, refl, sym, ◌∙◌, Bool, true, false, ◌&&◌, Option, none, List, [],
  ◌∷◌, arith, ◌==◌, All, All-of, All-imp, count, KeysBelow, Result, ok, err, KeysBelow-mono,
  without-KeysBelow, tag-KeysBelow, append-KeysBelow, tag,
}
use native.Mathlib.Nat.{le_trans}
use bims_shopify.Snapshot.{Status, CatalogRow, StockRecord, CatalogPull}
use bims_shopify.Generations.Writing.{add_rows, write_rows-Wrote}
use bims_shopify.Generations.{
  abandon, fail_write, new_generation, Generation, Db, same_status, is_current_of, update_where,
  ids_where, delete_rows, delete_generations, abort, write_rows, open_generation, close_stage,
  stage,
}
use bims_shopify.Generations.Ids.{
  Descending, Descending-All, update_ids, update-Descending, update-All, count-update-le,
}

pub record IsValid (db : Db) : Type 0 where
  -- Ids fall along the table and are below the sequence.
  pub ids : Descending db.next_id db.generations
  pub product_owners : KeysBelow db.next_id db.products
  pub stock_owners : KeysBelow db.next_id db.stock
  -- `is_current` and the status say the same.
  pub statuses : All (λ g. g.is_current ≡ same_status g.status Status.current) db.generations
  -- At most one generation of a tenant is current.
  pub one_current : (t : ℕ) → count (is_current_of t) db.generations ≤ 1

pub delete_rows-IsValid : (ids : List ℕ) (db : Db) → IsValid db → IsValid (delete_rows ids db)
unfolding delete_rows
delete_rows-IsValid ids db v = record {
  ids = v.ids;
  product_owners = without-KeysBelow db.next_id ids db.products v.product_owners;
  stock_owners = without-KeysBelow db.next_id ids db.stock v.stock_owners;
  statuses = v.statuses;
  one_current = v.one_current;
}

-- An update that keeps ids and leaves a valid status, and makes no row current.
pub update-IsValid :
    (p : Generation → Bool) (f : Generation → Generation) (db : Db)
    → ((g : Generation) → (f g).id ≡ g.id)
    → All
        (λ g. p g ≡ true → (f g).is_current ≡ same_status (f g).status Status.current)
        db.generations
    → ((t : ℕ) (g : Generation) → is_current_of t (f g) ≡ true → is_current_of t g ≡ true)
    → IsValid db
    → IsValid (record db { generations = update_where p f db.generations })
update-IsValid p f db same kept less v = record {
  ids = update-Descending f p db.next_id db.generations same v.ids;
  product_owners = v.product_owners;
  stock_owners = v.stock_owners;
  statuses =
      update-All f (λ g. g.is_current ≡ same_status g.status Status.current) p db.generations
        v.statuses kept;
  one_current = λ t.
      le_trans
        (count-update-le f p (is_current_of t) db.generations
          (All-of _ (λ g _. less t g) db.generations))
        (v.one_current t);
}

pub building_not_current :
    (s : Status) → same_status s Status.building ≡ true → same_status s Status.current ≡ false
building_not_current Status.building h = refl
building_not_current Status.current h = cc
building_not_current Status.superseded h = refl
building_not_current Status.rejected h = refl
building_not_current Status.failed h = refl

pub delete_generations-IsValid :
    (tenant_id : ℕ) (db : Db)
    → IsValid db
    → IsValid (delete_generations tenant_id Status.building db)
unfolding delete_generations
delete_generations-IsValid tenant_id db v =
    rw (update_ids abandon p db.next_id db.generations v.ids) (
      update-IsValid p abandon emptied (λ g. refl)
        (All-imp _ _ db.generations not_current v.statuses) (λ t g h. h)
        (delete_rows-IsValid (ids_where p db.generations) db v))
  where
    p : Generation → Bool
    p g = (g.tenant_id == tenant_id) && same_status g.status Status.building

    emptied : Db
    emptied = delete_rows (ids_where p db.generations) db

    not_current :
        (g : Generation)
        → g.is_current ≡ same_status g.status Status.current
        → p g ≡ true
        → g.is_current ≡ false
    not_current g e h = e ∙ building_not_current g.status (ground arith)

pub abort-IsValid :
    (id : ℕ) (reason : String) (db : Db)
    → All (λ g. (g.id == id) ≡ true → g.is_current ≡ false) db.generations
    → IsValid db
    → IsValid (abort id reason db)
unfolding abort
abort-IsValid id reason db quiet v =
    update-IsValid (λ g. g.id == id) (fail_write reason) (delete_rows (id ∷ []) db) (λ g. refl)
      quiet (λ t g h. h) (delete_rows-IsValid (id ∷ []) db v)

-- A new row that is not current, of a status that says so, with the next id.
pub insert-IsValid :
    (g : Generation) (db : Db)
    → g.id ≡ db.next_id
    → g.is_current ≡ false
    → same_status g.status Status.current ≡ false
    → IsValid db
    → IsValid (record db { generations = g ∷ db.generations; next_id = suc db.next_id })
insert-IsValid g db fresh quiet status v = record {
  ids = (omega arith, rw fresh v.ids);
  product_owners =
      KeysBelow-mono db.next_id (suc db.next_id) db.products v.product_owners (omega arith);
  stock_owners = KeysBelow-mono db.next_id (suc db.next_id) db.stock v.stock_owners (omega arith);
  statuses = (quiet ∙ sym status, v.statuses);
  one_current = λ t. ground (arith, v.one_current t);
}

pub open_generation-IsValid :
    (tenant_id : ℕ) (pull : CatalogPull) (started_at : ℕ) (db : Db)
    → IsValid db
    → IsValid (open_generation tenant_id pull started_at db)
unfolding open_generation new_generation
open_generation-IsValid tenant_id pull started_at db v =
    insert-IsValid
      (new_generation cleaned.next_id tenant_id Status.building pull started_at none none) cleaned
      refl refl refl (delete_generations-IsValid tenant_id db v)
  where
    cleaned : Db
    cleaned = delete_generations tenant_id Status.building db

pub add_rows-IsValid :
    (id : ℕ) (xs : List CatalogRow) (ys : List (String × StockRecord)) (db : Db)
    → id < db.next_id
    → IsValid db
    → IsValid (add_rows id xs ys db)
add_rows-IsValid id xs ys db lt v = record {
  ids = v.ids;
  product_owners =
      append-KeysBelow db.next_id db.products (tag id xs) v.product_owners
        (tag-KeysBelow db.next_id id xs lt);
  stock_owners =
      append-KeysBelow db.next_id db.stock (tag id ys) v.stock_owners
        (tag-KeysBelow db.next_id id ys lt);
  statuses = v.statuses;
  one_current = v.one_current;
}

fresh_quiet :
    (n : ℕ) (gs : List Generation)
    → Descending n gs
    → All (λ g. (g.id == n) ≡ true → g.is_current ≡ false) gs
fresh_quiet n gs d = All-imp _ _ gs (λ g lt e. absurd (ground (arith, lt))) (Descending-All n gs d)

close_stage-IsValid :
    (id : ℕ) (out : Result String ℕ × Db)
    → All (λ g. (g.id == id) ≡ true → g.is_current ≡ false) out.1.generations
    → IsValid out.1
    → IsValid (close_stage id out).1
unfolding close_stage
close_stage-IsValid id (err e, db) quiet v = abort-IsValid id e db quiet v
close_stage-IsValid id (ok _, db) quiet v = v

pub opened_quiet :
    (tenant_id : ℕ) (pull : CatalogPull) (started_at : ℕ) (db : Db)
    → IsValid db
    → All
        (λ g. (g.id == db.next_id) ≡ true → g.is_current ≡ false)
        (open_generation tenant_id pull started_at db).generations
unfolding open_generation new_generation
opened_quiet tenant_id pull started_at db v = (
  (λ _. refl),
  fresh_quiet db.next_id (delete_generations tenant_id Status.building db).generations
      (delete_generations-IsValid tenant_id db v).ids,
)

pub next_id-open :
    (tenant_id : ℕ) (pull : CatalogPull) (started_at : ℕ) (db : Db)
    → (open_generation tenant_id pull started_at db).next_id ≡ suc db.next_id
unfolding open_generation
next_id-open tenant_id pull started_at db = refl

-- No row belongs to the id that a staging will use.
pub opened_products :
    (tenant_id : ℕ) (pull : CatalogPull) (started_at : ℕ) (db : Db)
    → IsValid db
    → KeysBelow db.next_id (open_generation tenant_id pull started_at db).products
      × KeysBelow db.next_id (open_generation tenant_id pull started_at db).stock
unfolding open_generation
opened_products tenant_id pull started_at db v =
    let cleaned = delete_generations-IsValid tenant_id db v in
    (cleaned.product_owners, cleaned.stock_owners)

-- Staging keeps the invariant, whichever chunk fails.
pub stage-IsValid :
    (fail : ℕ → Option String) (size tenant_id : ℕ) (pull : CatalogPull) (started_at : ℕ) (db : Db)
    → IsValid db
    → IsValid (stage fail size tenant_id pull started_at db).1
unfolding stage
stage-IsValid fail size tenant_id pull started_at db v =
    let opened = open_generation tenant_id pull started_at db in
    let w = write_rows-Wrote db.next_id fail size pull opened in
    close_stage-IsValid db.next_id (write_rows db.next_id fail size pull opened)
      (rw w.added (opened_quiet tenant_id pull started_at db v))
      (rw w.added (
        add_rows-IsValid db.next_id w.rows w.stock opened
          (omega (arith, next_id-open tenant_id pull started_at db))
          (open_generation-IsValid tenant_id pull started_at db v)))
