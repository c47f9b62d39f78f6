-- ===== src/Generations/Tables.antt =====
-- The tables behind the store of generations: their rows (models.py), the selections and updates
-- that the repository's statements make, and what a row becomes on its way in.
use Prim.Native.String.{String}
use bims_shopify.Base.{
  ℕ, zero, suc, Bool, true, false, not, Option, none, some, List, [], ◌∷◌, ◌==◌, ◌&&◌,
  if◌then◌else◌, length, lookup, insert, Result, ok, err, mem_ℕ, ℤ,
}
use bims_shopify.Values.{string, Object}
use bims_shopify.Snapshot.{Status, CatalogRow, StockRecord, CatalogPull, SnapshotMeta}
use bims_shopify.Stock.{ByWarehouse}

-- `CatalogSnapshotModel`
pub record Generation : Type 0 where
  pub id : ℕ
  pub tenant_id : ℕ
  pub status : Status
  pub is_current : Bool
  pub started_at : ℕ
  pub finished_at : Option ℕ
  pub rows_pulled : ℕ
  pub stock_rows : ℕ
  pub pages : ℕ
  pub reported_count : Option ℕ
  pub complete : Option Bool
  pub stop_reason : String
  pub warnings : List String
  pub timings : Object
  pub stats : Option Object
  pub rejection : Option Object

-- The three tables, the rows of the last two keyed by the generation, and the id sequence.
pub record Db : Type 0 where
  pub generations : List Generation
  pub products : List (ℕ × CatalogRow)
  pub stock : List (ℕ × (String × StockRecord))
  pub next_id : ℕ

abbrev pub same_status : Status → Status → Bool
same_status Status.building Status.building = true
same_status Status.current Status.current = true
same_status Status.superseded Status.superseded = true
same_status Status.rejected Status.rejected = true
same_status Status.failed Status.failed = true
same_status _ _ = false

-- `is_current` of a tenant's row.
abbrev pub is_current_of : ℕ → Generation → Bool
is_current_of tenant_id g = (g.tenant_id == tenant_id) && g.is_current

abbrev pub not_in : ℕ → List ℕ → Bool
not_in n ns = not (mem_ℕ n ns)

-- `UPDATE ... WHERE p`
unfoldable pub update_where :
    (Generation → Bool) → (Generation → Generation) → List Generation → List Generation
update_where p f [] = []
update_where p f (g ∷ gs) = (if p g then f g else g) ∷ update_where p f gs

-- `SELECT id ... WHERE p`
unfoldable pub ids_where : (Generation → Bool) → List Generation → List ℕ
ids_where p [] = []
ids_where p (g ∷ gs) = if p g then g.id ∷ ids_where p gs else ids_where p gs

-- `SELECT ... WHERE id = snapshot_id`
unfoldable pub find_generation : ℕ → List Generation → Option Generation
find_generation id [] = none
find_generation id (g ∷ gs) = if g.id == id then some g else find_generation id gs

-- `dict(model.stats) if model.stats else None`
abbrev pub non_empty : Option Object → Option Object
non_empty (some (e ∷ es)) = some (e ∷ es)
non_empty _ = none

-- `_to_meta`
unfoldable pub to_meta : Generation → SnapshotMeta
to_meta g = record {
  id = g.id;
  tenant_id = g.tenant_id;
  status = g.status;
  started_at = g.started_at;
  finished_at = g.finished_at;
  rows_pulled = g.rows_pulled;
  stock_rows = g.stock_rows;
  pages = g.pages;
  reported_count = g.reported_count;
  complete = g.complete;
  stop_reason = g.stop_reason;
  warnings = g.warnings;
  timings = g.timings;
  stats = non_empty g.stats;
  rejection = non_empty g.rejection;
}

unfoldable pub meta_by_id : ℕ → List Generation → Result String SnapshotMeta
meta_by_id id gens = elim (find_generation id gens) [
  | none ↦ err "NoResultFound"
  | some g ↦ ok (to_meta g)
]

-- `text[:n]`
unfoldable pub take_chars : ℕ → String → String
take_chars zero s = String.[]
take_chars (suc n) String.[] = String.[]
take_chars (suc n) (String.◌∷◌ c s) = String.◌∷◌ c (take_chars n s)

-- A product row as it is inserted: the name is cut.
unfoldable pub stored_row : CatalogRow → CatalogRow
stored_row row = record row { name = take_chars 500 row.name }

abbrev or_empty : Option ByWarehouse → ByWarehouse
or_empty none = []
or_empty (some ws) = ws

-- `entries` in `stage`, read back as `load` does.
unfoldable pub stock_entries : CatalogPull → List (String × ℤ) → List (String × StockRecord)
stock_entries pull [] = []
stock_entries pull ((sku, quantity) ∷ rest) =
    (
      sku,
      record {
        quantity = quantity;
        by_warehouse = or_empty (lookup sku pull.stock_by_warehouse);
        unfiltered_total = lookup sku pull.stock_unfiltered;
      },
    )
    ∷ stock_entries pull rest

-- The row that `stage` and `record_rejected` insert.
unfoldable pub new_generation :
    ℕ → ℕ → Status → CatalogPull → ℕ → Option ℕ → Option Object → Generation
new_generation id tenant_id status pull started_at finished_at rejection = record {
  id = id;
  tenant_id = tenant_id;
  status = status;
  is_current = false;
  started_at = started_at;
  finished_at = finished_at;
  rows_pulled = length pull.rows;
  stock_rows = length pull.stock;
  pages = pull.pages;
  reported_count = pull.reported_count;
  complete = pull.complete;
  stop_reason = pull.stop_reason;
  warnings = pull.warnings;
  timings = pull.timings;
  stats = none;
  rejection = rejection;
}

-- `{**a, **b}`
unfoldable pub merge : Object → Object → Object
merge a [] = a
merge a ((k, v) ∷ b) = merge (insert k v a) b

abbrev pub fail_write : String → Generation → Generation
fail_write reason g = record g {
  status = Status.failed;
  rejection =
      some (("reason", string "write_failed") ∷ ("error", string (take_chars 500 reason)) ∷ []);
}

abbrev pub demote : Generation → Generation
demote g = record g { is_current = false; status = Status.superseded }

abbrev pub make_current : ℕ → Option Object → Object → Generation → Generation
make_current finished_at stats extra_timings g = record g {
  status = Status.current;
  is_current = true;
  finished_at = some finished_at;
  stats = stats;
  timings = merge g.timings extra_timings;
}
