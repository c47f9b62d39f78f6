-- ===== src/Generations.antt =====
-- src/bims_shopify/adapters/persistence/snapshot_repository.py: the store of catalog generations.
-- The table of generations is kept newest first, which is its order by descending id. A write that
-- fails is an oracle: `fail n` is the error of the n-th chunk of one staging, if it raises.
mod Tables
pub mod Ids
mod Writing
pub mod Invariant
pub mod Visibility
pub mod Promotion
pub mod Retention
pub mod History
pub mod Roundtrip
unfoldable pub use Tables.*
use bims_shopify.Base.{
  ℕ, zero, suc, String, Bool, true, false, Option, none, some, List, [], ◌∷◌, ◌++◌, map, ◌==◌, ◌&&◌,
  ◌||◌, if◌then◌else◌, length, take, drop, chunks, lookup, Result, ok, err, mem_ℕ, values, without,
  tag, select, ℤ,
}
use bims_shopify.Values.{Value, string, Object}
use bims_shopify.Snapshot.{
  Status, CatalogRow, StockRecord, CatalogPull, SnapshotMeta, CatalogSnapshot,
}
use bims_shopify.Stock.{ByWarehouse}

-- `_delete_rows`
unfoldable pub delete_rows : List ℕ → Db → Db
delete_rows ids db = record db { products = without ids db.products; stock = without ids db.stock }

abbrev pub abandon : Generation → Generation
abandon g = record g {
  status = Status.failed;
  rejection = some (
      ("reason", string "abandoned")
      ∷ ("error", string "process stopped before the write finished")
      ∷ []);
}

-- The ids that `_delete_generations` selects.
unfoldable pub ids_with_status : ℕ → Status → Db → List ℕ
ids_with_status tenant_id status db =
    ids_where (λ g. (g.tenant_id == tenant_id) && same_status g.status status) db.generations

-- The second commit of `_delete_generations`, when there are ids.
unfoldable pub abandon_all : List ℕ → Db → Db
abandon_all ids db = record db {
  generations = update_where (λ g. mem_ℕ g.id ids) abandon db.generations;
}

-- `_delete_generations`: the commit of `_delete_rows`, then that of the update.
unfoldable pub delete_generations : ℕ → Status → Db → Db
unfolding delete_rows ids_with_status abandon_all
delete_generations tenant_id status db =
    let ids = ids_with_status tenant_id status db in abandon_all ids (delete_rows ids db)

-- The second commit of `_abort`.
unfoldable pub mark_failed : ℕ → String → Db → Db
mark_failed snapshot_id reason db = record db {
  generations = update_where (λ g. g.id == snapshot_id) (fail_write reason) db.generations;
}

-- `_abort`: the commit of `_delete_rows`, then that of the update.
unfoldable pub abort : ℕ → String → Db → Db
unfolding delete_rows mark_failed
abort snapshot_id reason db = mark_failed snapshot_id reason (delete_rows (snapshot_id ∷ []) db)

-- The chunks of the product rows, each inserted and committed, until one fails.
unfoldable pub write_products :
    ℕ → (ℕ → Option String) → ℕ → List (List CatalogRow) → Db → Result String ℕ × Db
write_products snapshot_id fail n [] db = (ok n, db)
write_products snapshot_id fail n (chunk ∷ rest) db = elim (fail n) [
  | some e ↦ (err e, db)
  | none ↦
      write_products snapshot_id fail (suc n) rest
        (record db { products = db.products ++ tag snapshot_id (map stored_row chunk) })
]

unfoldable pub write_stock :
    ℕ → (ℕ → Option String) → ℕ → List (List (String × StockRecord)) → Db → Result String ℕ × Db
write_stock snapshot_id fail n [] db = (ok n, db)
write_stock snapshot_id fail n (chunk ∷ rest) db = elim (fail n) [
  | some e ↦ (err e, db)
  | none ↦
      write_stock snapshot_id fail (suc n) rest
        (record db { stock = db.stock ++ tag snapshot_id chunk })
]

unfoldable pub continue_stock :
    ℕ → (ℕ → Option String) → ℕ → CatalogPull → Result String ℕ × Db → Result String ℕ × Db
unfolding write_stock stock_entries
continue_stock snapshot_id fail size pull (err e, db) = (err e, db)
continue_stock snapshot_id fail size pull (ok n, db) =
    write_stock snapshot_id fail n (chunks size (stock_entries pull pull.stock)) db

-- The body of the `try` in `stage`.
unfoldable pub write_rows : ℕ → (ℕ → Option String) → ℕ → CatalogPull → Db → Result String ℕ × Db
unfolding write_products continue_stock
write_rows snapshot_id fail size pull db =
    continue_stock snapshot_id fail size pull
      (write_products snapshot_id fail 0 (chunks size pull.rows) db)

-- What `stage` does before the `try`: the commits of `_delete_generations`, by which the orphans are
-- gone, then the one of the insertion, by which the new generation is there, unread.
unfoldable pub open_generation : ℕ → CatalogPull → ℕ → Db → Db
unfolding delete_generations
open_generation tenant_id pull started_at db =
    let cleaned = delete_generations tenant_id Status.building db in
    record cleaned {
      generations =
          new_generation cleaned.next_id tenant_id Status.building pull started_at none none
          ∷ cleaned.generations;
      next_id = suc cleaned.next_id;
    }

-- The `except` and the `return` of `stage`.
unfoldable pub close_stage : ℕ → Result String ℕ × Db → Result String SnapshotMeta × Db
unfolding abort
close_stage snapshot_id (err e, db) = (err e, abort snapshot_id e db)
close_stage snapshot_id (ok _, db) = (meta_by_id snapshot_id db.generations, db)

unfoldable pub stage :
    (ℕ → Option String) → ℕ → ℕ → CatalogPull → ℕ → Db → Result String SnapshotMeta × Db
unfolding open_generation write_rows close_stage
stage fail size tenant_id pull started_at db =
    close_stage db.next_id
      (write_rows db.next_id fail size pull (open_generation tenant_id pull started_at db))

-- The loop of `_purge` over the generations, newest first: whether the id is kept, and whether a
-- superseded generation has been.
abbrev pub keep_step : Status → Bool → ℕ → List ℕ → List ℕ
keep_step Status.current previous_kept id rest = id ∷ rest
keep_step Status.building previous_kept id rest = id ∷ rest
keep_step Status.superseded previous_kept id rest = if previous_kept then rest else id ∷ rest
keep_step _ previous_kept id rest = rest

abbrev pub kept_after : Status → Bool → Bool
kept_after Status.superseded previous_kept = true
kept_after _ previous_kept = previous_kept

unfoldable pub kept_ids : Bool → List Generation → List ℕ
kept_ids previous_kept [] = []
kept_ids previous_kept (g ∷ gs) =
    keep_step g.status previous_kept g.id (kept_ids (kept_after g.status previous_kept) gs)

abbrev pub meta_history_cap : ℕ
meta_history_cap = 50

abbrev pub of_tenant : ℕ → Generation → Bool
of_tenant tenant_id g = g.tenant_id == tenant_id

-- `ordered`
abbrev pub ordered : ℕ → Db → List Generation
ordered tenant_id db = select (of_tenant tenant_id) db.generations

-- The ids whose rows are deleted.
unfoldable pub dropped_ids : ℕ → Db → List ℕ
unfolding kept_ids
dropped_ids tenant_id db =
    let keep = kept_ids false (ordered tenant_id db) in
    ids_where (λ g. not_in g.id keep) (ordered tenant_id db)

-- The ids beyond the cap, whose metadata is deleted.
unfoldable pub trimmed_ids : ℕ → Db → List ℕ
trimmed_ids tenant_id db = ids_where (λ g. true) (drop meta_history_cap (ordered tenant_id db))

-- `_purge`; the rows of a generation are deleted with it (ON DELETE CASCADE).
unfoldable pub purge : ℕ → Db → Db
unfolding dropped_ids trimmed_ids delete_rows
purge tenant_id db =
    let trimmed = trimmed_ids tenant_id db in
    let emptied = delete_rows trimmed (delete_rows (dropped_ids tenant_id db) db) in
    record emptied { generations = select (λ g. not_in g.id trimmed) emptied.generations }

-- The one transaction of `promote`: the old current generation is demoted, the new one promoted.
unfoldable pub flip : ℕ → ℕ → ℕ → Option Object → Object → Db → Db
flip tenant_id snapshot_id finished_at stats extra_timings db =
    let demoted = update_where (is_current_of tenant_id) demote db.generations in
    record db {
      generations =
          update_where (λ g. g.id == snapshot_id) (make_current finished_at stats extra_timings)
            demoted;
    }

unfoldable pub promote : ℕ → ℕ → Option Object → Object → Db → Result String SnapshotMeta × Db
unfolding flip purge
promote snapshot_id finished_at stats extra_timings db =
    elim (find_generation snapshot_id db.generations) [
      | none ↦ (err "NoResultFound", db)
      | some g ↦
          let db' =
            purge g.tenant_id (flip g.tenant_id snapshot_id finished_at stats extra_timings db) in
          (meta_by_id snapshot_id db'.generations, db')
    ]

unfoldable pub set_stats : ℕ → Object → Db → Db
set_stats snapshot_id stats db = record db {
  generations =
      update_where (λ g. g.id == snapshot_id) (λ g. record g { stats = some stats }) db.generations;
}

unfoldable pub record_rejected :
    ℕ → CatalogPull → ℕ → ℕ → Object → Db → Result String SnapshotMeta × Db
unfolding purge
record_rejected tenant_id pull started_at finished_at rejection db =
    let id = db.next_id in
    let row =
      new_generation id tenant_id Status.rejected pull started_at (some finished_at)
        (some rejection) in
    let db' =
      purge tenant_id (record db { generations = row ∷ db.generations; next_id = suc id }) in
    (meta_by_id id db'.generations, db')

-- `scalar_one_or_none`
abbrev pub one_or_none : List Generation → Result String (Option SnapshotMeta)
one_or_none [] = ok none
one_or_none (g ∷ []) = ok (some (to_meta g))
one_or_none (g ∷ h ∷ gs) = err "MultipleResultsFound"

unfoldable pub get_current_meta : ℕ → Db → Result String (Option SnapshotMeta)
get_current_meta tenant_id db = one_or_none (select (is_current_of tenant_id) db.generations)

unfoldable pub load : SnapshotMeta → Db → CatalogSnapshot
load meta db = record {
  meta = meta;
  rows = values meta.id db.products;
  stock = values meta.id db.stock;
}

unfoldable pub load_current : ℕ → Db → Result String (Option CatalogSnapshot)
unfolding get_current_meta load
load_current tenant_id db = elim (get_current_meta tenant_id db) [
  | err e ↦ err e
  | ok none ↦ ok none
  | ok (some meta) ↦ ok (some (load meta db))
]
