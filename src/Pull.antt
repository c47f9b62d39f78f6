-- ===== src/Pull.antt =====
-- src/bims_shopify/application/pull_snapshot.py: the sanity check of a pull and the worker that
-- stores it. Logging and progress messages are not modelled.
pub mod Sanity
mod Stats
pub mod Outcome
use bims_shopify.Base.{
  ℕ, ◌+◌, ◌-◌, ◌*◌, String, Bool, true, false, ◌&&◌, Option, none, some, List, [], ◌∷◌, ◌++◌, ltb,
  if◌then◌else◌, length, Result, ok, err,
}
use bims_shopify.Values.{Value, Object, unit}
use bims_shopify.Stock.{DiscrepancySummary, summarize_stock_discrepancies}
use bims_shopify.Snapshot.{Tenant, CatalogPull, SnapshotMeta}
use bims_shopify.Generations.{
  Db, merge, stage, promote, set_stats, record_rejected, get_current_meta,
}

-- The reason of a rejection with its detail; `drop_ratio` is a function of the two sizes.
pub data Rejection : Type 0 where
  incomplete : ℕ → Option ℕ → String → List String → Rejection
  too_few_rows too_few_stock_rows : ℕ → ℕ → ℕ → ℕ → Rejection

pub data PullStatus : Type 0 where
  accepted rejected : PullStatus

pub record PullResult : Type 0 where
  pub status : PullStatus
  pub meta : SnapshotMeta
  pub reason : Option Rejection
  pub previous : Option SnapshotMeta
  pub stats : Option Object
  pub stats_error : Option String
  pub stock_discrepancies : DiscrepancySummary

-- `_drop_exceeds`: the ratio is in units of 10⁻⁹, one of which is `_EPSILON`. A row more than
-- before is a drop of 0 here and a negative one there; neither exceeds.
unfoldable pub drop_exceeds : ℕ → ℕ → ℕ → Bool
drop_exceeds new previous max_drop_ratio =
    ltb (max_drop_ratio * previous + 1) ((previous - new) * unit)

-- One turn of the loop of `check_sanity`.
abbrev pub check_size :
    (ℕ → ℕ → ℕ → ℕ → Rejection) → ℕ → ℕ → ℕ → ℕ → Option Rejection → Option Rejection
check_size reason new old max_drop previous_id rest =
    if ltb 0 old && drop_exceeds new old max_drop
    then some (reason new old max_drop previous_id)
    else rest

abbrev pub check_sizes : Tenant → CatalogPull → Option SnapshotMeta → Option Rejection
check_sizes tenant pull none = none
check_sizes tenant pull (some previous) =
    check_size too_few_rows (length pull.rows) previous.rows_pulled tenant.pull_max_drop_ratio
      previous.id
      (check_size too_few_stock_rows (length pull.stock) previous.stock_rows
        tenant.pull_max_drop_ratio previous.id none)

unfoldable pub check_sanity : Tenant → CatalogPull → Option SnapshotMeta → Option Rejection
unfolding drop_exceeds
check_sanity tenant pull previous = elim pull.complete [
  | some false ↦
      some (incomplete (length pull.rows) pull.reported_count pull.stop_reason pull.warnings)
  | some true ↦ check_sizes tenant pull previous
  | none ↦ check_sizes tenant pull previous
]

-- What a run meets: the answer of the ERP, the failures of the store's writes, the clock, the
-- statistics hook, and how the code words its warning and writes a rejection as JSON.
pub record World : Type 0 where
  pub pulled : Result String CatalogPull
  pub fail : ℕ → Option String
  pub insert_chunk : ℕ
  pub started_at : ℕ
  pub finished_at : ℕ
  pub total_seconds : Object
  pub extra_timings : Object
  pub stats_fn : Option (CatalogPull → Result String (Option Object))
  pub discrepancy_warning : ℕ → String
  pub rejection_json : Rejection → Object

-- The pull with the warning about disagreeing stock figures.
unfoldable pub warned : World → DiscrepancySummary → CatalogPull → CatalogPull
warned w summary pull =
    if ltb 0 summary.count
    then record pull { warnings = pull.warnings ++ w.discrepancy_warning summary.count ∷ [] }
    else pull

abbrev pub rejected_result :
    Rejection
    → Option SnapshotMeta
    → DiscrepancySummary
    → Result String SnapshotMeta
    → Result String PullResult
rejected_result reason previous summary (err e) = err e
rejected_result reason previous summary (ok meta) = ok (record {
  status = PullStatus.rejected;
  meta = meta;
  reason = some reason;
  previous = previous;
  stats = none;
  stats_error = none;
  stock_discrepancies = summary;
})

unfoldable pub reject_pull :
    World
    → Tenant
    → CatalogPull
    → Rejection
    → Option SnapshotMeta
    → DiscrepancySummary
    → Db
    → Result String PullResult × Db
unfolding record_rejected merge
reject_pull w tenant pull reason previous summary db =
    let (out, db') =
      record_rejected tenant.id (record pull { timings = merge pull.timings w.total_seconds })
        w.started_at w.finished_at (w.rejection_json reason) db in
    (rejected_result reason previous summary out, db')

abbrev pub accepted_result :
    SnapshotMeta
    → Option SnapshotMeta
    → Option Object
    → Option String
    → DiscrepancySummary
    → PullResult
accepted_result meta previous stats stats_error summary = record {
  status = PullStatus.accepted;
  meta = meta;
  reason = none;
  previous = previous;
  stats = stats;
  stats_error = stats_error;
  stock_discrepancies = summary;
}

-- The statistics of an accepted pull: an error of the hook is kept as text.
unfoldable pub add_stats :
    Option (Result String (Option Object))
    → Option SnapshotMeta
    → DiscrepancySummary
    → SnapshotMeta
    → Db
    → Result String PullResult × Db
unfolding set_stats
add_stats none previous summary meta db = (ok (accepted_result meta previous none none summary), db)
add_stats (some (err e)) previous summary meta db =
    (ok (accepted_result meta previous none (some e) summary), db)
add_stats (some (ok none)) previous summary meta db =
    (ok (accepted_result meta previous none none summary), db)
add_stats (some (ok (some stats))) previous summary meta db = (
  ok (accepted_result (record meta { stats = some stats }) previous (some stats) none summary),
  set_stats meta.id stats db,
)

abbrev pub run_stats : World → CatalogPull → Option (Result String (Option Object))
run_stats w pull = elim w.stats_fn [ none ↦ none | some f ↦ some (f pull) ]

unfoldable pub finish_pull :
    World
    → CatalogPull
    → Option SnapshotMeta
    → DiscrepancySummary
    → Result String SnapshotMeta × Db
    → Result String PullResult × Db
unfolding add_stats
finish_pull w pull previous summary (err e, db) = (err e, db)
finish_pull w pull previous summary (ok meta, db) =
    add_stats (run_stats w pull) previous summary meta db

unfoldable pub promote_pull :
    World
    → CatalogPull
    → Option SnapshotMeta
    → DiscrepancySummary
    → Result String SnapshotMeta × Db
    → Result String PullResult × Db
unfolding promote finish_pull
promote_pull w pull previous summary (err e, db) = (err e, db)
promote_pull w pull previous summary (ok staged, db) =
    finish_pull w pull previous summary (promote staged.id w.finished_at none w.extra_timings db)

unfoldable pub store_pull :
    World
    → Tenant
    → CatalogPull
    → Option SnapshotMeta
    → DiscrepancySummary
    → Option Rejection
    → Db
    → Result String PullResult × Db
unfolding reject_pull stage promote_pull
store_pull w tenant pull previous summary (some reason) db =
    reject_pull w tenant pull reason previous summary db
store_pull w tenant pull previous summary none db =
    promote_pull w pull previous summary
      (stage w.fail w.insert_chunk tenant.id pull w.started_at db)

-- The rest of `run`, given the metadata of the current snapshot.
unfoldable pub pull_onto :
    World
    → Tenant
    → CatalogPull
    → DiscrepancySummary
    → Db
    → Result String (Option SnapshotMeta)
    → Result String PullResult × Db
unfolding check_sanity store_pull
pull_onto w tenant pull summary db (err e) = (err e, db)
pull_onto w tenant pull summary db (ok previous) =
    store_pull w tenant pull previous summary (check_sanity tenant pull previous) db

-- The rest of `run`, given the answer of the ERP.
unfoldable pub run_pulled :
    World → Tenant → Db → Result String CatalogPull → Result String PullResult × Db
unfolding pull_onto get_current_meta warned summarize_stock_discrepancies
run_pulled w tenant db (err e) = (err e, db)
run_pulled w tenant db (ok pull) =
    let summary = summarize_stock_discrepancies pull.stock_discrepancies 20 in
    pull_onto w tenant (warned w summary pull) summary db (get_current_meta tenant.id db)

-- `PullCatalogSnapshot.run` of a tenant that is persisted.
unfoldable pub run : World → Tenant → Db → Result String PullResult × Db
unfolding run_pulled
run w tenant db = run_pulled w tenant db w.pulled
