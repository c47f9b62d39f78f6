-- ===== src/Pull/Outcome.antt =====
-- What a pull leaves for the readers of the snapshot.
use bims_shopify.Base.{
  ℕ, ◌<◌, String, ◌≡◌, refl, sym, ap, ◌∙◌, subst, true, Option, none, some, List, [], ◌∷◌, ◌++◌,
  Result, ok, err, length, select, map,
}
use bims_shopify.Stock.{DiscrepancySummary, summarize_stock_discrepancies}
use bims_shopify.Snapshot.{Tenant, CatalogPull, SnapshotMeta, CatalogSnapshot}
use bims_shopify.Generations.{
  Generation, Db, is_current_of, load_current, get_current_meta, one_or_none, to_meta, stage,
  ordered, promote, stored_row, stock_entries, write_rows, open_generation, merge,
}
use bims_shopify.Generations.Invariant.{IsValid}
use bims_shopify.Generations.Visibility.{load_current-stage}
use bims_shopify.Generations.Retention.{load_current-record_rejected, current_single}
use bims_shopify.Generations.Roundtrip.{load_current-promote-stage}
use bims_shopify.Pull.Stats.{Loaded, meta_id, finish_pull-Loaded, close_stage-id}
use bims_shopify.Pull.{
  World, Rejection, check_sanity, warned, reject_pull, promote_pull, store_pull, pull_onto,
  run_pulled, run,
}

-- The pull that a run checks and stores.
abbrev pub checked_pull : World → CatalogPull → CatalogPull
checked_pull w pull = warned w (summarize_stock_discrepancies pull.stock_discrepancies 20) pull

run_stores :
    (w : World) (tenant : Tenant) (db : Db) {pull : CatalogPull} {previous : Option SnapshotMeta}
    → w.pulled ≡ ok pull
    → get_current_meta tenant.id db ≡ ok previous
    → run w tenant db
      ≡ store_pull w tenant
          (checked_pull w pull)
          previous
          (summarize_stock_discrepancies pull.stock_discrepancies 20)
          (check_sanity tenant (checked_pull w pull) previous)
          db
unfolding run run_pulled pull_onto
run_stores w tenant db {pull} pulled found =
    ap (run_pulled w tenant db) pulled
    ∙ ap
        (pull_onto w tenant (checked_pull w pull)
          (summarize_stock_discrepancies pull.stock_discrepancies 20) db)
        found

run_stages :
    (w : World) (tenant : Tenant) (db : Db) {pull : CatalogPull} {previous : Option SnapshotMeta}
    → w.pulled ≡ ok pull
    → get_current_meta tenant.id db ≡ ok previous
    → check_sanity tenant (checked_pull w pull) previous ≡ none
    → run w tenant db
      ≡ promote_pull w
          (checked_pull w pull)
          previous
          (summarize_stock_discrepancies pull.stock_discrepancies 20)
          (stage w.fail w.insert_chunk tenant.id (checked_pull w pull) w.started_at db)
unfolding store_pull
run_stages w tenant db {pull} {previous} pulled found sane =
    run_stores w tenant db pulled found
    ∙ ap
        (λ c.
          store_pull w tenant (checked_pull w pull) previous
            (summarize_stock_discrepancies pull.stock_discrepancies 20) c db)
        sane

run_rejects :
    (w : World) (tenant : Tenant) (db : Db) {pull : CatalogPull} {previous : Option SnapshotMeta}
    {reason : Rejection}
    → w.pulled ≡ ok pull
    → get_current_meta tenant.id db ≡ ok previous
    → check_sanity tenant (checked_pull w pull) previous ≡ some reason
    → run w tenant db
      ≡ reject_pull w tenant
          (checked_pull w pull)
          reason
          previous
          (summarize_stock_discrepancies pull.stock_discrepancies 20)
          db
unfolding store_pull
run_rejects w tenant db {pull} {previous} pulled found rejected =
    run_stores w tenant db pulled found
    ∙ ap
        (λ c.
          store_pull w tenant (checked_pull w pull) previous
            (summarize_stock_discrepancies pull.stock_discrepancies 20) c db)
        rejected

current_meta :
    (t : ℕ) (db : Db) (g : Generation)
    → select (is_current_of t) db.generations ≡ g ∷ []
    → get_current_meta t db ≡ ok (some (to_meta g))
unfolding get_current_meta
current_meta t db g h = ap one_or_none h

-- A promotion of what was staged, when it is read back.
promote_pull-Loaded :
    (w : World) (t id : ℕ) (s : CatalogSnapshot) (pull : CatalogPull)
    (previous : Option SnapshotMeta) (summary : DiscrepancySummary)
    (out : Result String SnapshotMeta × Db) {m : SnapshotMeta}
    → out.0 ≡ ok m
    → m.id ≡ id
    → Loaded s (load_current t (promote id w.finished_at none w.extra_timings out.1).1)
    → Loaded s (load_current t (promote_pull w pull previous summary out).1)
unfolding promote_pull
promote_pull-Loaded w t id s pull previous summary (err e, db) h same l = cc
promote_pull-Loaded w t id s pull previous summary (ok staged, db) h same l =
    finish_pull-Loaded t s w pull previous summary
      (promote staged.id w.finished_at none w.extra_timings db)
      (subst (λ i. Loaded s (load_current t (promote i w.finished_at none w.extra_timings db).1))
        (sym (ap meta_id h ∙ same)) l)

-- A pull that passes the sanity check and is written without a failure is what the tenant's readers
-- load afterwards, every row in order (names cut at 500 characters) with the stock of its SKU,
-- whether or not the statistics hook fails.
pub run_accepted :
    (w : World) (tenant : Tenant) (db : Db) {pull : CatalogPull} {previous : Option SnapshotMeta}
    {m : SnapshotMeta}
    → IsValid db
    → 0 < w.insert_chunk
    → w.pulled ≡ ok pull
    → get_current_meta tenant.id db ≡ ok previous
    → check_sanity tenant (checked_pull w pull) previous ≡ none
    → (stage w.fail w.insert_chunk tenant.id (checked_pull w pull) w.started_at db).0 ≡ ok m
    → (meta : SnapshotMeta) × (meta.id ≡ db.next_id)
      × (load_current tenant.id (run w tenant db).1
          ≡ ok (
              some (record {
                meta = meta;
                rows = map stored_row (checked_pull w pull).rows;
                stock = stock_entries (checked_pull w pull) (checked_pull w pull).stock;
              })))
unfolding stage
run_accepted w tenant db {pull} {previous} {m} v p pulled found sane staged =
    let q = checked_pull w pull in
    let summary = summarize_stock_discrepancies pull.stock_discrepancies 20 in
    let out = stage w.fail w.insert_chunk tenant.id q w.started_at db in
    let (meta, same, shown) =
      load_current-promote-stage w.fail w.insert_chunk tenant.id q w.started_at w.finished_at none
        w.extra_timings db v p staged in
    let (found_meta, same_meta, loaded) =
      promote_pull-Loaded w tenant.id db.next_id
        (record { meta = meta; rows = map stored_row q.rows; stock = stock_entries q q.stock }) q
        previous summary out staged
        (close_stage-id db.next_id
          (write_rows db.next_id w.fail w.insert_chunk q
            (open_generation tenant.id q w.started_at db))
          staged)
        (meta, refl, shown) in
    (
      found_meta,
      same_meta ∙ same,
      ap (λ r. load_current tenant.id r.1) (run_stages w tenant db pulled found sane) ∙ loaded,
    )

-- A pull that the sanity check rejects leaves what the tenant's readers load, while fewer than 49
-- generations of the tenant are newer than the current one.
pub run_rejected :
    (w : World) (tenant : Tenant) (db : Db) (g : Generation) (newer older : List Generation)
    {pull : CatalogPull} {reason : Rejection}
    → IsValid db
    → ordered tenant.id db ≡ newer ++ g ∷ older
    → is_current_of tenant.id g ≡ true
    → length newer < 49
    → w.pulled ≡ ok pull
    → check_sanity tenant (checked_pull w pull) (some (to_meta g)) ≡ some reason
    → load_current tenant.id (run w tenant db).1 ≡ load_current tenant.id db
unfolding reject_pull
run_rejected w tenant db g newer older {pull} {reason} v place current few pulled rejected =
    let q = checked_pull w pull in
    let summary = summarize_stock_discrepancies pull.stock_discrepancies 20 in
    ap (λ r. load_current tenant.id r.1)
      (run_rejects w tenant db pulled
        (current_meta tenant.id db g (current_single tenant.id db v g newer older place current))
        rejected)
    ∙ load_current-record_rejected tenant.id db v g newer older place current
        (record q { timings = merge q.timings w.total_seconds }) w.started_at w.finished_at
        (w.rejection_json reason) few

promote_pull_failed :
    (w : World) (q : CatalogPull) (previous : Option SnapshotMeta) (summary : DiscrepancySummary)
    (out : Result String SnapshotMeta × Db) {e : String}
    → out.0 ≡ err e
    → (promote_pull w q previous summary out).1 ≡ out.1
unfolding promote_pull
promote_pull_failed w q previous summary (err _, d) h = refl
promote_pull_failed w q previous summary (ok _, d) h = cc

-- A staging that fails leaves what the readers of every tenant load.
pub run_cut_short :
    (t : ℕ) (w : World) (tenant : Tenant) (db : Db) {pull : CatalogPull}
    {previous : Option SnapshotMeta} {e : String}
    → IsValid db
    → w.pulled ≡ ok pull
    → get_current_meta tenant.id db ≡ ok previous
    → check_sanity tenant (checked_pull w pull) previous ≡ none
    → (stage w.fail w.insert_chunk tenant.id (checked_pull w pull) w.started_at db).0 ≡ err e
    → load_current t (run w tenant db).1 ≡ load_current t db
run_cut_short t w tenant db {pull} {previous} {e} v pulled found sane failed =
    let q = checked_pull w pull in
    let summary = summarize_stock_discrepancies pull.stock_discrepancies 20 in
    ap (λ r. load_current t r.1) (run_stages w tenant db pulled found sane)
    ∙ ap (load_current t) (
        promote_pull_failed w q previous summary
          (stage w.fail w.insert_chunk tenant.id q w.started_at db) failed)
    ∙ load_current-stage t tenant.id db v q w.started_at w.fail w.insert_chunk
