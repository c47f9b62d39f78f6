-- ===== src/Tests/Snapshots.antt =====
-- The snapshot store and the pull at a concrete database.
use bims_shopify.Base.{
  ℕ, zero, suc, ◌+◌, ◌≤◌, ◌<◌, ◌*◌, String, ◌≡◌, ◌≢◌, refl, ap, ◌↔◌, Bool, true, false, Option,
  none, some, List, [], ◌∷◌, ◌++◌, map, arith, length, count, All, pos, Result, ok, err,
}
use bims_shopify.Values.{int, string}
use bims_shopify.Snapshot.{
  absent_means_zero, Status, CatalogPull, SnapshotMeta, list_products, quantities, snapshot_decline,
}
use bims_shopify.Snapshot.Eligibility.{Honest, list_products-Honest}
use bims_shopify.Snapshot.Gate.{Writable, snapshot_decline_iff}
use bims_shopify.Generations.{
  same_status, Generation, Db, is_current_of, stage, promote, record_rejected, load_current,
  get_current_meta, stored_row, stock_entries, to_meta,
}
use bims_shopify.Generations.Ids.{Descending}
use bims_shopify.Generations.Invariant.{IsValid}
use bims_shopify.Generations.History.{
  Stop, stage_pull, killed, promote_to, cut_off, after_all, empty, history_one_current,
}
use bims_shopify.Generations.Visibility.{load_current-stage, load_current-cut_off}
use bims_shopify.Generations.Roundtrip.{load_current-promote-stage}
use bims_shopify.Generations.Retention.{record_rejected_forgets}
use bims_shopify.Pull.{World, Rejection, too_few_rows, check_sanity, run}
use bims_shopify.Pull.Sanity.{EnoughFor, check_sanity_iff}
use bims_shopify.Pull.Outcome.{checked_pull, run_accepted, run_rejected}
use bims_shopify.Tests.{shop, pen, hidden, pen_stock, sample_pull, sample_meta, sample_snapshot}

list_products-Honest_example :
    All
      (Honest (absent_means_zero shop.field_mappings) (quantities sample_snapshot.stock))
      (list_products sample_snapshot shop)
list_products-Honest_example = list_products-Honest sample_snapshot shop

snapshot_decline_iff_example :
    (snapshot_decline (some sample_meta) shop 1000 ≡ none) ↔ Writable (some sample_meta) shop 1000
snapshot_decline_iff_example = snapshot_decline_iff (some sample_meta) shop 1000

abbrev first : Generation
first = record {
  id = 1;
  tenant_id = 1;
  status = Status.current;
  is_current = true;
  started_at = 5;
  finished_at = some 9;
  rows_pulled = 2;
  stock_rows = 1;
  pages = 1;
  reported_count = some 2;
  complete = some true;
  stop_reason = "end";
  warnings = [];
  timings = [];
  stats = none;
  rejection = none;
}

abbrev one_shop : Db
one_shop = record {
  generations = first ∷ [];
  products = (1, pen) ∷ (1, hidden) ∷ [];
  stock = (1, ("PEN", pen_stock)) ∷ [];
  next_id = 2;
}

one_shop-IsValid : IsValid one_shop
one_shop-IsValid = record {
  ids = (omega arith, tt);
  product_owners = (omega arith, (omega arith, tt));
  stock_owners = (omega arith, tt);
  statuses = (refl, tt);
  one_current = λ t. ground arith;
}

abbrev no_failure : ℕ → Option String
no_failure n = none

abbrev second_fails : ℕ → Option String
second_fails zero = none
second_fails (suc n) = some "disk full"

history_one_current_example :
    (count
        (is_current_of 1)
        (after_all
          (stage_pull no_failure 100 1 sample_pull 5
            ∷ promote_to 1 9 none []
            ∷ killed Stop.rows_written second_fails 1 1 sample_pull 20
            ∷ [])
          empty).generations
      ≤ 1)
    × ((m : Option SnapshotMeta) × (get_current_meta 1 (
            after_all
              (stage_pull no_failure 100 1 sample_pull 5
                ∷ promote_to 1 9 none []
                ∷ killed Stop.rows_written second_fails 1 1 sample_pull 20
                ∷ [])
              empty)
          ≡ ok m))
history_one_current_example =
    history_one_current
      (stage_pull no_failure 100 1 sample_pull 5
        ∷ promote_to 1 9 none []
        ∷ killed Stop.rows_written second_fails 1 1 sample_pull 20
        ∷ [])
      1

load_current-stage_example :
    load_current 1 (stage second_fails 1 1 sample_pull 20 one_shop).1 ≡ load_current 1 one_shop
load_current-stage_example =
    load_current-stage 1 1 one_shop one_shop-IsValid sample_pull 20 second_fails 1

load_current-cut_off_example :
    load_current 1 (cut_off Stop.abort_begun second_fails 1 1 sample_pull 20 one_shop)
    ≡ load_current 1 one_shop
load_current-cut_off_example =
    load_current-cut_off Stop.abort_begun 1 1 one_shop one_shop-IsValid sample_pull 20 second_fails
      1

abbrev staged_meta : SnapshotMeta
staged_meta = record sample_meta {
  id = 2;
  status = Status.building;
  started_at = 20;
  finished_at = none;
}

load_current-promote-stage_example :
    (meta : SnapshotMeta) × (meta.id ≡ 2)
    × (load_current 1 (promote 2 30 none [] (stage no_failure 100 1 sample_pull 20 one_shop).1).1
        ≡ ok (
            some (record {
              meta = meta;
              rows = map stored_row sample_pull.rows;
              stock = stock_entries sample_pull sample_pull.stock;
            })))
unfolding stage bims_shopify.Base.chunks_fuel bims_shopify.Generations.meta_by_id
    bims_shopify.Generations.find_generation bims_shopify.Generations.new_generation to_meta
load_current-promote-stage_example =
    load_current-promote-stage no_failure 100 1 sample_pull 20 30 none [] one_shop one_shop-IsValid
      (omega arith) stage_ok
  where
    stage_ok : (stage no_failure 100 1 sample_pull 20 one_shop).0 ≡ ok staged_meta
    stage_ok = refl

-- A history of rejected pulls, the newest first, after the current generation.
unfoldable rejections : ℕ → List Generation → List Generation
rejections zero gs = gs
rejections (suc n) gs =
    record first { id = n + 2; status = Status.rejected; is_current = false } ∷ rejections n gs

abbrev crowded_shop : Db
crowded_shop = record one_shop { generations = rejections 49 (first ∷ []); next_id = 51 }

rejections-Descending : (n : ℕ) → Descending (n + 2) (rejections n (first ∷ []))
unfolding rejections
rejections-Descending zero = (omega arith, tt)
rejections-Descending (suc n) = (omega arith, rejections-Descending n)

rejections_one_current : (n t : ℕ) → count (is_current_of t) (rejections n (first ∷ [])) ≤ 1
unfolding rejections
rejections_one_current zero t = ground arith
rejections_one_current (suc n) t = ground (arith, rejections_one_current n t)

rejections_statuses :
    (n : ℕ)
    → All (λ g. g.is_current ≡ same_status g.status Status.current) (rejections n (first ∷ []))
unfolding rejections
rejections_statuses zero = (refl, tt)
rejections_statuses (suc n) = (refl, rejections_statuses n)

crowded_shop-IsValid : IsValid crowded_shop
crowded_shop-IsValid = record {
  ids = rejections-Descending 49;
  product_owners = (omega arith, (omega arith, tt));
  stock_owners = (omega arith, tt);
  statuses = rejections_statuses 49;
  one_current = rejections_one_current 49;
}

record_rejected_forgets_example :
    get_current_meta 1 (record_rejected 1 sample_pull 20 30 [] crowded_shop).1 ≡ ok none
unfolding rejections
record_rejected_forgets_example =
    record_rejected_forgets 1 crowded_shop crowded_shop-IsValid first (rejections 49 []) [] refl
      refl sample_pull 20 30 [] (omega arith)

-- A disk with room, and a hook whose statistics are one number.
abbrev calm : World
calm = record {
  pulled = ok sample_pull;
  fail = no_failure;
  insert_chunk = 100;
  started_at = 20;
  finished_at = 30;
  total_seconds = [];
  extra_timings = [];
  stats_fn = some (λ pull. ok (some (("rows", int (pos (length pull.rows))) ∷ [])));
  discrepancy_warning = λ n. "stock discrepancies";
  rejection_json = λ r. ("reason", string "rejected") ∷ [];
}

abbrev full_disk : World
full_disk = record calm { fail = λ n. some "disk full" }

abbrev poor_pull : CatalogPull
poor_pull = record sample_pull { rows = pen ∷ [] }

abbrev poor : World
poor = record calm { pulled = ok poor_pull }

check_sanity_iff_example :
    (check_sanity shop poor_pull (some sample_meta) ≡ none)
    ↔ ((poor_pull.complete ≢ some false) × EnoughFor shop poor_pull (some sample_meta))
check_sanity_iff_example = check_sanity_iff shop poor_pull (some sample_meta)

run_accepted_example :
    (meta : SnapshotMeta) × (meta.id ≡ 2)
    × (load_current 1 (run calm shop one_shop).1
        ≡ ok (
            some (record {
              meta = meta;
              rows = map stored_row (checked_pull calm sample_pull).rows;
              stock =
                  stock_entries
                    (checked_pull calm sample_pull)
                    (checked_pull calm sample_pull).stock;
            })))
unfolding get_current_meta to_meta check_sanity bims_shopify.Pull.warned
    bims_shopify.Stock.summarize_stock_discrepancies stage bims_shopify.Base.chunks_fuel
    bims_shopify.Generations.meta_by_id bims_shopify.Generations.find_generation
    bims_shopify.Generations.new_generation
run_accepted_example =
    run_accepted calm shop one_shop {pull = sample_pull} {previous = some sample_meta}
      {m = staged_meta} one_shop-IsValid (omega arith) refl refl refl refl

run_rejected_example : load_current 1 (run poor shop one_shop).1 ≡ load_current 1 one_shop
unfolding get_current_meta check_sanity bims_shopify.Pull.warned
    bims_shopify.Stock.summarize_stock_discrepancies to_meta
run_rejected_example =
    run_rejected poor shop one_shop first [] [] {pull = poor_pull}
      {reason = too_few_rows 1 2 300000000 1} one_shop-IsValid refl refl (omega arith) refl refl
