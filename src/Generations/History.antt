-- ===== src/Generations/History.antt =====
-- The store under any sequence of the repository's calls, with writes that fail or are cut off.
use bims_shopify.Base.{
  ℕ, ◌≤◌, String, ◌≡◌, refl, Option, none, some, List, [], ◌∷◌, arith, Result, ok, err, count,
  select, length, length-select,
}
use bims_shopify.Values.{Object}
use bims_shopify.Snapshot.{Status, CatalogPull, SnapshotMeta}
use bims_shopify.Generations.{
  Db, Generation, is_current_of, delete_rows, ids_with_status, delete_generations, open_generation,
  write_rows, stage, promote, set_stats, record_rejected, get_current_meta, one_or_none, to_meta,
}
use bims_shopify.Generations.Writing.{write_rows-Wrote}
use bims_shopify.Generations.Invariant.{
  IsValid, delete_rows-IsValid, delete_generations-IsValid, stage-IsValid, open_generation-IsValid,
  add_rows-IsValid, next_id-open,
}
use bims_shopify.Generations.Promotion.{promote-IsValid, record_rejected-IsValid, set_stats-IsValid}

-- Where a staging can be cut off: after each of the two commits of `_delete_generations`, after the
-- insertion's commit or that of any chunk, namely the one before the chunk that would fail, and
-- between the two commits of `_abort`.
pub data Stop : Type 0 where
  orphans_emptied orphans_abandoned rows_written abort_begun : Stop

-- The first commit of `_abort`, when a chunk failed.
unfoldable pub begin_abort : ℕ → Result String ℕ × Db → Db
unfolding delete_rows
begin_abort snapshot_id (err e, db) = delete_rows (snapshot_id ∷ []) db
begin_abort snapshot_id (ok _, db) = db

-- The store after a staging that was cut off.
unfoldable pub cut_off : Stop → (ℕ → Option String) → ℕ → ℕ → CatalogPull → ℕ → Db → Db
unfolding delete_rows ids_with_status delete_generations open_generation write_rows begin_abort
cut_off Stop.orphans_emptied fail size tenant_id pull started_at db =
    delete_rows (ids_with_status tenant_id Status.building db) db
cut_off Stop.orphans_abandoned fail size tenant_id pull started_at db =
    delete_generations tenant_id Status.building db
cut_off Stop.rows_written fail size tenant_id pull started_at db =
    (write_rows db.next_id fail size pull (open_generation tenant_id pull started_at db)).1
cut_off Stop.abort_begun fail size tenant_id pull started_at db =
    begin_abort db.next_id
      (write_rows db.next_id fail size pull (open_generation tenant_id pull started_at db))

-- One call of the repository; `killed` is a staging whose process stops.
pub data Call : Type 0 where
  stage_pull : (ℕ → Option String) → ℕ → ℕ → CatalogPull → ℕ → Call
  killed : Stop → (ℕ → Option String) → ℕ → ℕ → CatalogPull → ℕ → Call
  promote_to : ℕ → ℕ → Option Object → Object → Call
  store_stats : ℕ → Object → Call
  reject_pull : ℕ → CatalogPull → ℕ → ℕ → Object → Call

unfoldable pub after : Call → Db → Db
unfolding cut_off
after (stage_pull fail size tenant_id pull started_at) db =
    (stage fail size tenant_id pull started_at db).1
after (killed stop fail size tenant_id pull started_at) db =
    cut_off stop fail size tenant_id pull started_at db
after (promote_to id finished_at stats timings) db = (promote id finished_at stats timings db).1
after (store_stats id stats) db = set_stats id stats db
after (reject_pull tenant_id pull started_at finished_at rejection) db =
    (record_rejected tenant_id pull started_at finished_at rejection db).1

unfoldable pub after_all : List Call → Db → Db
unfolding after
after_all [] db = db
after_all (c ∷ cs) db = after_all cs (after c db)

abbrev pub empty : Db
empty = record { generations = []; products = []; stock = []; next_id = 1 }

written-IsValid :
    (fail : ℕ → Option String) (size tenant_id : ℕ) (pull : CatalogPull) (started_at : ℕ) (db : Db)
    → IsValid db
    → IsValid
        (write_rows db.next_id fail size pull (open_generation tenant_id pull started_at db)).1
written-IsValid fail size tenant_id pull started_at db v =
    let opened = open_generation tenant_id pull started_at db in
    let w = write_rows-Wrote db.next_id fail size pull opened in
    rw w.added (
      add_rows-IsValid db.next_id w.rows w.stock opened
        (omega (arith, next_id-open tenant_id pull started_at db))
        (open_generation-IsValid tenant_id pull started_at db v))

begin_abort-IsValid :
    (id : ℕ) (out : Result String ℕ × Db) → IsValid out.1 → IsValid (begin_abort id out)
unfolding begin_abort
begin_abort-IsValid id (err e, db) v = delete_rows-IsValid (id ∷ []) db v
begin_abort-IsValid id (ok n, db) v = v

pub cut_off-IsValid :
    (stop : Stop) (fail : ℕ → Option String) (size tenant_id : ℕ) (pull : CatalogPull)
    (started_at : ℕ) (db : Db)
    → IsValid db
    → IsValid (cut_off stop fail size tenant_id pull started_at db)
unfolding cut_off
cut_off-IsValid Stop.orphans_emptied fail size tenant_id pull started_at db v =
    delete_rows-IsValid (ids_with_status tenant_id Status.building db) db v
cut_off-IsValid Stop.orphans_abandoned fail size tenant_id pull started_at db v =
    delete_generations-IsValid tenant_id db v
cut_off-IsValid Stop.rows_written fail size tenant_id pull started_at db v =
    written-IsValid fail size tenant_id pull started_at db v
cut_off-IsValid Stop.abort_begun fail size tenant_id pull started_at db v =
    begin_abort-IsValid db.next_id
      (write_rows db.next_id fail size pull (open_generation tenant_id pull started_at db))
      (written-IsValid fail size tenant_id pull started_at db v)

after-IsValid : (c : Call) (db : Db) → IsValid db → IsValid (after c db)
unfolding after
after-IsValid (stage_pull fail size tenant_id pull started_at) db v =
    stage-IsValid fail size tenant_id pull started_at db v
after-IsValid (killed stop fail size tenant_id pull started_at) db v =
    cut_off-IsValid stop fail size tenant_id pull started_at db v
after-IsValid (promote_to id finished_at stats timings) db v =
    promote-IsValid id finished_at stats timings db v
after-IsValid (store_stats id stats) db v = set_stats-IsValid id stats db v
after-IsValid (reject_pull tenant_id pull started_at finished_at rejection) db v =
    record_rejected-IsValid tenant_id pull started_at finished_at rejection db v

pub after_all-IsValid : (cs : List Call) (db : Db) → IsValid db → IsValid (after_all cs db)
unfolding after_all
after_all-IsValid [] db v = v
after_all-IsValid (c ∷ cs) db v = after_all-IsValid cs (after c db) (after-IsValid c db v)

pub empty-IsValid : IsValid empty
empty-IsValid = record {
  ids = tt;
  product_owners = tt;
  stock_owners = tt;
  statuses = tt;
  one_current = λ t. omega arith;
}

one_or_none_total :
    (gs : List Generation) → length gs ≤ 1 → (m : Option SnapshotMeta) × (one_or_none gs ≡ ok m)
one_or_none_total [] h = (none, refl)
one_or_none_total (g ∷ []) h = (some (to_meta g), refl)
one_or_none_total (g ∷ k ∷ gs) h = absurd (omega arith)

-- After any calls, failed and interrupted writes included, at most one generation of a tenant is
-- current, and a reader finds one or none, never an error.
pub history_one_current :
    (cs : List Call) (t : ℕ)
    → (count (is_current_of t) (after_all cs empty).generations ≤ 1)
      × ((m : Option SnapshotMeta) × (get_current_meta t (after_all cs empty) ≡ ok m))
unfolding get_current_meta
history_one_current cs t =
    let v = after_all-IsValid cs empty empty-IsValid in
    let gs = (after_all cs empty).generations in
    (
      v.one_current t,
      one_or_none_total (select (is_current_of t) gs)
          (omega (arith, length-select (is_current_of t) gs, v.one_current t)),
    )
