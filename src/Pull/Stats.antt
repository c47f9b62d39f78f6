-- ===== src/Pull/Stats.antt =====
-- What the end of a pull, its statistics included, leaves for the readers.
use bims_shopify.Base.{
  ℕ, ◌==◌, String, ◌≡◌, refl, sym, ap, ap₂, ◌∙◌, subst, inl, inr, Option, none, some, List, [], ◌∷◌,
  Result, ok, err, Bool-cases, select, arith,
}
use bims_shopify.Values.{Object}
use bims_shopify.Stock.{DiscrepancySummary}
use bims_shopify.Snapshot.{CatalogRow, StockRecord, CatalogPull, SnapshotMeta, CatalogSnapshot}
use bims_shopify.Generations.{
  Generation, Db, is_current_of, update_where, set_stats, load, load_current, get_current_meta,
  one_or_none, to_meta, find_generation, meta_by_id, close_stage,
}
use bims_shopify.Generations.Visibility.{view_of}
use bims_shopify.Pull.{World, add_stats, finish_pull, run_stats}

-- A reader finds this snapshot, up to what else its metadata says.
abbrev pub Loaded : CatalogSnapshot → Result String (Option CatalogSnapshot) → Type 0
Loaded s r =
    (meta : SnapshotMeta) × (meta.id ≡ s.meta.id)
    × (r ≡ ok (some (record { meta = meta; rows = s.rows; stock = s.stock })))

select_stats :
    (t id : ℕ) (stats : Object) (gs : List Generation)
    → select
        (is_current_of t)
        (update_where (λ g. g.id == id) (λ g. record g { stats = some stats }) gs)
      ≡ update_where
          (λ g. g.id == id)
          (λ g. record g { stats = some stats })
          (select (is_current_of t) gs)
unfolding update_where
select_stats t id stats [] = refl
select_stats t id stats (g ∷ gs) =
    let ih = select_stats t id stats gs in
    elim (Bool-cases (g.id == id)) [
      | inl e ↦ elim (Bool-cases (is_current_of t g)) [
        | inl c ↦ rw (e, c) (rw (e, ih))
        | inr c ↦ rw (e, c) ih
      ]
      | inr e ↦ elim (Bool-cases (is_current_of t g)) [
        | inl c ↦ rw (e, c) (rw (e, ih))
        | inr c ↦ rw (e, c) ih
      ]
    ]

abbrev shown_id : Result String (Option CatalogSnapshot) → ℕ
shown_id (ok (some s)) = s.meta.id
shown_id _ = 0

abbrev shown_rows : Result String (Option CatalogSnapshot) → List CatalogRow
shown_rows (ok (some s)) = s.rows
shown_rows _ = []

abbrev shown_stock : Result String (Option CatalogSnapshot) → List (String × StockRecord)
shown_stock (ok (some s)) = s.stock
shown_stock _ = []

view_stats :
    (id : ℕ) (stats : Object) (s : CatalogSnapshot) (db : Db) (gs : List Generation)
    → Loaded s (view_of (one_or_none gs) db)
    → Loaded s (
        view_of
          (one_or_none (update_where (λ g. g.id == id) (λ g. record g { stats = some stats }) gs))
          (set_stats id stats db))
unfolding set_stats update_where load to_meta
view_stats id stats s db [] (m, same, shown) = cc
view_stats id stats s db (g ∷ h ∷ gs) (m, same, shown) = cc
view_stats id stats s db (g ∷ []) (m, same, shown) = elim (Bool-cases (g.id == id)) [
  | inl e ↦ rw e (
    to_meta (record g { stats = some stats }),
    ap shown_id shown ∙ same,
    ap₂
        (λ rs ss. ok (
          some
            (record { meta = to_meta (record g { stats = some stats }); rows = rs; stock = ss })))
        (ap shown_rows shown) (ap shown_stock shown),
  )
  | inr e ↦ rw e (m, same, shown)
]

-- The statistics of a generation change nothing else that a reader finds.
set_stats-Loaded :
    (t id : ℕ) (stats : Object) (s : CatalogSnapshot) (db : Db)
    → Loaded s (load_current t db)
    → Loaded s (load_current t (set_stats id stats db))
unfolding set_stats load_current get_current_meta
set_stats-Loaded t id stats s db h =
    subst (λ gs. Loaded s (view_of (one_or_none gs) (set_stats id stats db)))
      (sym (select_stats t id stats db.generations))
      (view_stats id stats s db (select (is_current_of t) db.generations) h)

add_stats-Loaded :
    (t : ℕ) (s : CatalogSnapshot) (out : Option (Result String (Option Object)))
    (previous : Option SnapshotMeta) (summary : DiscrepancySummary) (meta : SnapshotMeta) (db : Db)
    → Loaded s (load_current t db)
    → Loaded s (load_current t (add_stats out previous summary meta db).1)
unfolding add_stats
add_stats-Loaded t s none previous summary meta db h = h
add_stats-Loaded t s (some (err e)) previous summary meta db h = h
add_stats-Loaded t s (some (ok none)) previous summary meta db h = h
add_stats-Loaded t s (some (ok (some stats))) previous summary meta db h =
    set_stats-Loaded t meta.id stats s db h

pub finish_pull-Loaded :
    (t : ℕ) (s : CatalogSnapshot) (w : World) (pull : CatalogPull) (previous : Option SnapshotMeta)
    (summary : DiscrepancySummary) (out : Result String SnapshotMeta × Db)
    → Loaded s (load_current t out.1)
    → Loaded s (load_current t (finish_pull w pull previous summary out).1)
unfolding finish_pull
finish_pull-Loaded t s w pull previous summary (err e, db) h = h
finish_pull-Loaded t s w pull previous summary (ok meta, db) h =
    add_stats-Loaded t s (run_stats w pull) previous summary meta db h

find_generation-id :
    (id : ℕ) (gs : List Generation) {g : Generation} → find_generation id gs ≡ some g → g.id ≡ id
unfolding find_generation
find_generation-id id [] h = cc
find_generation-id id (g ∷ gs) h = elim (Bool-cases (g.id == id)) [
  | inl e ↦ ground (arith, e, h)
  | inr e ↦ find_generation-id id gs (rw e at h)
]

abbrev pub meta_id : Result String SnapshotMeta → ℕ
meta_id (ok m) = m.id
meta_id (err e) = 0

meta_by_id-id :
    (id : ℕ) (gs : List Generation) {m : SnapshotMeta} → meta_by_id id gs ≡ ok m → m.id ≡ id
unfolding meta_by_id to_meta
meta_by_id-id id gs {m} h = go (find_generation id gs) refl h
  where
    go :
        (o : Option Generation)
        → find_generation id gs ≡ o
        → (elim o as (λ _. Result String SnapshotMeta) [
          | none ↦ err "NoResultFound"
          | some g ↦ ok (to_meta g)
        ])
          ≡ ok m
        → m.id ≡ id
    go none e h = cc
    go (some g) e h = sym (ap meta_id h) ∙ find_generation-id id gs e

pub close_stage-id :
    (id : ℕ) (out : Result String ℕ × Db) {m : SnapshotMeta}
    → (close_stage id out).0 ≡ ok m
    → m.id ≡ id
unfolding close_stage
close_stage-id id (err e, db) h = cc
close_stage-id id (ok n, db) h = meta_by_id-id id db.generations h
