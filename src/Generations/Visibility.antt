-- ===== src/Generations/Visibility.antt =====
-- What a reader of the current snapshot can see while another snapshot is written.
use bims_shopify.Base.{
  ℕ, ◌<◌, String, ◌≡◌, ◌≢◌, refl, sym, ap, ◌∙◌, subst, Bool, true, false, ◌&&◌, Option, none, some,
  List, [], ◌∷◌, arith, ◌==◌, mem_ℕ, Result, ok, err, All, All-of, All-imp, All-zip, select,
  selected-All, values, values_other, values-without,
}
use bims_shopify.Snapshot.{
  Status, CatalogRow, StockRecord, CatalogPull, SnapshotMeta, CatalogSnapshot,
}
use bims_shopify.Generations.{
  Generation, Db, same_status, is_current_of, new_generation, update_where, ids_where, abandon,
  fail_write, delete_rows, ids_with_status, delete_generations, abort, open_generation, write_rows,
  close_stage, stage, one_or_none, to_meta, load, load_current,
}
use bims_shopify.Generations.Ids.{Descending-All, update_ids, disjoint_ids, select-update}
use bims_shopify.Generations.Writing.{add_rows, write_rows-Wrote}
use bims_shopify.Generations.Invariant.{
  IsValid, delete_generations-IsValid, building_not_current, opened_quiet,
}
use bims_shopify.Generations.History.{Stop, begin_abort, cut_off}

-- The rows of a generation are the same in both stores.
abbrev pub SameRows : Db → Db → Generation → Type 0
SameRows db db' g =
    (values g.id db'.products ≡ values g.id db.products)
    × (values g.id db'.stock ≡ values g.id db.stock)

-- The tenant's current generations are the same in both stores, with the same rows.
pub record SameView (t : ℕ) (db db' : Db) : Type 0 where
  pub selected : select (is_current_of t) db'.generations ≡ select (is_current_of t) db.generations
  pub kept : All (SameRows db db') (select (is_current_of t) db.generations)

abbrev pub view_of :
    Result String (Option SnapshotMeta) → Db → Result String (Option CatalogSnapshot)
view_of m db = elim m [
  | err e ↦ err e
  | ok none ↦ ok none
  | ok (some meta) ↦ ok (some (load meta db))
]

view_of-SameRows :
    (gs : List Generation) (db db' : Db)
    → All (SameRows db db') gs
    → view_of (one_or_none gs) db' ≡ view_of (one_or_none gs) db
view_of-SameRows [] db db' a = refl
view_of-SameRows (g ∷ []) db db' a =
    unfold load to_meta in
    λ i. ok (some (record { meta = to_meta g; rows = a.0.0 i; stock = a.0.1 i }))
view_of-SameRows (g ∷ h ∷ gs) db db' a = refl

pub load_current-SameView :
    (t : ℕ) (db db' : Db) → SameView t db db' → load_current t db' ≡ load_current t db
unfolding load_current
load_current-SameView t db db' s =
    ap (λ gs. view_of (one_or_none gs) db') s.selected
    ∙ view_of-SameRows (select (is_current_of t) db.generations) db db' s.kept

pub SameView-trans : {t : ℕ} {a b c : Db} → SameView t a b → SameView t b c → SameView t a c
SameView-trans {t} {a} {b} {c} s u = record {
  selected = u.selected ∙ s.selected;
  kept =
      All-zip (SameRows a b) (SameRows b c) (SameRows a c) (select (is_current_of t) a.generations)
        (λ g h k. (k.0 ∙ h.0, k.1 ∙ h.1)) s.kept (subst (All (SameRows b c)) s.selected u.kept);
}

ne_of_lt : {a b : ℕ} → a < b → b ≢ a
ne_of_lt h = omega arith

module _ (t : ℕ) (db : Db) where
  -- A current generation is not one of those that are being built.
  abbrev pub Apart : List ℕ → Generation → Type 0
  Apart ids g = is_current_of t g ≡ true → mem_ℕ g.id ids ≡ false

  pub delete_rows-SameView :
      (ids : List ℕ) → All (Apart ids) db.generations → SameView t db (delete_rows ids db)
  unfolding delete_rows
  delete_rows-SameView ids a = record {
    selected = refl;
    kept = selected-All _ (is_current_of t) db.generations (
        All-imp (Apart ids) _ db.generations
          (λ g apart e. (
            values-without g.id ids db.products (apart e),
            values-without g.id ids db.stock (apart e),
          ))
          a);
  }

  -- An update of rows that are not current, which makes none current.
  update-SameView :
      (p : Generation → Bool) (f : Generation → Generation)
      → All
          (λ g. p g ≡ true → (is_current_of t g ≡ false) × (is_current_of t (f g) ≡ false))
          db.generations
      → SameView t db (record db { generations = update_where p f db.generations })
  update-SameView p f a = record {
    selected = select-update f p (is_current_of t) db.generations a;
    kept = All-of _ (λ g. (refl, refl)) (select (is_current_of t) db.generations);
  }

  add_rows-SameView :
      (id : ℕ) (xs : List CatalogRow) (ys : List (String × StockRecord))
      → All (λ g. is_current_of t g ≡ true → g.id < id) db.generations
      → SameView t db (add_rows id xs ys db)
  add_rows-SameView id xs ys a = record {
    selected = refl;
    kept = selected-All _ (is_current_of t) db.generations (
        All-imp _ _ db.generations
          (λ g lt e. (
            values_other g.id id db.products xs (ne_of_lt (lt e)),
            values_other g.id id db.stock ys (ne_of_lt (lt e)),
          ))
          a);
  }

building_other :
    (s : Status) → same_status s Status.current ≡ true → same_status s Status.building ≡ false
building_other Status.current h = refl
building_other Status.building h = cc
building_other Status.superseded h = refl
building_other Status.rejected h = refl
building_other Status.failed h = refl

-- A building generation is not current, since the status and the flag agree.
current_not_building :
    (t tenant_id : ℕ) (g : Generation)
    → g.is_current ≡ same_status g.status Status.current
    → is_current_of t g ≡ true
    → ((g.tenant_id == tenant_id) && same_status g.status Status.building) ≡ false
current_not_building t tenant_id g e h =
    ground (arith, building_other g.status (sym e ∙ ground arith))

module _ (t tenant_id : ℕ) (db : Db) (v : IsValid db) where
  abbrev is_building : Generation → Bool
  is_building g = (g.tenant_id == tenant_id) && same_status g.status Status.building

  quiet : (g : Generation) → g.is_current ≡ false → is_current_of t g ≡ false
  quiet g h = ground arith

  -- The rows of the orphans.
  emptied-SameView : SameView t db (delete_rows (ids_where is_building db.generations) db)
  emptied-SameView = delete_rows-SameView t db (ids_where is_building db.generations) (
      disjoint_ids is_building (is_current_of t) db.next_id db.generations v.ids
        (All-imp _ _ db.generations (current_not_building t tenant_id) v.statuses))

  delete_generations-SameView : SameView t db (delete_generations tenant_id Status.building db)
  unfolding delete_generations
  delete_generations-SameView =
      rw (update_ids abandon is_building db.next_id db.generations v.ids) (
        SameView-trans emptied-SameView (
          update-SameView t (delete_rows (ids_where is_building db.generations) db) is_building
            abandon
            (All-imp _ _ db.generations
              (λ g e b. (
                quiet g (e ∙ building_not_current g.status (ground arith)),
                quiet g (e ∙ building_not_current g.status (ground arith)),
              ))
              v.statuses)))

  module _ (pull : CatalogPull) (started_at : ℕ) where
    abbrev opened : Db
    opened = open_generation tenant_id pull started_at db

    open_generation-SameView : SameView t db opened
    unfolding open_generation new_generation
    open_generation-SameView =
        SameView-trans delete_generations-SameView
          (record { selected = ground arith; kept = All-of _ (λ g. (refl, refl)) _ })

    opened_below : All (λ g. is_current_of t g ≡ true → g.id < db.next_id) opened.generations
    unfolding open_generation new_generation
    opened_below = (
      (λ h. absurd (ground arith)),
      All-imp _ _ (delete_generations tenant_id Status.building db).generations (λ g lt _. lt)
          (Descending-All db.next_id (delete_generations tenant_id Status.building db).generations
            (delete_generations-IsValid tenant_id db v).ids),
    )

    opened-Apart : All (Apart t db (db.next_id ∷ [])) opened.generations
    opened-Apart = All-imp _ _ opened.generations (λ g lt h. ground (arith, lt h)) opened_below

    -- Adding rows of the new generation, as many as were written before a failure.
    write_rows-SameView :
        (fail : ℕ → Option String) (size : ℕ)
        → SameView t db (write_rows db.next_id fail size pull opened).1
    write_rows-SameView fail size =
        let w = write_rows-Wrote db.next_id fail size pull opened in
        rw w.added (
          SameView-trans open_generation-SameView
            (add_rows-SameView t opened db.next_id w.rows w.stock opened_below))

    begin_abort-SameView :
        (out : Result String ℕ × Db)
        → out.1.generations ≡ opened.generations
        → SameView t db out.1
        → SameView t db (begin_abort db.next_id out)
    unfolding begin_abort
    begin_abort-SameView (ok _, db') same s = s
    begin_abort-SameView (err e, db') same s =
        SameView-trans s (delete_rows-SameView t db' (db.next_id ∷ []) (rw same opened-Apart))

    close_stage-SameView :
        (out : Result String ℕ × Db)
        → out.1.generations ≡ opened.generations
        → SameView t db out.1
        → SameView t db (close_stage db.next_id out).1
    unfolding close_stage abort
    close_stage-SameView (ok _, db') same s = s
    close_stage-SameView (err e, db') same s = SameView-trans s (
        SameView-trans (delete_rows-SameView t db' (db.next_id ∷ []) (rw same opened-Apart)) (
          update-SameView t (delete_rows (db.next_id ∷ []) db') (λ g. g.id == db.next_id)
            (fail_write e)
            (rw same (
              All-imp _ _ opened.generations (λ g q h. (quiet g (q h), quiet g (q h)))
                (opened_quiet tenant_id pull started_at db v)))))

-- While a snapshot is staged a reader of any tenant sees what it saw before, also when a chunk
-- fails and the staging is aborted.
pub load_current-stage :
    (t tenant_id : ℕ) (db : Db)
    → IsValid db
    → (pull : CatalogPull) (started_at : ℕ) (fail : ℕ → Option String) (size : ℕ)
    → load_current t (stage fail size tenant_id pull started_at db).1 ≡ load_current t db
unfolding stage
load_current-stage t tenant_id db v pull started_at fail size =
    let o = open_generation tenant_id pull started_at db in
    let w = write_rows-Wrote db.next_id fail size pull o in
    load_current-SameView t db _ (
      close_stage-SameView t tenant_id db v pull started_at (write_rows db.next_id fail size pull o)
        (ap (λ d. d.generations) w.added)
        (write_rows-SameView t tenant_id db v pull started_at fail size))

cut_off-SameView :
    (stop : Stop) (t tenant_id : ℕ) (db : Db)
    → IsValid db
    → (pull : CatalogPull) (started_at : ℕ) (fail : ℕ → Option String) (size : ℕ)
    → SameView t db (cut_off stop fail size tenant_id pull started_at db)
unfolding cut_off ids_with_status
cut_off-SameView Stop.orphans_emptied t tenant_id db v pull started_at fail size =
    emptied-SameView t tenant_id db v
cut_off-SameView Stop.orphans_abandoned t tenant_id db v pull started_at fail size =
    delete_generations-SameView t tenant_id db v
cut_off-SameView Stop.rows_written t tenant_id db v pull started_at fail size =
    write_rows-SameView t tenant_id db v pull started_at fail size
cut_off-SameView Stop.abort_begun t tenant_id db v pull started_at fail size =
    let o = open_generation tenant_id pull started_at db in
    let w = write_rows-Wrote db.next_id fail size pull o in
    begin_abort-SameView t tenant_id db v pull started_at (write_rows db.next_id fail size pull o)
      (ap (λ d. d.generations) w.added)
      (write_rows-SameView t tenant_id db v pull started_at fail size)

-- A process that stops after any commit of a staging leaves what every reader sees unchanged: after
-- those that clear the orphans, after the one that opens the generation, after any chunk, and
-- between the two of an abort.
pub load_current-cut_off :
    (stop : Stop) (t tenant_id : ℕ) (db : Db)
    → IsValid db
    → (pull : CatalogPull) (started_at : ℕ) (fail : ℕ → Option String) (size : ℕ)
    → load_current t (cut_off stop fail size tenant_id pull started_at db) ≡ load_current t db
load_current-cut_off stop t tenant_id db v pull started_at fail size =
    load_current-SameView t db _ (cut_off-SameView stop t tenant_id db v pull started_at fail size)
