-- ===== src/Generations/Roundtrip.antt =====
-- What the readers see once a staged snapshot has been promoted.
use bims_shopify.Base.{
  ℕ, ◌<◌, String, ◌≡◌, refl, sym, ap, ap₂, ◌∙◌, subst, Bool, true, false, Option, none, some, List,
  [], ◌∷◌, ◌++◌, arith, ◌==◌, if◌then◌else◌, mem_ℕ, Result, ok, err, All, map, count, select,
  values, values-append, values-tag_self, KeysBelow, tag, values_fresh,
}
use bims_shopify.Snapshot.{Status, CatalogPull, SnapshotMeta}
use bims_shopify.Values.{Object}
use bims_shopify.Generations.{
  Generation, Db, is_current_of, of_tenant, ordered, find_generation, update_where, demote,
  make_current, trimmed_ids, meta_history_cap, delete_generations, new_generation, open_generation,
  write_rows, close_stage, purge, flip, promote, stage, load, load_current, to_meta, meta_by_id,
  stored_row, stock_entries, one_or_none,
}
use bims_shopify.Generations.Writing.{Wrote, add_rows, write_rows-Wrote}
use bims_shopify.Generations.Ids.{Descending, update-Descending, select-Descending}
use bims_shopify.Generations.Invariant.{IsValid, stage-IsValid, opened_products}
use bims_shopify.Generations.Promotion.{flip-IsValid, found_OfTenant, demoted_count, update_below}
use bims_shopify.Generations.Retention.{purge-SameView, mem_drop_older, All-unselect}
use bims_shopify.Generations.Visibility.{view_of, load_current-SameView}

none_selected : (p : Generation → Bool) (gs : List Generation) → count p gs ≡ 0 → select p gs ≡ []
none_selected p [] h = refl
none_selected p (g ∷ gs) h = ground (arith, none_selected p gs)

load_current_single :
    (t : ℕ) (db : Db) (g : Generation)
    → select (is_current_of t) db.generations ≡ g ∷ []
    → load_current t db ≡ ok (some (load (to_meta g) db))
unfolding load_current
load_current_single t db g h = ap (λ gs. view_of (one_or_none gs) db) h

flip_head :
    (f : Generation → Generation) (b : Bool) (g : Generation) (rest : List Generation)
    → f (demote g) ≡ f g
    → Descending g.id rest
    → update_where (λ h. h.id == g.id) f ((if b then demote g else g) ∷ rest) ≡ f g ∷ rest
unfolding update_where
flip_head f true g rest same d = ground (arith, update_below f g.id g.id rest d, same)
flip_head f false g rest same d = ground (arith, update_below f g.id g.id rest d)

module _ (finished_at : ℕ) (stats : Option Object) (timings : Object) (db : Db) (v : IsValid db)
    (g : Generation) (rest : List Generation) (newest : db.generations ≡ g ∷ rest) where
  abbrev flipped : Db
  flipped = flip g.tenant_id g.id finished_at stats timings db

  abbrev promoted : Generation
  promoted = make_current finished_at stats timings g

  found : find_generation g.id db.generations ≡ some g
  unfolding find_generation
  found = rw newest (ground arith)

  falling : Descending db.next_id (g ∷ rest)
  falling = subst (Descending db.next_id) newest v.ids

  flipped_generations :
      flipped.generations ≡ promoted ∷ update_where (is_current_of g.tenant_id) demote rest
  unfolding flip
  flipped_generations = rw newest (
      unfold update_where in
      flip_head (make_current finished_at stats timings) (is_current_of g.tenant_id g) g
        (update_where (is_current_of g.tenant_id) demote rest) refl
        (update-Descending demote (is_current_of g.tenant_id) g.id rest (λ h. refl) falling.1))

  flipped-IsValid : IsValid flipped
  flipped-IsValid =
      flip-IsValid g.tenant_id g.id finished_at stats timings db v
        (found_OfTenant g.id db.next_id g db.generations v.ids found)

  flipped_single : select (is_current_of g.tenant_id) flipped.generations ≡ promoted ∷ []
  flipped_single = rw flipped_generations (
      ground (
        arith,
        none_selected (is_current_of g.tenant_id)
            (update_where (is_current_of g.tenant_id) demote rest) (demoted_count g.tenant_id rest),
      ))

  flipped-ordered :
      ordered g.tenant_id flipped
      ≡ promoted
        ∷ select (of_tenant g.tenant_id) (update_where (is_current_of g.tenant_id) demote rest)
  flipped-ordered = rw flipped_generations (ground arith)

  flipped_falling : Descending db.next_id flipped.generations
  unfolding flip
  flipped_falling = flipped-IsValid.ids

  promoted_not_trimmed : mem_ℕ g.id (trimmed_ids g.tenant_id flipped) ≡ false
  unfolding trimmed_ids
  promoted_not_trimmed = rw flipped-ordered (
      mem_drop_older meta_history_cap db.next_id promoted []
        (select (of_tenant g.tenant_id) (update_where (is_current_of g.tenant_id) demote rest))
        (subst (Descending db.next_id) flipped-ordered (
          select-Descending (of_tenant g.tenant_id) db.next_id flipped.generations flipped_falling))
        (omega arith))

  promote_found : (promote g.id finished_at stats timings db).1 ≡ purge g.tenant_id flipped
  unfolding promote
  promote_found =
      ap
        (λ o.
          (elim o as (λ _. Result String SnapshotMeta × Db) [
            | none ↦ (err "NoResultFound", db)
            | some h ↦
                let db' = purge h.tenant_id (flip h.tenant_id g.id finished_at stats timings db) in
                (meta_by_id g.id db'.generations, db')
          ]).1)
        found

  -- Promoting the newest generation makes its rows what the tenant's readers see.
  pub load_current-promote :
      load_current g.tenant_id (promote g.id finished_at stats timings db).1
      ≡ ok (
          some (record {
            meta = to_meta promoted;
            rows = values g.id db.products;
            stock = values g.id db.stock;
          }))
  load_current-promote =
      ap (load_current g.tenant_id) promote_found
      ∙ load_current-SameView g.tenant_id flipped (purge g.tenant_id flipped) (
          purge-SameView g.tenant_id g.tenant_id flipped flipped-IsValid (
            All-unselect (λ h. mem_ℕ h.id (trimmed_ids g.tenant_id flipped) ≡ false)
              (is_current_of g.tenant_id) flipped.generations
              (subst (All (λ h. mem_ℕ h.id (trimmed_ids g.tenant_id flipped) ≡ false))
                (sym flipped_single) (promoted_not_trimmed, tt))))
      ∙ load_current_single g.tenant_id flipped promoted flipped_single
      ∙ (unfold load flip to_meta in refl)

-- What a staging that succeeds leaves: the new generation first, with the rows of the pull.
staged_ok :
    (id size : ℕ) (pull : CatalogPull) (opened : Db) (out : Result String ℕ × Db) {m : SnapshotMeta}
    → Wrote id size pull opened out
    → 0 < size
    → (close_stage id out).0 ≡ ok m
    → (close_stage id out).1
      ≡ add_rows id (map stored_row pull.rows) (stock_entries pull pull.stock) opened
unfolding close_stage
staged_ok id size pull opened (err e, db) w p h = cc
staged_ok id size pull opened (ok n, db) w p h =
    let (rows, stock) = w.complete n refl p in
    w.added ∙ ap₂ (λ xs ys. add_rows id xs ys opened) rows stock

values_added :
    {A : Type 0} (id : ℕ) (rows : List (ℕ × A)) (xs : List A)
    → KeysBelow id rows
    → values id (rows ++ tag id xs) ≡ xs
values_added id rows xs h = simp (values-append, values_fresh id rows h, values-tag_self)

-- A pull that is staged without a failure and then promoted is what the tenant's readers load: the
-- snapshot of the new id, with every row of the pull in order (names cut at 500 characters) and
-- every stock record with its warehouses and unfiltered total.
pub load_current-promote-stage :
    (fail : ℕ → Option String) (size tenant_id : ℕ) (pull : CatalogPull)
    (started_at finished_at : ℕ) (stats : Option Object) (timings : Object) (db : Db)
    {m : SnapshotMeta}
    → IsValid db
    → 0 < size
    → (stage fail size tenant_id pull started_at db).0 ≡ ok m
    → (meta : SnapshotMeta) × (meta.id ≡ db.next_id)
      × (load_current tenant_id
            (promote db.next_id finished_at stats timings
              (stage fail size tenant_id pull started_at db).1).1
          ≡ ok (
              some (record {
                meta = meta;
                rows = map stored_row pull.rows;
                stock = stock_entries pull pull.stock;
              })))
unfolding stage to_meta new_generation open_generation
load_current-promote-stage fail size tenant_id pull started_at finished_at stats timings db {m} v p
      h =
    (to_meta (make_current finished_at stats timings fresh), refl, shown)
  where
    fresh : Generation
    fresh = new_generation db.next_id tenant_id Status.building pull started_at none none

    opened : Db
    opened = open_generation tenant_id pull started_at db

    staged : Db
    staged = add_rows db.next_id (map stored_row pull.rows) (stock_entries pull pull.stock) opened

    is_staged : (stage fail size tenant_id pull started_at db).1 ≡ staged
    is_staged =
        staged_ok db.next_id size pull opened (write_rows db.next_id fail size pull opened)
          (write_rows-Wrote db.next_id fail size pull opened) p h

    staged-IsValid : IsValid staged
    staged-IsValid =
        subst IsValid is_staged (stage-IsValid fail size tenant_id pull started_at db v)

    rows_of : KeysBelow db.next_id opened.products × KeysBelow db.next_id opened.stock
    rows_of = opened_products tenant_id pull started_at db v

    shown :
        load_current tenant_id
          (promote db.next_id finished_at stats timings
            (stage fail size tenant_id pull started_at db).1).1
        ≡ ok (
            some (record {
              meta = to_meta (make_current finished_at stats timings fresh);
              rows = map stored_row pull.rows;
              stock = stock_entries pull pull.stock;
            }))
    shown =
        ap (λ d. load_current tenant_id (promote db.next_id finished_at stats timings d).1)
          is_staged
        ∙ load_current-promote finished_at stats timings staged staged-IsValid fresh
            (delete_generations tenant_id Status.building db).generations refl
        ∙ ap₂
            (λ rs ss. ok (
              some (record {
                meta = to_meta (make_current finished_at stats timings fresh);
                rows = rs;
                stock = ss;
              })))
            (values_added db.next_id opened.products (map stored_row pull.rows) rows_of.0)
            (values_added db.next_id opened.stock (stock_entries pull pull.stock) rows_of.1)
