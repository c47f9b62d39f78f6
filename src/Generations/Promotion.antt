-- ===== src/Generations/Promotion.antt =====
-- Promoting, rejecting and purging keep the invariant: at most one generation of a tenant is
-- current at any time.
use native.Mathlib.Nat.{le_trans}
use bims_shopify.Base.{
  ℕ, ◌+◌, ◌≤◌, String, ◌≡◌, refl, inl, inr, Bool, true, Option, none, some, List, [], ◌∷◌, arith,
  ◌==◌, ==_iff, Result, err, All, All-of, All-imp, count, select, select-All, count-select-le,
  Bool-cases,
}
use bims_shopify.Values.{Object}
use bims_shopify.Snapshot.{Status, CatalogPull, SnapshotMeta}
use bims_shopify.Generations.{
  Generation, Db, same_status, is_current_of, update_where, find_generation, demote, make_current,
  new_generation, not_in, delete_rows, purge, flip, promote, set_stats, record_rejected,
  dropped_ids, trimmed_ids, meta_by_id,
}
use bims_shopify.Generations.Ids.{
  Descending, select-Descending, count-update-le, update-Descending, update-All,
}
use bims_shopify.Generations.Invariant.{
  IsValid, delete_rows-IsValid, update-IsValid, insert-IsValid,
}

select-IsValid :
    (p : Generation → Bool) (db : Db)
    → IsValid db
    → IsValid (record db { generations = select p db.generations })
select-IsValid p db v = record {
  ids = select-Descending p db.next_id db.generations v.ids;
  product_owners = v.product_owners;
  stock_owners = v.stock_owners;
  statuses = select-All _ p db.generations v.statuses;
  one_current =
      λ t. le_trans (count-select-le p (is_current_of t) db.generations) (v.one_current t);
}

pub purge-IsValid : (tenant_id : ℕ) (db : Db) → IsValid db → IsValid (purge tenant_id db)
unfolding purge
purge-IsValid tenant_id db v =
    let dropped = dropped_ids tenant_id db in
    let trimmed = trimmed_ids tenant_id db in
    select-IsValid (λ g. not_in g.id trimmed) (delete_rows trimmed (delete_rows dropped db))
      (delete_rows-IsValid trimmed (delete_rows dropped db) (delete_rows-IsValid dropped db v))

-- The transaction of `promote` leaves no other generation of the tenant current.
pub demoted_count :
    (t : ℕ) (gs : List Generation)
    → count (is_current_of t) (update_where (is_current_of t) demote gs) ≡ 0
unfolding update_where
demoted_count t [] = refl
demoted_count t (g ∷ gs) = ground (arith, demoted_count t gs)

pub update_below :
    (f : Generation → Generation) (k n : ℕ) (gs : List Generation)
    → Descending n gs
    → n ≤ k
    → update_where (λ g. g.id == k) f gs ≡ gs
unfolding update_where
update_below f k n [] d h = refl
update_below f k n (g ∷ gs) d h = ground (arith, update_below f k g.id gs d.1)

-- An update of the one row with an id adds at most one to a count.
count-update_one :
    (q : Generation → Bool) (f : Generation → Generation) (k n : ℕ) (gs : List Generation)
    → Descending n gs
    → count q (update_where (λ g. g.id == k) f gs) ≤ count q gs + 1
unfolding update_where
count-update_one q f k n [] d = omega arith
count-update_one q f k n (g ∷ gs) d = elim (Bool-cases (g.id == k)) [
  | inl e ↦ ground (arith, update_below f k g.id gs d.1)
  | inr e ↦ ground (arith, count-update_one q f k g.id gs d.1)
]

abbrev pub OfTenant : ℕ → ℕ → Generation → Type 0
OfTenant tenant_id id g = (g.id == id) ≡ true → g.tenant_id ≡ tenant_id

below_OfTenant :
    (t k n : ℕ) (gs : List Generation) → Descending n gs → n ≤ k → All (OfTenant t k) gs
below_OfTenant t k n [] d h = tt
below_OfTenant t k n (g ∷ gs) d h =
    ((λ e. absurd (ground arith)), below_OfTenant t k g.id gs d.1 (omega arith))

pub found_OfTenant :
    (k n : ℕ) (g : Generation) (gs : List Generation)
    → Descending n gs
    → find_generation k gs ≡ some g
    → All (OfTenant g.tenant_id k) gs
unfolding find_generation
found_OfTenant k n g [] d h = tt
found_OfTenant k n g (x ∷ gs) d h = elim (Bool-cases (x.id == k)) [
  | inl e ↦ ((λ _. ground arith), below_OfTenant g.tenant_id k x.id gs d.1 (ground arith))
  | inr e ↦ ((λ t. cc (t, e)), found_OfTenant k x.id g gs d.1 (rw e at h))
]

module _ (tenant_id id finished_at : ℕ) (stats : Option Object) (timings : Object) (db : Db) where
  demoted : Db
  demoted = record db { generations = update_where (is_current_of tenant_id) demote db.generations }

  demoted-IsValid : IsValid db → IsValid demoted
  unfolding demoted
  demoted-IsValid v =
      update-IsValid (is_current_of tenant_id) demote db (λ g. refl)
        (All-of _ (λ g _. refl) db.generations) (λ t g h. absurd (ground arith)) v

  demoted_OfTenant :
      All (OfTenant tenant_id id) db.generations → All (OfTenant tenant_id id) demoted.generations
  unfolding demoted
  demoted_OfTenant a =
      update-All demote (OfTenant tenant_id id) (is_current_of tenant_id) db.generations a
        (All-imp (OfTenant tenant_id id) _ db.generations (λ g o _. o) a)

  -- A row of another tenant is not touched, and no other row of this tenant is left current.
  flip_one_current :
      IsValid db
      → All (OfTenant tenant_id id) db.generations
      → (t : ℕ)
      → count (is_current_of t) (
          update_where
            (λ g. g.id == id)
            (make_current finished_at stats timings)
            demoted.generations)
        ≤ 1
  unfolding demoted
  flip_one_current v a t = elim (Bool-cases (t == tenant_id)) [
    | inl e ↦
        let same : t ≡ tenant_id = (==_iff t tenant_id).0 e in
        rw same (
          omega (
            arith,
            demoted_count tenant_id db.generations,
            count-update_one (is_current_of tenant_id) (make_current finished_at stats timings) id
                db.next_id demoted.generations (demoted-IsValid v).ids,
          ))
    | inr e ↦
        le_trans
          (count-update-le (make_current finished_at stats timings) (λ g. g.id == id)
            (is_current_of t) demoted.generations
            (All-imp (OfTenant tenant_id id) _ demoted.generations
              (λ g o i c. absurd (ground (arith, o i))) (demoted_OfTenant a)))
          ((demoted-IsValid v).one_current t)
  ]

  pub flip-IsValid :
      IsValid db
      → All (OfTenant tenant_id id) db.generations
      → IsValid (flip tenant_id id finished_at stats timings db)
  unfolding flip demoted
  flip-IsValid v a = record {
    ids =
        update-Descending (make_current finished_at stats timings) (λ g. g.id == id) db.next_id
          demoted.generations (λ g. refl) (demoted-IsValid v).ids;
    product_owners = v.product_owners;
    stock_owners = v.stock_owners;
    statuses =
        update-All (make_current finished_at stats timings)
          (λ g. g.is_current ≡ same_status g.status Status.current) (λ g. g.id == id)
          demoted.generations (demoted-IsValid v).statuses
          (All-of _ (λ g _. refl) demoted.generations);
    one_current = flip_one_current v a;
  }

-- Promoting keeps the invariant, also for an id that is not in the table.
pub promote-IsValid :
    (id finished_at : ℕ) (stats : Option Object) (timings : Object) (db : Db)
    → IsValid db
    → IsValid (promote id finished_at stats timings db).1
unfolding promote
promote-IsValid id finished_at stats timings db v = go (find_generation id db.generations) refl
  where
    go :
        (o : Option Generation)
        → find_generation id db.generations ≡ o
        → IsValid
            (elim o as (λ _. Result String SnapshotMeta × Db) [
              | none ↦ (err "NoResultFound", db)
              | some g ↦
                  let db' = purge g.tenant_id (flip g.tenant_id id finished_at stats timings db) in
                  (meta_by_id id db'.generations, db')
            ]).1
    go none e = v
    go (some g) e = purge-IsValid g.tenant_id (flip g.tenant_id id finished_at stats timings db) (
        flip-IsValid g.tenant_id id finished_at stats timings db v
          (found_OfTenant id db.next_id g db.generations v.ids e))

pub record_rejected-IsValid :
    (tenant_id : ℕ) (pull : CatalogPull) (started_at finished_at : ℕ) (rejection : Object) (db : Db)
    → IsValid db
    → IsValid (record_rejected tenant_id pull started_at finished_at rejection db).1
unfolding record_rejected new_generation
record_rejected-IsValid tenant_id pull started_at finished_at rejection db v =
    purge-IsValid tenant_id _ (
      insert-IsValid
        (new_generation db.next_id tenant_id Status.rejected pull started_at (some finished_at)
          (some rejection))
        db refl refl refl v)

pub set_stats-IsValid :
    (id : ℕ) (stats : Object) (db : Db) → IsValid db → IsValid (set_stats id stats db)
unfolding set_stats
set_stats-IsValid id stats db v =
    update-IsValid (λ g. g.id == id) (λ g. record g { stats = some stats }) db (λ g. refl)
      (All-imp _ _ db.generations (λ g e _. e) v.statuses) (λ t g h. h) v
