-- ===== src/Healing/Writes.antt =====
-- src/bims_shopify/ops/self_heal.py, `create_missing`: what one cycle writes to the shop.
use bims_shopify.Base.{
  ℕ, ◌≤◌, String, not, ◌&&◌, Option, none, some, List, [], ◌∷◌, any, all, select, length,
  length-append, length-take, str_eq, ℤ, pos, negsuc, Result, Result-cases, ok, err, All,
  Bool-cases, ◌≡◌, refl, arith, inl, inr,
}
use bims_shopify.Snapshot.{Tenant}
use bims_shopify.Titles.{Texts}
use bims_shopify.Catalog.{ProductGroup, VariantRow}
use bims_shopify.Catalog.Import.{
  ExistingCatalogIndex, ImportResult, Shop, Write, Conflict, present_of, group_skus, carry_out,
  import_present, import_with, import_one, import_from, apply_import, add_outcome,
  plan_variant_additions,
}
use bims_shopify.Catalog.Counting.{mem}
use bims_shopify.Catalog.Written.{Fresh, apply_import-Fresh}
use bims_shopify.Healing.{
  SkuIndex, CreateStage, index_is_fresh, known_skus, has_unknown, slice_to, present_skus, capped,
  max_create_ratio, max_create_per_cycle, too_many_missing, guarded, scanned, create_missing,
}

module _ (texts : Texts) (shop : Shop) where
  -- A group asks for at most one write.
  one_write :
      (existing : List String) (index : Option ExistingCatalogIndex) (g : ProductGroup)
      → length (import_one texts shop existing index g).1 ≤ 1
  unfolding import_one
  one_write existing index g = with_present (present_of existing g) index
    where
      carried :
          (p : Option String) (vs : List VariantRow) (cs : List Conflict)
          → length (carry_out texts shop g p vs cs).1 ≤ 1
      carried none vs cs = omega arith
      carried (some p) [] cs = omega arith
      carried (some p) (v ∷ vs) cs = elim (Bool-cases (str_eq p "")) [
        | inl e ↦ rw e (omega arith)
        | inr e ↦ rw e (omega arith)
      ]

      some_present :
          (present : List String) (o : Option ExistingCatalogIndex)
          → length (import_present texts shop g present o).1 ≤ 1
      some_present present none = omega arith
      some_present present (some i) = elim (Bool-cases (all (λ s. mem s present) (group_skus g))) [
        | inl e ↦ rw e (omega arith)
        | inr e ↦
            let plan = plan_variant_additions texts g present i in
            rw e (carried plan.product_id plan.to_add plan.conflicts)
      ]

      with_present :
          (present : List String) (o : Option ExistingCatalogIndex)
          → length (import_with texts shop g present o).1 ≤ 1
      with_present [] o = omega arith
      with_present (s ∷ ss) o = some_present (s ∷ ss) o

  some_writes :
      (existing : List String) (index : Option ExistingCatalogIndex) (gs : List ProductGroup)
      (r : ImportResult)
      → length (import_from texts shop existing index gs r).1 ≤ length gs
  unfolding import_from
  some_writes existing index [] r = omega arith
  some_writes existing index (g ∷ gs) r =
      let one = import_one texts shop existing index g in
      let b = one_write existing index g in
      elim (Result-cases one.0) [
        | inl (e, h) ↦ rw (h, import_from) (omega (arith, b))
        | inr (o, h) ↦
            let rest = (import_from texts shop existing index gs (add_outcome texts shop o r)).1 in
            rw (h, import_from)
              (omega (
                arith,
                b,
                length-append one.1 rest,
                some_writes existing index gs (add_outcome texts shop o r),
              ))
      ]

module _ (texts : Texts) (parse_int : String → Option ℤ) (shop : Shop)
    (existing : ExistingCatalogIndex) where
  -- The writes of a cycle are fresh, and there are at most as many as the setting says.
  abbrev pub Careful : Tenant → Result String CreateStage × List Write → Type 0
  Careful tenant r =
      All (Fresh texts (present_skus texts parse_int shop existing) (some existing)) r.1
      × ((n : ℕ)
          → max_create_per_cycle texts parse_int shop existing tenant ≡ ok (pos n)
          → length r.1 ≤ n)

  slice_short :
      (q : ℤ) (n : ℕ) (pending : List ProductGroup) → q ≡ pos n → length (slice_to q pending) ≤ n
  unfolding slice_to
  slice_short (pos m) n pending e = ground (arith, e, length-take m pending)
  slice_short (negsuc m) n pending e = absurd (cc)

  capped-Careful :
      (tenant : Tenant) (now : ℕ) (pending : List ProductGroup) (o : Result String ℤ)
      → max_create_per_cycle texts parse_int shop existing tenant ≡ o
      → Careful tenant (capped texts parse_int shop existing now pending o)
  unfolding apply_import
  capped-Careful tenant now pending (err e) h = (tt, λ n k. omega arith)
  capped-Careful tenant now pending (ok q) h =
      let present = present_skus texts parse_int shop existing in
      let batch = slice_to q pending in
      (
        apply_import-Fresh texts shop present (some existing) batch,
        λ n k. omega (
          arith,
          slice_short q n pending (cc),
          some_writes texts shop present (some existing) batch (record {
            created = [];
            skipped_existing = [];
            failed = [];
            variants_added = [];
            conflicts = [];
          }),
        ),
      )

  guarded-Careful :
      (tenant : Tenant) (now : ℕ) (groups pending : List ProductGroup) (o : Result String ℤ)
      → Careful tenant (guarded texts parse_int shop existing tenant now groups pending o)
  guarded-Careful tenant now groups pending (err e) = (tt, λ n k. omega arith)
  guarded-Careful tenant now groups pending (ok ratio) =
      elim (Bool-cases (too_many_missing texts parse_int shop existing groups pending ratio)) [
        | inl e ↦ rw e (tt, λ n k. omega arith)
        | inr e ↦ rw e (
            capped-Careful tenant now pending
              (max_create_per_cycle texts parse_int shop existing tenant) refl)
      ]

  scanned-Careful :
      (tenant : Tenant) (now : ℕ) (groups pending : List ProductGroup)
      → Careful tenant (scanned texts parse_int shop existing tenant now groups pending)
  scanned-Careful tenant now groups [] = (tt, λ n k. omega arith)
  scanned-Careful tenant now groups (g ∷ gs) =
      guarded-Careful tenant now groups (g ∷ gs)
        (max_create_ratio texts parse_int shop existing tenant)

  -- Whatever the settings, the remembered index and the shop's answers, one cycle creates only
  -- what the scan of the shop lacks, and it asks for at most as many writes as the tenant's
  -- `max_create_per_cycle` says when that is not negative.
  pub create_missing-Careful :
      (tenant : Tenant) (groups : List ProductGroup) (index : Option SkuIndex) (now : ℕ)
      → Careful tenant (create_missing texts parse_int shop existing tenant groups index now)
  unfolding create_missing
  create_missing-Careful tenant groups index now =
      elim (Bool-cases
        (index_is_fresh index now && not (any (has_unknown (known_skus index)) groups))) [
          | inl e ↦ rw e (tt, λ n k. omega arith)
          | inr e ↦ rw e (
              scanned-Careful tenant now groups
                (select (has_unknown (present_skus texts parse_int shop existing)) groups))
        ]
