-- ===== src/Catalog/Claimed.antt =====
-- src/bims_shopify/ops/catalog.py, the `dedupe` command: no SKU leaves the shop.
use bims_shopify.Base.{
  ◌+◌, ◌*◌, ◌≤◌, String, Bool, true, false, not, List, [], ◌∷◌, ◌++◌, str_eq, eq_iff, length,
  length-append, All, All-imp, Bool-cases, ◌≡◌, refl, arith, inl, inr, ◌⊎◌,
}
use bims_shopify.Catalog.Counting.{mem, times, any→count}
use bims_shopify.Catalog.Import.{Answer, done, transient, raised}
use bims_shopify.Catalog.Dedupe.{
  ShopProduct, Entry, DedupePlan, BatchResult, Ending, dry_run, ran, entry_of, is_duplicate,
  see_product, see_products, no_plan, compute_dedupe_plan, apply_one, apply_all, apply_dedupe,
  no_change, above_ratio, run_dedupe, remaining, deleted_by,
}
use bims_shopify.Catalog.Sold.{sold, kept_products, ids, doomed, parted, mem_append, still_sold}

Answer-cases :
    (a : Answer (Unit {0}))
    → ((u : Unit {0}) × (a ≡ done u))
      ⊎ (((x : String) × (a ≡ transient x)) ⊎ ((x : String) × (a ≡ raised x)))
Answer-cases (done u) = inl (u, refl)
Answer-cases (transient x) = inr (inl (x, refl))
Answer-cases (raised x) = inr (inr (x, refl))

-- What a batch changed is what it was asked to change, and no more of it.
abbrev Asked : List Entry → BatchResult → BatchResult → Type 0
Asked es r s =
    ((i : String) → mem i s.changed ≡ true → (mem i r.changed ≡ true) ⊎ (mem i (doomed es) ≡ true))
    × (length s.changed ≤ length r.changed + length es)

apply_all-Asked :
    (call : String → Answer (Unit {0})) (es : List Entry) (r : BatchResult)
    → Asked es r (apply_all call es r).0
unfolding apply_all
apply_all-Asked call [] r = ((λ i h. inl h), omega arith)
apply_all-Asked call (e ∷ es) r = elim (Answer-cases (call e.product_id)) [
  | inl (u, k) ↦
      let one : BatchResult = record r {
        processed = r.processed + 1;
        changed = r.changed ++ e.product_id ∷ [];
      } in
      let ih = apply_all-Asked call es one in
      rw (k, apply_all, apply_one)
        (
          λ i h. elim (ih.0 i h) [
            | inl m ↦ elim (mem_append i r.changed (e.product_id ∷ []) m) [
              | inl q ↦ inl q
              | inr q ↦ inr (ground (arith, q))
            ]
            | inr m ↦ inr (ground (arith, m))
          ],
          omega (arith, ih.1, length-append r.changed (e.product_id ∷ [])),
        )
  | inr (inl (x, k)) ↦
      let one : BatchResult = record r {
        failed = r.failed ++ record { product_id = e.product_id; error = x } ∷ [];
      } in
      let ih = apply_all-Asked call es one in
      rw (k, apply_all, apply_one)
        (
          λ i h. elim (ih.0 i h) [ inl m ↦ inl m | inr m ↦ inr (ground (arith, m)) ],
          omega (arith, ih.1),
        )
  | inr (inr (x, k)) ↦ rw (k, apply_all, apply_one) ((λ i h. inl h), omega arith)
]

-- No product id stands twice in the scan.
abbrev pub DistinctIds : List ShopProduct → Type 0
DistinctIds products = (i : String) → times i (ids products) ≤ 1

times→mem : (i : String) (xs : List String) → times i xs ≡ 0 → mem i xs ≡ false
times→mem i xs h = elim (Bool-cases (mem i xs)) [
  | inl e ↦ absurd (omega (arith, any→count (λ t. str_eq t i) xs e, h))
  | inr e ↦ e
]

-- The ids of kept products are not those of duplicates.
kept_apart :
    (ps : List ShopProduct) (es : List Entry)
    → ((i : String) → times i (doomed es) + times i (ids ps) ≤ 1)
    → All (λ p. mem p.id (doomed es) ≡ false) ps
kept_apart [] es h = tt
kept_apart (p ∷ ps) es h = (
  times→mem p.id (doomed es) (ground (arith, h p.id, eq_iff p.id p.id)),
  kept_apart ps es (λ i. ground (arith, h i)),
)

see_product_total :
    (p : ShopProduct) (plan : DedupePlan)
    → ((see_product p plan).total_products ≡ plan.total_products)
      × (length (see_product p plan).duplicates_to_delete ≤ length plan.duplicates_to_delete + 1)
unfolding see_product
see_product_total p plan = elim (Bool-cases (is_duplicate plan.claimed p)) [
  | inl h ↦ rw h (refl, omega (arith, length-append plan.duplicates_to_delete (entry_of p ∷ [])))
  | inr h ↦ rw h (refl, omega arith)
]

see_products_total :
    (ps : List ShopProduct) (plan : DedupePlan)
    → ((see_products ps plan).total_products ≡ plan.total_products)
      × (length (see_products ps plan).duplicates_to_delete
          ≤ length plan.duplicates_to_delete + length ps)
unfolding see_products
see_products_total [] plan = (refl, omega arith)
see_products_total (p ∷ ps) plan =
    let ih = see_products_total ps (see_product p plan) in
    let one = see_product_total p plan in (omega (arith, ih.0, one.0), omega (arith, ih.1, one.1))

-- What a run deletes is what the plan gives up, and without `force` at most 60% of the scan.
abbrev Given : Bool → List ShopProduct → Ending → Type 0
Given force products ending =
    ((i : String)
      → mem i (deleted_by ending) ≡ true
      → mem i (doomed (compute_dedupe_plan products).duplicates_to_delete) ≡ true)
    × (force ≡ false → 10 * length (deleted_by ending) ≤ 6 * length products)

module _ (delete_product : String → Answer (Unit {0})) (products : List ShopProduct) where
  asked_all :
      (force : Bool)
      → (force ≡ false
          → 10 * length (compute_dedupe_plan products).duplicates_to_delete ≤ 6 * length products)
      → Given force products (
          let r = apply_dedupe delete_product (compute_dedupe_plan products).duplicates_to_delete in
          ran r.0 r.1)
  unfolding apply_dedupe
  asked_all force h =
      let a =
        apply_all-Asked delete_product (compute_dedupe_plan products).duplicates_to_delete
          no_change in
      (λ i m. elim (a.0 i m) [ inl q ↦ absurd (cc) | inr q ↦ q ], λ f. omega (arith, h f, a.1))

  nothing_deleted : (force : Bool) → Given force products dry_run
  nothing_deleted force = ((λ i m. absurd (cc)), λ f. omega arith)

  run_dedupe-Given :
      (apply force : Bool) → Given force products (run_dedupe apply force delete_product products)
  unfolding run_dedupe compute_dedupe_plan
  run_dedupe-Given false force = nothing_deleted force
  run_dedupe-Given true true = asked_all true (λ f. absurd (cc))
  run_dedupe-Given true false =
      let plan = compute_dedupe_plan products in
      let n = length plan.duplicates_to_delete in
      let t = see_products_total products (no_plan products) in
      elim (Bool-cases (above_ratio n plan.total_products)) [
        | inl h ↦ rw h ((λ i m. absurd (cc)), λ f. omega arith)
        | inr h ↦ rw h (asked_all false (λ f. ground (arith, h, t)))
      ]

  -- Whatever the shop answers to the deletions of `dedupe`, with or without its guard, every SKU that
  -- a product of the scan has is still one of a product that is left, when ids are distinct; and
  -- without `force` at most 60% of the products are deleted.
  pub dedupe_keeps_skus :
      (apply force : Bool)
      → DistinctIds products
      → let deleted = deleted_by (run_dedupe apply force delete_product products) in
        ((s : String) → sold s products ≡ true → sold s (remaining deleted products) ≡ true)
        × (force ≡ false → 10 * length deleted ≤ 6 * length products)
  unfolding compute_dedupe_plan
  dedupe_keeps_skus apply force d =
      let given = run_dedupe-Given apply force in
      let deleted = deleted_by (run_dedupe apply force delete_product products) in
      let dups = (compute_dedupe_plan products).duplicates_to_delete in
      let kept = kept_products products (no_plan products) in
      let spared =
        kept_apart kept dups (λ i. omega (arith, parted i products (no_plan products), d i)) in
      let left =
        All-imp (λ p. mem p.id (doomed dups) ≡ false) (λ p. not (mem p.id deleted) ≡ true) kept
          (λ p e. elim (Bool-cases (mem p.id deleted)) [
            | inl m ↦ let q = given.0 p.id m in absurd (cc)
            | inr m ↦ rw m refl
          ])
          spared in
      (
        λ s h.
            elim (still_sold s (λ p. not (mem p.id deleted)) products (no_plan products) left
              (inr h)) [ inl m ↦ absurd (cc) | inr m ↦ m ],
        given.1,
      )
