-- ===== src/Catalog/Sold.antt =====
-- src/bims_shopify/ops/catalog.py, `compute_dedupe_plan`: every SKU of the scan is one of a product
-- that the plan keeps.
use bims_shopify.Base.{
  ◌+◌, String, Bool, true, false, List, [], ◌∷◌, ◌++◌, map, any, all, select, str_eq, eq_iff,
  if◌then◌else◌, All, Bool-cases, ◌≡◌, refl, sym, subst, arith, inl, inr, ◌⊎◌,
}
use bims_shopify.Catalog.Counting.{mem, times, times-append}
use bims_shopify.Catalog.Dedupe.{
  ShopProduct, Entry, DedupePlan, skus_of, entry_of, is_duplicate, see_product, see_products,
}

-- Some product has this SKU.
abbrev pub sold : String → List ShopProduct → Bool
sold s products = any (λ p. mem s (skus_of p)) products

-- The products that the plan keeps.
abbrev pub kept_products : List ShopProduct → DedupePlan → List ShopProduct
kept_products [] plan = []
kept_products (p ∷ ps) plan =
    let rest = kept_products ps (see_product p plan) in
    if is_duplicate plan.claimed p then rest else p ∷ rest

abbrev pub ids : List ShopProduct → List String
ids products = map (λ p. p.id) products

abbrev pub doomed : List Entry → List String
doomed es = map (λ e. e.product_id) es

pub doomed-append : (es ds : List Entry) → doomed (es ++ ds) ≡ doomed es ++ doomed ds
doomed-append [] ds = refl
doomed-append (e ∷ es) ds = rw (doomed-append es ds) refl

pub doomed-times :
    (i : String) (es : List Entry) (e : Entry)
    → times i (doomed (es ++ e ∷ [])) ≡ times i (doomed es) + times i (e.product_id ∷ [])
doomed-times i es e =
    rw (doomed-append es (e ∷ [])) (times-append i (doomed es) (e.product_id ∷ []))

-- Every product is either kept or to be deleted.
pub parted :
    (i : String) (ps : List ShopProduct) (plan : DedupePlan)
    → times i (doomed (see_products ps plan).duplicates_to_delete)
        + times i (ids (kept_products ps plan))
      ≡ times i (doomed plan.duplicates_to_delete) + times i (ids ps)
unfolding see_products see_product
parted i [] plan = refl
parted i (p ∷ ps) plan =
    let ih = parted i ps (see_product p plan) in
    let dup = doomed-times i plan.duplicates_to_delete (entry_of p) in
    elim (Bool-cases (is_duplicate plan.claimed p)) [
      | inl h ↦ rw h (ground (arith, rw h at ih, dup))
      | inr h ↦ rw h (ground (arith, rw h at ih))
    ]

pub mem_append :
    (s : String) (xs ys : List String)
    → mem s (xs ++ ys) ≡ true
    → (mem s xs ≡ true) ⊎ (mem s ys ≡ true)
mem_append s [] ys h = inr h
mem_append s (x ∷ xs) ys h = ground (arith, mem_append s xs ys)

pub mem_more :
    (s : String) (xs ys : List String)
    → (mem s xs ≡ true) ⊎ (mem s ys ≡ true)
    → mem s (xs ++ ys) ≡ true
mem_more s [] ys h = ground (arith, h)
mem_more s (x ∷ xs) ys h = ground (arith, h, mem_more s xs ys)

pub all-mem :
    (s : String) (xs ys : List String)
    → all (λ x. mem x ys) xs ≡ true
    → mem s xs ≡ true
    → mem s ys ≡ true
all-mem s [] ys h k = ground arith
all-mem s (x ∷ xs) ys h k = elim (Bool-cases (str_eq x s)) [
  | inl e ↦
      let e' = (eq_iff x s).0 e in
      ground (arith, subst (λ t. mem t ys ≡ true → mem s ys ≡ true) (sym e') (λ q. q))
  | inr e ↦ all-mem s xs ys (ground (arith, h)) (rw e at k)
]

-- What is claimed or sold is claimed or sold by what is left, when all that is kept is left.
module _ (s : String) (left : ShopProduct → Bool) where
  pub sold_more :
      (p : ShopProduct) (qs : List ShopProduct) (b : Bool)
      → sold s qs ≡ true
      → sold s (if b then p ∷ qs else qs) ≡ true
  sold_more p qs false h = h
  sold_more p qs true h = ground (arith, h)

  -- What a duplicate sells is claimed.
  pub claimed_first :
      (p : ShopProduct) (ps : List ShopProduct) (claimed : List String)
      → is_duplicate claimed p ≡ true
      → sold s (p ∷ ps) ≡ true
      → (mem s claimed ≡ true) ⊎ (sold s ps ≡ true)
  unfolding is_duplicate
  claimed_first p ps claimed e h = elim (Bool-cases (mem s (skus_of p))) [
    | inl m ↦ inl (all-mem s (skus_of p) claimed (ground (arith, e)) m)
    | inr m ↦ inr (rw m at h)
  ]

  pub still_kept :
      (p : ShopProduct) (ps : List ShopProduct) (claimed : List String)
      → (mem s claimed ≡ true) ⊎ (sold s (p ∷ ps) ≡ true)
      → (mem s (claimed ++ skus_of p) ≡ true) ⊎ (sold s ps ≡ true)
  still_kept p ps claimed (inl h) = inl (mem_more s claimed (skus_of p) (inl h))
  still_kept p ps claimed (inr h) = elim (Bool-cases (mem s (skus_of p))) [
    | inl m ↦ inl (mem_more s claimed (skus_of p) (inr m))
    | inr m ↦ inr (rw m at h)
  ]

  pub still_sold :
      (ps : List ShopProduct) (plan : DedupePlan)
      → All (λ p. left p ≡ true) (kept_products ps plan)
      → (mem s plan.claimed ≡ true) ⊎ (sold s ps ≡ true)
      → (mem s plan.claimed ≡ true) ⊎ (sold s (select left ps) ≡ true)
  unfolding see_product
  still_sold [] plan a (inl h) = inl h
  still_sold [] plan a (inr h) = inr h
  still_sold (p ∷ ps) plan a h = elim (Bool-cases (is_duplicate plan.claimed p)) [
    | inl e ↦
        let ih = (rw e at (still_sold ps (see_product p plan))) (rw e at a) in
        elim (ih (elim h [ inl m ↦ inl m | inr m ↦ claimed_first p ps plan.claimed e m ])) [
          | inl m ↦ inl m
          | inr m ↦ inr (sold_more p (select left ps) (left p) m)
        ]
    | inr e ↦
        let kept = rw e at a in
        let ih = (rw e at (still_sold ps (see_product p plan))) kept.1 in
        elim (ih (still_kept p ps plan.claimed h)) [
          | inl m ↦ elim (mem_append s plan.claimed (skus_of p) m) [
            | inl q ↦ inl q
            | inr q ↦ inr (rw kept.0 (rw q refl))
          ]
          | inr m ↦ inr (sold_more p (select left ps) (left p) m)
        ]
  ]
