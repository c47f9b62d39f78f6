-- ===== src/Catalog/Targets.antt =====
-- src/bims_shopify/ops/catalog.py, the commands `cleanup_no_stock` and `publish`: they never pull a
-- product in opposite directions, and a clean-up that is run again finds nothing.
use bims_shopify.Base.{
  ℕ, zero, suc, ◌+◌, String, Bool, true, false, Option, none, some, is_none, List, [], ◌∷◌, ◌++◌,
  map, any, eq_iff, if◌then◌else◌, lookup, take, append-nil, append_assoc, All, All-imp, Bool-cases,
  ◌≡◌, ◌≢◌, refl, sym, subst, arith, inl, inr, ◌∙◌,
}
use bims_shopify.Catalog.{has_stock}
use bims_shopify.Catalog.Counting.{mem}
use bims_shopify.Catalog.Import.{Answer, done}
use bims_shopify.Catalog.Dedupe.{
  ShopProduct, Entry, BatchResult, is_empty, entry_of, apply_one, apply_all, no_change,
}
use bims_shopify.Catalog.Settling.{
  is_target, is_shown, entries, see_all_for_cleanup_targets, see_all_for_publish_targets,
}
use bims_shopify.Catalog.Stocked.{
  Stock, no_cleanup, no_publish, Mode, draft, PublishPlan, is_unknown, some_stock,
  compute_cleanup_plan, apply_cleanup, cut_targets, compute_publish_plan, see_all_for_publish,
}

-- BIMS answered for every SKU of the entry, and it has some.
abbrev pub Known : Stock → Entry → Type 0
Known stock e = (is_empty e.skus ≡ false) × (any (λ s. is_none (lookup s stock)) e.skus ≡ false)

module _ {A : Type 0} (P : A → Type 0) where
  take-All : (n : ℕ) (xs : List A) → All P xs → All P (take n xs)
  take-All zero xs a = tt
  take-All (suc n) [] a = tt
  take-All (suc n) (x ∷ xs) a = (a.0, take-All n xs a.1)

entries-All :
    (P : Entry → Type 0) (test : ShopProduct → Bool) (ps : List ShopProduct)
    → ((p : ShopProduct) → test p ≡ true → P (entry_of p))
    → All P (entries test ps)
entries-All P test [] h = tt
entries-All P test (p ∷ ps) h = elim (Bool-cases (test p)) [
  | inl e ↦ rw e (h p e, entries-All P test ps h)
  | inr e ↦ rw e (entries-All P test ps h)
]

cut_targets-All :
    (P : Entry → Type 0) (limit : Option ℕ) (plan : PublishPlan)
    → All P plan.targets
    → All P (cut_targets limit plan).targets
cut_targets-All P none plan a = a
cut_targets-All P (some n) plan a = take-All P n plan.targets a

module _ (stock : Stock) (products : List ShopProduct) where
  -- All the SKUs of the entry are known, and none has stock, or some has.
  abbrev pub Bare : Entry → Type 0
  Bare e = Known stock e × (any (has_stock stock) e.skus ≡ false)

  abbrev pub Selling : Entry → Type 0
  Selling e = Known stock e × (any (has_stock stock) e.skus ≡ true)

  cleanup-Bare : (mode : Mode) → All Bare (compute_cleanup_plan stock mode products).targets
  unfolding compute_cleanup_plan is_unknown some_stock
  cleanup-Bare mode =
      subst (All Bare) (sym (see_all_for_cleanup_targets stock mode products (no_cleanup products)))
        (entries-All Bare (is_target stock mode) products (λ p h. ground (arith, h)))

  publish-Selling :
      (publication_id : String) (limit : Option ℕ) (require_images : Bool)
      → All Selling
          (compute_publish_plan stock publication_id limit require_images products).targets
  unfolding compute_publish_plan is_unknown some_stock
  publish-Selling publication_id limit require_images =
      let plan =
        see_all_for_publish stock publication_id require_images products (no_publish products) in
      cut_targets-All Selling limit plan (
        subst (All Selling)
          (sym (
            see_all_for_publish_targets stock publication_id require_images products
              (no_publish products)))
          (entries-All Selling (is_shown stock publication_id require_images) products
            (λ p h. ground (arith, h))))

  apart : (c p : Entry) → Bare c → Selling p → c.skus ≢ p.skus
  apart c p b s e = absurd (cc)

  -- What a clean-up hides and what a publishing shows are certain, on one stock: each SKU has an
  -- answer of BIMS; of a product that is hidden none has stock, of one that is shown some has. No
  -- entry of the one has the SKUs of an entry of the other.
  pub targets_apart :
      (mode : Mode) (publication_id : String) (limit : Option ℕ) (require_images : Bool)
      → let hidden = (compute_cleanup_plan stock mode products).targets in
        let shown =
          (compute_publish_plan stock publication_id limit require_images products).targets in
        All Bare hidden × (All Selling shown × All (λ c. All (λ p. c.skus ≢ p.skus) shown) hidden)
  targets_apart mode publication_id limit require_images =
      let hidden = (compute_cleanup_plan stock mode products).targets in
      let shown =
        (compute_publish_plan stock publication_id limit require_images products).targets in
      let s = publish-Selling publication_id limit require_images in
      let b = cleanup-Bare mode in
      (
        b,
        (
          s,
          All-imp Bare (λ c. All (λ p. c.skus ≢ p.skus) shown) hidden
              (λ c h. All-imp Selling (λ p. c.skus ≢ p.skus) shown (λ p k. apart c p h k) s) b,
        ),
      )

abbrev pub ids_of : List Entry → List String
ids_of es = map (λ e. e.product_id) es

-- The shop after these products were drafted.
abbrev pub drafted : List String → List ShopProduct → List ShopProduct
drafted changed products =
    map (λ p. if mem p.id changed then record p { status = "DRAFT" } else p) products

-- When the shop does all that it is asked, a batch changes each of its products.
apply_all_done :
    (call : String → Answer (Unit {0})) (es : List Entry) (r : BatchResult)
    → ((i : String) → call i ≡ done tt)
    → ((apply_all call es r).1 ≡ none) × ((apply_all call es r).0.changed ≡ r.changed ++ ids_of es)
unfolding apply_all
apply_all_done call [] r h = (refl, sym (append-nil r.changed))
apply_all_done call (e ∷ es) r h =
    let one : BatchResult = record r {
      processed = r.processed + 1;
      changed = r.changed ++ e.product_id ∷ [];
    } in
    let ih = apply_all_done call es one h in
    rw (h e.product_id, apply_all, apply_one)
      (ih.0, ih.1 ∙ append_assoc r.changed (e.product_id ∷ []) (ids_of es))

listed :
    (test : ShopProduct → Bool) (ws : List String) (ps : List ShopProduct)
    → ((i : String) → mem i (ids_of (entries test ps)) ≡ true → mem i ws ≡ true)
    → All (λ p. test p ≡ true → mem p.id ws ≡ true) ps
listed test ws [] h = tt
listed test ws (p ∷ ps) h = elim (Bool-cases (test p)) [
  | inl e ↦ (
    λ _. h p.id (rw e (ground (arith, eq_iff p.id p.id))),
    listed test ws ps (λ i m. h i (rw e (ground (arith, m)))),
  )
  | inr e ↦ ((λ k. absurd (cc)), listed test ws ps (λ i m. h i (rw e m)))
]

draft_done :
    (stock : Stock) (p : ShopProduct)
    → is_target stock draft (record p { status = "DRAFT" }) ≡ false
draft_done stock p = ground (arith)

nothing_left :
    (stock : Stock) (changed : List String) (ps : List ShopProduct)
    → All (λ p. is_target stock draft p ≡ true → mem p.id changed ≡ true) ps
    → entries (is_target stock draft) (drafted changed ps) ≡ []
nothing_left stock changed [] a = refl
nothing_left stock changed (p ∷ ps) a = elim (Bool-cases (mem p.id changed)) [
  | inl e ↦ rw e (rw (draft_done stock p) (nothing_left stock changed ps a.1))
  | inr e ↦ elim (Bool-cases (is_target stock draft p)) [
    | inl k ↦ let m = a.0 k in absurd (cc)
    | inr k ↦ rw (e, k) (nothing_left stock changed ps a.1)
  ]
]

-- When the shop drafts all that a clean-up asks for, the run ends without an error, and the same
-- clean-up with the same stock on the shop that it leaves has no target.
pub cleanup_settles :
    (stock : Stock) (products : List ShopProduct) (change : Mode → String → Answer (Unit {0}))
    → ((i : String) → change draft i ≡ done tt)
    → let r = apply_cleanup change draft (compute_cleanup_plan stock draft products).targets in
      (r.1 ≡ none)
      × ((compute_cleanup_plan stock draft (drafted r.0.changed products)).targets ≡ [])
unfolding apply_cleanup compute_cleanup_plan
cleanup_settles stock products change h =
    let targets = (compute_cleanup_plan stock draft products).targets in
    let all = apply_all_done (change draft) targets no_change h in
    let same = see_all_for_cleanup_targets stock draft products (no_cleanup products) in
    let changed = (apply_all (change draft) targets no_change).0.changed in
    let left = drafted changed products in
    (
      all.0,
      see_all_for_cleanup_targets stock draft left (no_cleanup left)
          ∙ nothing_left stock changed products
              (listed (is_target stock draft) changed products (λ i m. rw all.1 (rw same m))),
    )
