-- ===== src/Stock/Figure.antt =====
-- The figure that is pushed: bounds of the consolidated stock, and what each rule guarantees.
use bims_shopify.Base.{
  String, ◌≡◌, refl, ◌⊎◌, inl, inr, Option, none, some, [], ◌∷◌, arith, ℤ, pos, ◌≤ℤ◌, Exists,
  +ℤ_parts, ◌↔◌,
}
use bims_shopify.Stock.{
  StockConsolidation, StockFigureRule, ByWarehouse, sum_values, sum_positive,
  consolidate_sellable_stock, detail_figure, total_figure, larger_known, quantity_by_rule,
  decide_sellable_stock,
}

positive_nonneg : (ws : ByWarehouse) → pos 0 ≤ℤ sum_positive ws
unfolding sum_positive
positive_nonneg [] = omega arith
positive_nonneg ((i, q) ∷ ws) = ground (arith, positive_nonneg ws, +ℤ_parts q (sum_positive ws))

sum-le-positive : (ws : ByWarehouse) → sum_values ws ≤ℤ sum_positive ws
unfolding sum_positive sum_values
sum-le-positive [] = omega arith
sum-le-positive ((i, q) ∷ ws) =
    ground (arith, sum-le-positive ws, +ℤ_parts q (sum_positive ws), +ℤ_parts q (sum_values ws))

-- The net total is never above the sum of the positive warehouses; both are at least 0 and at
-- least the plain sum of the warehouses.
pub consolidate_order :
    (ws : ByWarehouse)
    → (pos 0 ≤ℤ consolidate_sellable_stock ws StockConsolidation.net_total)
      × (sum_values ws ≤ℤ consolidate_sellable_stock ws StockConsolidation.net_total)
      × (consolidate_sellable_stock ws StockConsolidation.net_total
          ≤ℤ consolidate_sellable_stock ws StockConsolidation.positive_only)
unfolding consolidate_sellable_stock
consolidate_order [] = unfold sum_values in (omega arith, omega arith, omega arith)
consolidate_order (w ∷ ws) = ground (arith, positive_nonneg (w ∷ ws), sum-le-positive (w ∷ ws))

warehouse-le-positive :
    (q : ℤ) (ws : ByWarehouse) → Exists (λ w. q ≤ℤ w.1) ws → pos 0 ≤ℤ q → q ≤ℤ sum_positive ws
unfolding sum_positive
warehouse-le-positive q [] h p = absurd h
warehouse-le-positive q ((i, v) ∷ ws) (inl h) p =
    ground (arith, positive_nonneg ws, +ℤ_parts v (sum_positive ws))
warehouse-le-positive q ((i, v) ∷ ws) (inr h) p =
    ground (arith, warehouse-le-positive q ws h p, +ℤ_parts v (sum_positive ws))

-- No warehouse can hide what another holds: the default figure is at least the quantity of each.
pub warehouse-le-consolidate :
    (q : ℤ) (ws : ByWarehouse)
    → Exists (λ w. q ≤ℤ w.1) ws
    → pos 0 ≤ℤ q
    → q ≤ℤ consolidate_sellable_stock ws StockConsolidation.positive_only
unfolding consolidate_sellable_stock
warehouse-le-consolidate q [] h p = absurd h
warehouse-le-consolidate q (w ∷ ws) h p = warehouse-le-positive q (w ∷ ws) h p

abbrev pub Above : ℤ → Option ℤ → Type 0
Above q none = ⊥
Above q (some m) = q ≤ℤ m

larger_known-Above :
    (q : ℤ) (detail total : Option ℤ)
    → Above q detail ⊎ Above q total
    → Above q (larger_known detail total)
unfolding larger_known
larger_known-Above q none total (inl h) = absurd h
larger_known-Above q none total (inr h) = h
larger_known-Above q (some d) none (inl h) = h
larger_known-Above q (some d) none (inr h) = absurd h
larger_known-Above q (some d) (some t) h = ground arith

detail-Above :
    (q : ℤ) (ws : ByWarehouse)
    → Exists (λ w. q ≤ℤ w.1) ws
    → pos 0 ≤ℤ q
    → Above q (detail_figure ws StockConsolidation.positive_only)
unfolding detail_figure
detail-Above q [] h p = absurd h
detail-Above q (w ∷ ws) h p = warehouse-le-consolidate q (w ∷ ws) h p

total-Above : (q : ℤ) (total : Option ℤ) → Above q total → Above q (total_figure total)
unfolding total_figure
total-Above q none h = h
total-Above q (some t) h = ground arith

-- Under the default rule and consolidation a quantity that a warehouse holds, or that the
-- unfiltered total reports, is covered by the pushed quantity: neither source can zero the SKU.
pub decide-Above :
    (q : ℤ) (ws : ByWarehouse) (total : Option ℤ) (sku : String)
    → pos 0 ≤ℤ q
    → Exists (λ w. q ≤ℤ w.1) ws ⊎ Above q total
    → Above q
        (decide_sellable_stock ws total StockFigureRule.detail_or_total
          StockConsolidation.positive_only sku).quantity
unfolding decide_sellable_stock quantity_by_rule
decide-Above q ws total sku p (inl h) =
    larger_known-Above q (detail_figure ws StockConsolidation.positive_only) (total_figure total)
      (inl (detail-Above q ws h p))
decide-Above q ws total sku p (inr h) =
    larger_known-Above q (detail_figure ws StockConsolidation.positive_only) (total_figure total)
      (inr (total-Above q total h))

-- The evidence that a rule reads is missing.
abbrev pub Unknown : StockFigureRule → ByWarehouse → Option ℤ → Type 0
Unknown StockFigureRule.detail_only ws total = ws ≡ []
Unknown StockFigureRule.total_only ws total = total ≡ none
Unknown StockFigureRule.detail_or_total ws total = (ws ≡ []) × (total ≡ none)

-- No quantity is decided exactly when the figures that the rule reads are missing; unknown stock
-- is never decided as a number, and known stock never as unknown.
pub decide-Unknown_iff :
    (rule : StockFigureRule) (ws : ByWarehouse) (total : Option ℤ) (mode : StockConsolidation)
    (sku : String)
    → ((decide_sellable_stock ws total rule mode sku).quantity ≡ none) ↔ Unknown rule ws total
unfolding decide_sellable_stock quantity_by_rule larger_known detail_figure total_figure
decide-Unknown_iff StockFigureRule.detail_only [] total mode sku = ((λ _. refl), (λ _. refl))
decide-Unknown_iff StockFigureRule.detail_only (w ∷ ws) total mode sku =
    ((λ h. ground arith), (λ h. ground arith))
decide-Unknown_iff StockFigureRule.total_only ws none mode sku = ((λ _. refl), (λ _. refl))
decide-Unknown_iff StockFigureRule.total_only ws (some t) mode sku =
    ((λ h. ground arith), (λ h. ground arith))
decide-Unknown_iff StockFigureRule.detail_or_total [] none mode sku =
    ((λ _. (refl, refl)), (λ _. refl))
decide-Unknown_iff StockFigureRule.detail_or_total [] (some t) mode sku =
    ((λ h. ground arith), (λ h. ground arith))
decide-Unknown_iff StockFigureRule.detail_or_total (w ∷ ws) none mode sku =
    ((λ h. ground arith), (λ h. ground arith))
decide-Unknown_iff StockFigureRule.detail_or_total (w ∷ ws) (some t) mode sku =
    ((λ h. ground arith), (λ h. ground arith))
