-- ===== src/Stock/Discrepancies.antt =====
-- When a discrepancy is reported, and what the summary of them counts.
use bims_shopify.Base.{
  ℕ, ◌+◌, ◌<◌, min, String, ◌≡◌, refl, ◌↔◌, Option, none, some, List, [], ◌∷◌, arith, if◌then◌else◌,
  ℤ, ◌-ℤ◌, abs, lookup, insert, lookup-insert, length, length-take, eq_iff, str_eq,
}
use bims_shopify.Stock.{
  StockConsolidation, StockFigureRule, ByWarehouse, DiscrepancyKind, StockDiscrepancy, sum_values,
  find_discrepancy, decide_sellable_stock, kind_value, get_count, count_kinds,
  summarize_stock_discrepancies,
}

-- The net of the warehouses is further than one unit from the reported total.
abbrev pub Disagrees : ByWarehouse → Option ℤ → Type 0
Disagrees ws none = ⊥
Disagrees ws (some total) = 1 < abs (sum_values ws -ℤ total)

-- A discrepancy is reported exactly when the total is known and differs from the plain net of the
-- warehouses by more than the tolerance, whatever the rule and the consolidation.
pub decide_discrepancy_iff :
    (ws : ByWarehouse) (total : Option ℤ) (rule : StockFigureRule) (mode : StockConsolidation)
    (sku : String)
    → ((decide_sellable_stock ws total rule mode sku).discrepancy ≡ none) ↔ (¬ (Disagrees ws total))
unfolding decide_sellable_stock find_discrepancy
decide_discrepancy_iff ws none rule mode sku = ((λ _ h. h), (λ _. refl))
decide_discrepancy_iff ws (some t) rule mode sku = ((λ e h. ground arith), (λ h. ground arith))

-- How many of the discrepancies are of a kind.
abbrev pub count_of : DiscrepancyKind → List StockDiscrepancy → ℕ
count_of k [] = 0
count_of k (d ∷ ds) =
    if str_eq (kind_value d.kind) (kind_value k) then count_of k ds + 1 else count_of k ds

count_kinds_lem :
    (k : DiscrepancyKind) (by_kind : List (String × ℕ)) (ds : List StockDiscrepancy)
    → get_count (kind_value k) (count_kinds by_kind ds)
      ≡ get_count (kind_value k) by_kind + count_of k ds
unfolding count_kinds
count_kinds_lem k by_kind [] = omega arith
count_kinds_lem k by_kind (d ∷ ds) =
    let j = kind_value d.kind in
    let acc = insert j (get_count j by_kind + 1) by_kind in
    ground (
      arith,
      count_kinds_lem k acc ds,
      lookup-insert j (kind_value k) (get_count j by_kind + 1) by_kind,
      eq_iff j (kind_value k),
    )

one_kind :
    (k : DiscrepancyKind) (b a : ℕ)
    → (if str_eq (kind_value k) "detail_below_total" then b + 1 else b)
        + (if str_eq (kind_value k) "detail_above_total" then a + 1 else a)
      ≡ b + a + 1
one_kind DiscrepancyKind.detail_below_total b a = omega arith
one_kind DiscrepancyKind.detail_above_total b a = omega arith

kinds_partition :
    (ds : List StockDiscrepancy)
    → count_of DiscrepancyKind.detail_below_total ds
        + count_of DiscrepancyKind.detail_above_total ds
      ≡ length ds
kinds_partition [] = refl
kinds_partition (d ∷ ds) = omega (
  arith,
  kinds_partition ds,
  one_kind d.kind (count_of DiscrepancyKind.detail_below_total ds)
      (count_of DiscrepancyKind.detail_above_total ds),
)

-- The summary counts every discrepancy once, under its kind, and quotes at most the sample size.
pub summarize_counts :
    (ds : List StockDiscrepancy) (n : ℕ)
    → let s = summarize_stock_discrepancies ds n in
      (s.count ≡ length ds)
      × (get_count "detail_below_total" s.by_kind + get_count "detail_above_total" s.by_kind
          ≡ s.count)
      × (length s.sample ≡ min n s.count)
unfolding summarize_stock_discrepancies
summarize_counts ds n = (
  refl,
  unfold lookup in
      omega (
        arith,
        kinds_partition ds,
        count_kinds_lem DiscrepancyKind.detail_below_total [] ds,
        count_kinds_lem DiscrepancyKind.detail_above_total [] ds,
      ),
  length-take n ds,
)
