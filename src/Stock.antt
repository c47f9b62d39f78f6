-- ===== src/Stock.antt =====
-- src/bims_shopify/domain/stock_consolidation.py: how the quantities of the warehouses become the
-- one figure that is published. A quantity is an integer number of units of 10⁻⁹ (`_EPSILON` is one
-- such unit), so sums are exact; rounding of floats is not modelled. The proofs stand below.
pub mod Figure
pub mod Discrepancies
pub mod Rules
use bims_shopify.Base.{
  ℕ, ◌+◌, String, Bool, true, false, Option, none, some, List, [], ◌∷◌, ltb, if◌then◌else◌, str_eq,
  length, take, ℤ, pos, ◌+ℤ◌, ◌-ℤ◌, ltb_ℤ, max_ℤ, abs, lookup, insert, is_none,
}
use bims_shopify.Values.{Value, null, string, Object, get_or}

pub data StockConsolidation : Type 0 where
  positive_only net_total : StockConsolidation

pub data StockFigureRule : Type 0 where
  detail_or_total detail_only total_only : StockFigureRule

-- `dict[int, float]`: warehouse ids are only compared, and the order is that of insertion.
abbrev pub ByWarehouse : Type 0
ByWarehouse = List (ℕ × ℤ)

-- `sum(by_warehouse.values())`
unfoldable pub sum_values : ByWarehouse → ℤ
sum_values [] = pos 0
sum_values ((_, q) ∷ rest) = q +ℤ sum_values rest

-- `sum(quantity for quantity in by_warehouse.values() if quantity > 0)`
unfoldable pub sum_positive : ByWarehouse → ℤ
sum_positive [] = pos 0
sum_positive ((_, q) ∷ rest) = if ltb_ℤ (pos 0) q then q +ℤ sum_positive rest else sum_positive rest

unfoldable pub consolidate_sellable_stock : ByWarehouse → StockConsolidation → ℤ
consolidate_sellable_stock [] mode = pos 0
consolidate_sellable_stock (w ∷ ws) StockConsolidation.net_total =
    max_ℤ (pos 0) (sum_values (w ∷ ws))
consolidate_sellable_stock (w ∷ ws) StockConsolidation.positive_only = sum_positive (w ∷ ws)

-- `StockFigureRule(raw)`; `none` is the ValueError.
unfoldable pub rule_of_value : String → Option StockFigureRule
rule_of_value raw =
    if str_eq raw "detail_or_total"
    then some StockFigureRule.detail_or_total
    else if str_eq raw "detail_only"
    then some StockFigureRule.detail_only
    else if str_eq raw "total_only"
    then some StockFigureRule.total_only
    else none

-- `none` is the ValueError: a value of another type is no member of the enum either.
unfoldable pub rule_of_setting : Value → Option StockFigureRule
unfolding rule_of_value
rule_of_setting null = some StockFigureRule.detail_or_total
rule_of_setting (string raw) =
    if str_eq raw "" then some StockFigureRule.detail_or_total else rule_of_value raw
rule_of_setting _ = none

unfoldable pub resolve_stock_figure_rule : Object → Option StockFigureRule
unfolding rule_of_setting
resolve_stock_figure_rule field_mappings =
    rule_of_setting (get_or "stock_figure_rule" null field_mappings)

-- The strings of DISCREPANCY_DETAIL_BELOW_TOTAL and DISCREPANCY_DETAIL_ABOVE_TOTAL.
pub data DiscrepancyKind : Type 0 where
  detail_below_total detail_above_total : DiscrepancyKind

pub record StockDiscrepancy : Type 0 where
  pub sku : String
  pub kind : DiscrepancyKind
  pub detail_net : ℤ
  pub unfiltered_total : ℤ
  pub pushed : Option ℤ
  pub by_warehouse : ByWarehouse

pub record StockDecision : Type 0 where
  pub quantity : Option ℤ
  pub discrepancy : Option StockDiscrepancy

-- `consolidate_sellable_stock(...) if by_warehouse else None`
unfoldable pub detail_figure : ByWarehouse → StockConsolidation → Option ℤ
detail_figure [] consolidation = none
detail_figure (w ∷ ws) consolidation = some (consolidate_sellable_stock (w ∷ ws) consolidation)

unfoldable pub total_figure : Option ℤ → Option ℤ
total_figure none = none
total_figure (some t) = some (max_ℤ (pos 0) t)

-- `max(known) if known else None`
unfoldable pub larger_known : Option ℤ → Option ℤ → Option ℤ
larger_known none total = total
larger_known (some d) none = some d
larger_known (some d) (some t) = some (max_ℤ d t)

unfoldable pub quantity_by_rule : StockFigureRule → Option ℤ → Option ℤ → Option ℤ
quantity_by_rule StockFigureRule.detail_only detail total = detail
quantity_by_rule StockFigureRule.total_only detail total = total
quantity_by_rule StockFigureRule.detail_or_total detail total = larger_known detail total

unfoldable pub find_discrepancy :
    String → ByWarehouse → Option ℤ → Option ℤ → Option StockDiscrepancy
find_discrepancy sku by_warehouse none quantity = none
find_discrepancy sku by_warehouse (some total) quantity =
    let net = sum_values by_warehouse in
    if ltb 1 (abs (net -ℤ total))
    then some (record {
      sku = sku;
      kind =
          if ltb_ℤ net total
          then DiscrepancyKind.detail_below_total
          else DiscrepancyKind.detail_above_total;
      detail_net = net;
      unfiltered_total = total;
      pushed = quantity;
      by_warehouse = by_warehouse;
    })
    else none

unfoldable pub decide_sellable_stock :
    ByWarehouse → Option ℤ → StockFigureRule → StockConsolidation → String → StockDecision
decide_sellable_stock by_warehouse unfiltered_total rule consolidation sku =
    let quantity =
      quantity_by_rule rule (detail_figure by_warehouse consolidation)
        (total_figure unfiltered_total) in
    record {
      quantity = quantity;
      discrepancy = find_discrepancy sku by_warehouse unfiltered_total quantity;
    }

-- The values of the two kinds, which are the keys of `by_kind`.
abbrev pub kind_value : DiscrepancyKind → String
kind_value DiscrepancyKind.detail_below_total = "detail_below_total"
kind_value DiscrepancyKind.detail_above_total = "detail_above_total"

pub record DiscrepancySummary : Type 0 where
  pub count : ℕ
  pub by_kind : List (String × ℕ)
  pub sample : List StockDiscrepancy

-- `by_kind.get(kind, 0)`
abbrev pub get_count : String → List (String × ℕ) → ℕ
get_count k d = elim (lookup k d) [ none ↦ 0 | some n ↦ n ]

unfoldable pub count_kinds : List (String × ℕ) → List StockDiscrepancy → List (String × ℕ)
count_kinds by_kind [] = by_kind
count_kinds by_kind (d ∷ ds) =
    let k = kind_value d.kind in count_kinds (insert k (get_count k by_kind + 1) by_kind) ds

unfoldable pub summarize_stock_discrepancies : List StockDiscrepancy → ℕ → DiscrepancySummary
summarize_stock_discrepancies discrepancies sample_size = record {
  count = length discrepancies;
  by_kind = count_kinds [] discrepancies;
  sample = take sample_size discrepancies;
}
