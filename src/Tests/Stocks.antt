-- ===== src/Tests/Stocks.antt =====
-- The consolidated stock at concrete warehouses.
use bims_shopify.Base.{inr, some, List, [], ◌∷◌, pos, arith}
use bims_shopify.Stock.{
  StockConsolidation, StockFigureRule, DiscrepancyKind, StockDiscrepancy, decide_sellable_stock,
}
use bims_shopify.Stock.Figure.{Above, decide-Above}
use bims_shopify.Tests.{shelves}

decide-Above_example :
    Above
      (pos 2000000000)
      (decide_sellable_stock []
        (some (pos 3000000000))
        StockFigureRule.detail_or_total
        StockConsolidation.positive_only
        "PEN").quantity
decide-Above_example =
    decide-Above (pos 2000000000) [] (some (pos 3000000000)) "PEN" (omega arith) (inr (omega arith))

abbrev below : StockDiscrepancy
below = record {
  sku = "PEN";
  kind = DiscrepancyKind.detail_below_total;
  detail_net = pos 3000000000;
  unfiltered_total = pos 9000000000;
  pushed = some (pos 9000000000);
  by_warehouse = shelves;
}

abbrev disagreements : List StockDiscrepancy
disagreements = below ∷ record below { kind = DiscrepancyKind.detail_above_total } ∷ below ∷ []
