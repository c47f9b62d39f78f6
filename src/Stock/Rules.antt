-- ===== src/Stock/Rules.antt =====
-- The tenant's choice of a rule.
use bims_shopify.Base.{
  String, ◌≡◌, refl, ap, Bool-cases, ◌⊎◌, inl, inr, ◌↔◌, some, arith, if◌then◌else◌, str_eq, eq_iff,
}
use bims_shopify.Values.{Value, null, string, bool, int, float, Object, get_or}
use bims_shopify.Stock.{StockFigureRule, rule_of_value, rule_of_setting, resolve_stock_figure_rule}

-- The value that names a rule.
abbrev pub rule_value : StockFigureRule → String
rule_value StockFigureRule.detail_or_total = "detail_or_total"
rule_value StockFigureRule.detail_only = "detail_only"
rule_value StockFigureRule.total_only = "total_only"

rule_of_value-rule_value : (r : StockFigureRule) → rule_of_value (rule_value r) ≡ some r
unfolding rule_of_value
rule_of_value-rule_value StockFigureRule.detail_or_total = refl
rule_of_value-rule_value StockFigureRule.detail_only = refl
rule_of_value-rule_value StockFigureRule.total_only = refl

rule_of_value_sound :
    (raw : String) (r : StockFigureRule) → rule_of_value raw ≡ some r → raw ≡ rule_value r
unfolding rule_of_value
rule_of_value_sound raw StockFigureRule.detail_or_total h =
    ground (arith, eq_iff raw "detail_or_total", eq_iff raw "detail_only", eq_iff raw "total_only")
rule_of_value_sound raw _ h =
    ground (arith, eq_iff raw "detail_or_total", eq_iff raw "detail_only", eq_iff raw "total_only")

-- The stored setting asks for the default: it is absent, null or empty.
abbrev pub IsUnset : Value → Type 0
IsUnset null = Unit
IsUnset (string s) = s ≡ ""
IsUnset _ = ⊥

selected :
    (s : String) (r : StockFigureRule)
    → s ≡ rule_value r
    → (if str_eq s "" then some StockFigureRule.detail_or_total else rule_of_value s) ≡ some r
selected s StockFigureRule.detail_or_total h = rw h (unfold rule_of_value in refl)
selected s StockFigureRule.detail_only h = rw h (unfold rule_of_value in refl)
selected s StockFigureRule.total_only h = rw h (unfold rule_of_value in refl)

string_setting :
    (s : String) (r : StockFigureRule)
    → (if str_eq s "" then some StockFigureRule.detail_or_total else rule_of_value s) ≡ some r
    → (string s ≡ string (rule_value r)) ⊎ ((s ≡ "") × (r ≡ StockFigureRule.detail_or_total))
string_setting s r h = elim (Bool-cases (str_eq s "")) [
  | inl e ↦ inr ((eq_iff s "").0 e, ground arith)
  | inr e ↦ inl (ap string (rule_of_value_sound s r (rw e at h)))
]

rule_of_setting_iff :
    (v : Value) (r : StockFigureRule)
    → (rule_of_setting v ≡ some r)
      ↔ ((v ≡ string (rule_value r)) ⊎ (IsUnset v × (r ≡ StockFigureRule.detail_or_total)))
unfolding rule_of_setting
rule_of_setting_iff null r = ((λ h. inr (tt, cc)), (λ h. ground arith))
rule_of_setting_iff (string s) r =
    (string_setting s r, elim [ inl h ↦ selected s r (cc) | inr h ↦ rw h.0 (rw h.1) ])
rule_of_setting_iff (bool b) r = ((λ h. cc), (λ h. ground arith))
rule_of_setting_iff (int n) r = ((λ h. cc), (λ h. ground arith))
rule_of_setting_iff (float q) r = ((λ h. cc), (λ h. ground arith))

-- A setting selects a rule exactly when it is the rule's own value, or it is unset and the rule is
-- the default: no other setting selects any rule.
pub resolve_rule_iff :
    (m : Object) (r : StockFigureRule)
    → (resolve_stock_figure_rule m ≡ some r) ↔ (
        (get_or "stock_figure_rule" null m ≡ string (rule_value r))
        ⊎ (IsUnset (get_or "stock_figure_rule" null m) × (r ≡ StockFigureRule.detail_or_total)))
unfolding resolve_stock_figure_rule
resolve_rule_iff m r = rule_of_setting_iff (get_or "stock_figure_rule" null m) r
