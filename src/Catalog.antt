-- ===== src/Catalog.antt =====
-- src/bims_shopify/ops/catalog.py: from the rows of BIMS to the products of the store. Here the
-- gates on a row, the reading of its name and the grouping of rows into products; the children
-- have the import, the clean-ups and the publishing. A raw row's name is a text or missing.
pub mod Counting
pub mod Filtering
pub mod Grouping
pub mod Accepted
pub mod Import
pub mod Additions
pub mod Written
pub mod Dedupe
pub mod Sold
pub mod Claimed
pub mod Stocked
pub mod Settling
pub mod Targets
use Prim.Native.Char.{Char, code}
use Prim.Native.String.{◌++◌ as append_text}
use bims_shopify.Base.{
  ℕ, zero, suc, ◌+◌, ◌-◌, ◌*◌, ◌/◌, ◌%◌, String, Bool, true, false, not, ◌&&◌, Option, none, some,
  List, [], ◌∷◌, ◌++◌, length, any, map, ltb, leb, ◌==◌, if◌then◌else◌, str_eq, ℤ, pos, negsuc,
  ◌==ℤ◌, lookup, Result, ok, err, chunks,
}
use bims_shopify.Values.{Value, null, bool, int, float, string, is_truthy}
use bims_shopify.Values
use bims_shopify.Titles.{Texts, split_size_suffix, normalize_base_title}
use bims_shopify.Snapshot.{CatalogRow}
use bims_shopify.Inventory.{float_of}

-- The keys of a raw row that the import reads; `none` is a missing key where the default counts.
pub record RawRow : Type 0 where
  pub id : Value
  pub name : Option String
  pub code2 : Value
  pub sell_price : Value
  pub enabled : Option Value
  pub exclude_ecommerce : Option Value
  pub main_product_id : Value
  pub ptype_id : Value

pub record BimsRow : Type 0 where
  pub bims_id : String
  pub name : String
  pub code2 : String
  pub sell_price : ℤ
  pub main_product_id : Value
  pub ptype_id : Value

pub record VariantRow : Type 0 where
  pub sku : String
  pub price : ℤ
  pub size : Option String
  pub bims_id : String

pub record ProductGroup : Type 0 where
  pub title : String
  pub variants : List VariantRow

pub record SplitProduct : Type 0 where
  pub title : String
  pub total_variants : ℕ
  pub parts : ℕ

pub record ShadowedSize : Type 0 where
  pub title : String
  pub size : String
  pub kept_sku : String
  pub shadowed_skus : List String

-- What the grouping fills; `duplicate_code2` and `filtered_out` keep their defaults there.
pub record GroupingReport : Type 0 where
  pub groups : List ProductGroup
  pub split_products : List SplitProduct
  pub shadowed_size_duplicates : List ShadowedSize

pub data GateFailure : Type 0 where
  disabled excluded_from_ecommerce missing_code2 : GateFailure

-- The fields of an entry on a repeated `code2`.
pub record DuplicateCode : Type 0 where
  pub code2 : String
  pub bims_id : String
  pub name : String

pub record Filtered : Type 0 where
  pub rows : List BimsRow
  pub duplicates : List DuplicateCode

-- `bool(value)` in Python
unfoldable pub truth : Value → Bool
truth null = false
truth (bool b) = b
truth (int n) = not (n ==ℤ pos 0)
truth (float q) = not (q ==ℤ pos 0)
truth (string s) = not (str_eq s "")

-- `value or other`
abbrev pub or_else : Value → Value → Value
or_else v other = if truth v then v else other

abbrev pub or_empty : Option String → String
or_empty none = ""
or_empty (some s) = s

abbrev pub get_value : Option Value → Value → Value
get_value none d = d
get_value (some v) d = v

unfoldable pub bims_gate_failure : RawRow → Option GateFailure
unfolding Values.is_truthy truth
bims_gate_failure raw =
    if not (is_truthy (get_value raw.enabled (bool true)))
    then some disabled
    else if is_truthy (get_value raw.exclude_ecommerce (bool false))
    then some excluded_from_ecommerce
    else if not (truth raw.code2)
    then some missing_code2
    else none

abbrev pub seen_code : String → List BimsRow → Bool
seen_code c rows = any (λ r. str_eq r.code2 c) rows

-- A row that passed the gates.
unfoldable pub see_row : BimsRow → Filtered → Filtered
see_row row f =
    if seen_code row.code2 f.rows
    then record f {
      duplicates =
          f.duplicates ++ record { code2 = row.code2; bims_id = row.bims_id; name = row.name } ∷ [];
    }
    else record f { rows = f.rows ++ row ∷ [] }

-- `_option_value_for`
unfoldable pub option_value_for : VariantRow → String
option_value_for v = elim v.size [
  | none ↦ "Default"
  | some s ↦ if str_eq s "" then "Default" else s
]

-- The dicts of `_dedupe_variants_by_option_value`: `kept_by_value` is `kept` by its option values.
pub record Sizes : Type 0 where
  pub kept : List VariantRow
  pub shadowed_by_value : List (String × List String)

-- `d.setdefault(k, []).append(x)`
unfoldable pub push_at : String → String → List (String × List String) → List (String × List String)
push_at k x [] = (k, x ∷ []) ∷ []
push_at k x ((j, xs) ∷ d) = if str_eq j k then (j, xs ++ x ∷ []) ∷ d else (j, xs) ∷ push_at k x d

abbrev pub has_value : String → List VariantRow → Bool
has_value value kept = any (λ k. str_eq (option_value_for k) value) kept

unfoldable pub keep_variant : VariantRow → Sizes → Sizes
unfolding option_value_for push_at
keep_variant v s =
    let value = option_value_for v in
    if has_value value s.kept
    then record s { shadowed_by_value = push_at value v.sku s.shadowed_by_value }
    else record s { kept = s.kept ++ v ∷ [] }

unfoldable pub keep_variants : List VariantRow → Sizes → Sizes
unfolding keep_variant
keep_variants [] s = s
keep_variants (v ∷ vs) s = keep_variants vs (keep_variant v s)

-- `kept_by_value[value].sku`
abbrev pub kept_sku : String → List VariantRow → String
kept_sku value [] = ""
kept_sku value (v ∷ vs) = if str_eq (option_value_for v) value then v.sku else kept_sku value vs

abbrev pub shadowed_entries :
    String → List VariantRow → List (String × List String) → List ShadowedSize
shadowed_entries title kept [] = []
shadowed_entries title kept ((value, skus) ∷ d) =
    record { title = title; size = value; kept_sku = kept_sku value kept; shadowed_skus = skus }
    ∷ shadowed_entries title kept d

-- `_dedupe_variants_by_option_value`
unfoldable pub dedupe_variants : String → List VariantRow → List VariantRow × List ShadowedSize
unfolding keep_variants option_value_for
dedupe_variants title variants =
    let s = keep_variants variants (record { kept = []; shadowed_by_value = [] }) in
    (s.kept, shadowed_entries title s.kept s.shadowed_by_value)

abbrev pub max_variants_per_product : ℕ
max_variants_per_product = 100

-- `round(x)` of a float: to the nearest integer, a tie to the even one.
abbrev pub round_ℕ : ℕ → ℕ
round_ℕ n =
    let q = n / 1000000000 in
    let r = n % 1000000000 in
    if ltb (2 * r) 1000000000
    then q
    else if ltb 1000000000 (2 * r)
    then q + 1
    else if q % 2 == 0
    then q
    else q + 1

unfoldable pub round : ℤ → ℤ
round (pos n) = pos (round_ℕ n)
round (negsuc n) = let m = round_ℕ (n + 1) in if m == 0 then pos 0 else negsuc (m - 1)

-- One value of `by_base`, with its title: a key of the dict keeps the place of its first row.
pub record Family : Type 0 where
  pub title : String
  pub variants : List VariantRow

unfoldable pub add_to_family :
    String → String → VariantRow → List (String × Family) → List (String × Family)
add_to_family key title v [] = (key, record { title = title; variants = v ∷ [] }) ∷ []
add_to_family key title v ((j, f) ∷ d) =
    if str_eq j key
    then (j, record f { variants = f.variants ++ v ∷ [] }) ∷ d
    else (j, f) ∷ add_to_family key title v d

module _ (texts : Texts) where
  unfoldable pub to_row : RawRow → Result String BimsRow
  unfolding truth float_of
  to_row raw =
      elim (float_of texts.parse_float texts.parse_float (or_else raw.sell_price (int (pos 0)))) [
        | err e ↦ err e
        | ok price ↦ ok (record {
          bims_id = texts.str raw.id;
          name = or_empty raw.name;
          code2 = texts.str raw.code2;
          sell_price = price;
          main_product_id = raw.main_product_id;
          ptype_id = raw.ptype_id;
        })
      ]

  unfoldable pub filter_from : List RawRow → Filtered → Result String Filtered
  unfolding bims_gate_failure to_row see_row
  filter_from [] f = ok f
  filter_from (raw ∷ raws) f = elim (bims_gate_failure raw) [
    | some _ ↦ filter_from raws f
    | none ↦ elim (to_row raw) [ err e ↦ err e | ok row ↦ filter_from raws (see_row row f) ]
  ]

  unfoldable pub filter_and_dedupe_rows : List RawRow → Result String Filtered
  unfolding filter_from
  filter_and_dedupe_rows raws = filter_from raws (record { rows = []; duplicates = [] })

  -- The key and the title of the family of a row, and its variant.
  unfoldable pub family_key : BimsRow → String
  unfolding split_size_suffix normalize_base_title
  family_key row =
      let key = normalize_base_title texts (split_size_suffix texts row.name).0 in
      if str_eq key "" then normalize_base_title texts row.name else key

  unfoldable pub family_title : BimsRow → String
  unfolding split_size_suffix
  family_title row =
      let base_title = (split_size_suffix texts row.name).0 in
      if str_eq base_title "" then row.name else base_title

  unfoldable pub variant_of : BimsRow → VariantRow
  unfolding split_size_suffix round
  variant_of row = record {
    sku = row.code2;
    price = round row.sell_price;
    size = (split_size_suffix texts row.name).1;
    bims_id = row.bims_id;
  }

  -- The first loop of `group_rows`.
  unfoldable pub families : List BimsRow → List (String × Family) → List (String × Family)
  unfolding family_key family_title variant_of add_to_family
  families [] d = d
  families (row ∷ rows) d =
      families rows (add_to_family (family_key row) (family_title row) (variant_of row) d)

  -- `f"{title} #{index}"`
  abbrev number_chunks : String → ℕ → List (List VariantRow) → List ProductGroup
  number_chunks title index [] = []
  number_chunks title index (c ∷ cs) =
      record { title = append_text title (append_text " #" (texts.number index)); variants = c }
      ∷ number_chunks title (index + 1) cs

  -- One round of the second loop.
  unfoldable pub add_group : Family → GroupingReport → GroupingReport
  unfolding dedupe_variants
  add_group f report =
      let d = dedupe_variants f.title f.variants in
      let shadowed = report.shadowed_size_duplicates ++ d.1 in
      let cut = chunks max_variants_per_product d.0 in
      if leb (length d.0) max_variants_per_product
      then record report {
        groups = report.groups ++ record { title = f.title; variants = d.0 } ∷ [];
        shadowed_size_duplicates = shadowed;
      }
      else record report {
        groups = report.groups ++ number_chunks f.title 1 cut;
        split_products =
            report.split_products
            ++ record { title = f.title; total_variants = length d.0; parts = length cut } ∷ [];
        shadowed_size_duplicates = shadowed;
      }

  unfoldable pub add_groups : List (String × Family) → GroupingReport → GroupingReport
  unfolding add_group
  add_groups [] report = report
  add_groups ((_, f) ∷ d) report = add_groups d (add_group f report)

  unfoldable pub group_rows : List BimsRow → GroupingReport
  unfolding families add_groups
  group_rows rows =
      add_groups (families rows [])
        (record { groups = []; split_products = []; shadowed_size_duplicates = [] })

-- `catalog_row_to_raw`
unfoldable pub catalog_row_to_raw : CatalogRow → RawRow
catalog_row_to_raw row = record {
  id = string row.bims_id;
  name = some row.name;
  code2 = elim row.code2 [ none ↦ null | some c ↦ string c ];
  sell_price = float row.sell_price;
  enabled = some (bool row.enabled);
  exclude_ecommerce = some (bool row.exclude_ecommerce);
  main_product_id = null;
  ptype_id = null;
}

-- `has_stock`: a SKU that is missing from the stock has none.
unfoldable pub has_stock : List (String × ℤ) → String → Bool
has_stock stock sku = elim (lookup sku stock) [
  | none ↦ false
  | some (pos n) ↦ ltb 0 n
  | some (negsuc n) ↦ false
]
