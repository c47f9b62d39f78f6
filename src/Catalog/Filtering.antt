-- ===== src/Catalog/Filtering.antt =====
-- src/bims_shopify/ops/catalog.py, `filter_and_dedupe_rows`: what it keeps of the rows of BIMS.
use bims_shopify.Base.{
  ℕ, suc, ◌+◌, ◌-◌, ◌≤◌, min, String, Bool, true, false, ◌&&◌, none, some, is_none, List, [], ◌∷◌,
  count, any, str_eq, eq_iff, All, if◌then◌else◌, ℤ, pos, ok, Bool-cases, ◌≡◌, refl, subst, arith,
  Option-cases, inl, inr, ◌∙◌,
}
use bims_shopify.Values.{int}
use bims_shopify.Inventory.{float_of}
use bims_shopify.Titles.{Texts}
use bims_shopify.Catalog.{
  RawRow, BimsRow, Filtered, DuplicateCode, GateFailure, bims_gate_failure, or_else, or_empty,
  to_row, see_row, filter_from, filter_and_dedupe_rows,
}
use bims_shopify.Catalog.Counting.{count-append, any→count, none→count}

-- `n` rows with this `code2` were seen: the first is kept, the others are reported.
abbrev Seen : String → ℕ → Filtered → Type 0
Seen c n f =
    (count (λ r. str_eq r.code2 c) f.rows ≡ min 1 n)
    × (count (λ d. str_eq d.code2 c) f.duplicates ≡ n - 1)

-- The rows seen so far have the `code2` of this row just when it is already kept.
module _ (c : String) (n : ℕ) (row : BimsRow) (f : Filtered) (s : Seen c n f) where
  kept_before :
      any (λ r. str_eq r.code2 row.code2) f.rows ≡ true → str_eq row.code2 c ≡ true → 1 ≤ n
  kept_before e h = omega (
    arith,
    subst (λ k. 1 ≤ count (λ r. str_eq r.code2 k) f.rows) ((eq_iff row.code2 c).0 h)
        (any→count (λ r. str_eq r.code2 row.code2) f.rows e),
    s.0,
  )

  not_before :
      any (λ r. str_eq r.code2 row.code2) f.rows ≡ false → str_eq row.code2 c ≡ true → n ≡ 0
  not_before e h = omega (
    arith,
    subst (λ k. count (λ r. str_eq r.code2 k) f.rows ≡ 0) ((eq_iff row.code2 c).0 h)
        (none→count (λ r. str_eq r.code2 row.code2) f.rows e),
    s.0,
  )

  see_row-Seen : Seen c (if str_eq row.code2 c then suc n else n) (see_row row f)
  unfolding see_row
  see_row-Seen =
      let d : DuplicateCode = record {
        code2 = row.code2;
        bims_id = row.bims_id;
        name = row.name;
      } in
      let rows = count-append (λ r. str_eq r.code2 c) f.rows (row ∷ []) in
      let dups = count-append (λ x. str_eq x.code2 c) f.duplicates (d ∷ []) in
      elim (Bool-cases (any (λ r. str_eq r.code2 row.code2) f.rows)) [
        | inl e ↦
            rw e (ground (arith, s.0, kept_before e), ground (arith, s.0, s.1, dups, kept_before e))
        | inr e ↦
            rw e (ground (arith, s.0, rows, not_before e), ground (arith, s.0, s.1, not_before e))
      ]

module _ (texts : Texts) where
  -- A raw row that passes the gates and has this `code2`.
  abbrev pub passes : String → RawRow → Bool
  passes c raw = is_none (bims_gate_failure raw) && str_eq (texts.str raw.code2) c

  -- The price of a row that passes the gates is a number.
  abbrev pub Priced : RawRow → Type 0
  Priced raw =
      bims_gate_failure raw ≡ none
      → (q : ℤ) × (float_of texts.parse_float texts.parse_float
            (or_else raw.sell_price (int (pos 0)))
          ≡ ok q)

  unfoldable row_at : RawRow → ℤ → BimsRow
  row_at raw q = record {
    bims_id = texts.str raw.id;
    name = or_empty raw.name;
    code2 = texts.str raw.code2;
    sell_price = q;
    main_product_id = raw.main_product_id;
    ptype_id = raw.ptype_id;
  }

  filter_from-pass :
      (raw : RawRow) (raws : List RawRow) (f : Filtered) (q : ℤ)
      → bims_gate_failure raw ≡ none
      → float_of texts.parse_float texts.parse_float (or_else raw.sell_price (int (pos 0))) ≡ ok q
      → filter_from texts (raw ∷ raws) f ≡ filter_from texts raws (see_row (row_at raw q) f)
  unfolding filter_from to_row row_at
  filter_from-pass raw raws f q e h = cc

  counted :
      (c : String) (raw : RawRow) (raws : List RawRow) (n : ℕ)
      → bims_gate_failure raw ≡ none
      → (if str_eq (texts.str raw.code2) c then suc n else n) + count (passes c) raws
        ≡ n + count (passes c) (raw ∷ raws)
  counted c raw raws n e = rw e (ground arith)

  filter_from-skip :
      (raw : RawRow) (raws : List RawRow) (f : Filtered) (x : GateFailure)
      → bims_gate_failure raw ≡ some x
      → filter_from texts (raw ∷ raws) f ≡ filter_from texts raws f
  unfolding filter_from
  filter_from-skip raw raws f x e = cc

  skipped :
      (c : String) (raw : RawRow) (raws : List RawRow) (n : ℕ) (x : GateFailure)
      → bims_gate_failure raw ≡ some x
      → n + count (passes c) raws ≡ n + count (passes c) (raw ∷ raws)
  skipped c raw raws n x e = rw e (ground arith)

  filter_from-Seen :
      (raws : List RawRow) (f : Filtered)
      → All Priced raws
      → (g : Filtered) × (filter_from texts raws f ≡ ok g)
        × ((c : String) (n : ℕ) → Seen c n f → Seen c (n + count (passes c) raws) g)
  unfolding filter_from row_at
  filter_from-Seen [] f a = (f, refl, λ c n s. (omega (arith, s.0), omega (arith, s.1)))
  filter_from-Seen (raw ∷ raws) f a = elim (Option-cases (bims_gate_failure raw)) [
    | inr (x, e) ↦
        let (g, k, s) = filter_from-Seen raws f a.1 in
        (
          g,
          filter_from-skip raw raws f x e ∙ k,
          λ c n t. subst (λ m. Seen c m g) (skipped c raw raws n x e) (s c n t),
        )
    | inl e ↦
        let (q, h) = a.0 e in
        let row = row_at raw q in
        let (g, k, s) = filter_from-Seen raws (see_row row f) a.1 in
        (
          g,
          filter_from-pass raw raws f q e h ∙ k,
          λ c n t.
              subst (λ m. Seen c m g) (counted c raw raws n e)
                (s c (if str_eq row.code2 c then suc n else n) (see_row-Seen c n row f t)),
        )
  ]

  -- When the prices of the rows that pass the gates are numbers, the filter answers; of the rows
  -- that pass with one `code2` it keeps one, if there is any, and reports each of the others.
  pub filter_rows_once :
      (raws : List RawRow)
      → All Priced raws
      → (g : Filtered) × (filter_and_dedupe_rows texts raws ≡ ok g)
        × ((c : String)
            → (count (λ r. str_eq r.code2 c) g.rows ≡ min 1 (count (passes c) raws))
              × (count (λ d. str_eq d.code2 c) g.duplicates ≡ count (passes c) raws - 1))
  unfolding filter_and_dedupe_rows
  filter_rows_once raws a =
      let (g, h, s) = filter_from-Seen raws (record { rows = []; duplicates = [] }) a in
      (
        g,
        h,
        λ c. let t = s c 0 (omega arith, omega arith) in (omega (arith, t.0), omega (arith, t.1)),
      )
