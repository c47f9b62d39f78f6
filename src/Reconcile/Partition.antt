-- ===== src/Reconcile/Partition.antt =====
-- The report of a comparison counts every Shopify SKU once, in the class that it belongs to.
use bims_shopify.Base.{
  ℕ, suc, ◌+◌, String, ◌≡◌, refl, sym, ap, ◌∙◌, Bool, true, false, not, Option, none, some, List,
  [], ◌∷◌, ◌++◌, map, map-append, append-nil, append_assoc, if◌then◌else◌, arith, length, count,
  select, ℤ, pos, ◌==ℤ◌, lookup, Bool-cases, inl, inr,
}
use bims_shopify.Values.{truncate}
use bims_shopify.Snapshot.{ProductSnapshot}
use bims_shopify.Reconcile.{
  VariantRow, Tally, empty_tally, compare_available, compare_known, compare_all, Catalog,
  known_stock, index_products, index_rows, plan,
}

-- The classes of a SKU, from the stock that the snapshot knows and the quantity of its level.
abbrev pub lacks_stock : Option ℤ → Option ℤ → Bool
lacks_stock none available = true
lacks_stock (some stock) available = false

abbrev pub agrees : Option ℤ → Option ℤ → Bool
agrees none available = false
agrees (some stock) none = false
agrees (some stock) (some available) = available ==ℤ truncate stock

abbrev pub drifts : Option ℤ → Option ℤ → Bool
drifts none available = false
drifts (some stock) none = false
drifts (some stock) (some available) = not (available ==ℤ truncate stock)

abbrev pub gets_level : Option ℤ → Option ℤ → Bool
gets_level none available = false
gets_level (some stock) none = not (truncate stock ==ℤ pos 0)
gets_level (some stock) (some available) = false

abbrev pub stays_without : Option ℤ → Option ℤ → Bool
stays_without none available = false
stays_without (some stock) none = truncate stock ==ℤ pos 0
stays_without (some stock) (some available) = false

abbrev pub needs_write : Option ℤ → Option ℤ → Bool
needs_write known available = if drifts known available then true else gets_level known available

-- A class, of a row of Shopify's under a snapshot.
abbrev pub of_row : Catalog → (Option ℤ → Option ℤ → Bool) → String × VariantRow → Bool
of_row snapshot test e = test (known_stock (lookup e.0 snapshot)) e.1.available

-- Each counter of `t` is the number of rows of its class, and what is to be written is for the SKUs
-- of the rows that need it, in their order.
pub record IsCounted (snapshot : Catalog) (rows : List (String × VariantRow)) (t : Tally)
    : Type 0 where
  pub in_sync : t.in_sync ≡ count (of_row snapshot agrees) rows
  pub unknown : t.unknown_stock ≡ count (of_row snapshot lacks_stock) rows
  pub drifted : t.drift.count ≡ count (of_row snapshot drifts) rows
  pub pushed : t.no_level_pushed ≡ count (of_row snapshot gets_level) rows
  pub skipped : t.no_level_skipped_zero ≡ count (of_row snapshot stays_without) rows
  pub levels : t.no_level.count ≡ t.no_level_pushed + t.no_level_skipped_zero
  pub total : t.in_sync + t.unknown_stock + t.drift.count + t.no_level.count ≡ length rows
  pub pushes :
      map (λ d. d.sku) t.to_push ≡ map (λ e. e.0) (select (of_row snapshot needs_write) rows)

abbrev bit : Bool → ℕ
bit b = if b then 1 else 0

count-bit {ℓ} :
    {A : Type ℓ} (p : A → Bool) (x : A) (xs : List A) → count p (x ∷ xs) ≡ bit (p x) + count p xs
count-bit p x xs = ground arith

abbrev skus : Tally → List String
skus t = map (λ d. d.sku) t.to_push

abbrev listed : Bool → String → List String
listed b sku = if b then sku ∷ [] else []

-- What one row adds.
record Adds (sku : String) (known available : Option ℤ) (t u : Tally) : Type 0 where
  in_sync : u.in_sync ≡ t.in_sync + bit (agrees known available)
  unknown : u.unknown_stock ≡ t.unknown_stock + bit (lacks_stock known available)
  drifted : u.drift.count ≡ t.drift.count + bit (drifts known available)
  pushed : u.no_level_pushed ≡ t.no_level_pushed + bit (gets_level known available)
  skipped : u.no_level_skipped_zero ≡ t.no_level_skipped_zero + bit (stays_without known available)
  levels :
      u.no_level.count
      ≡ t.no_level.count + (bit (gets_level known available) + bit (stays_without known available))
  total :
      u.in_sync + u.unknown_stock + u.drift.count + u.no_level.count
      ≡ suc (t.in_sync + t.unknown_stock + t.drift.count + t.no_level.count)
  pushes : skus u ≡ skus t ++ listed (needs_write known available) sku

compare_available-Adds :
    (sku : String) (row : VariantRow) (stock : ℤ) (available : Option ℤ) (t : Tally)
    → Adds sku
        (some stock)
        available
        t
        (compare_available sku row stock (truncate stock) available t)
unfolding compare_available
compare_available-Adds sku row stock none t = elim (Bool-cases (truncate stock ==ℤ pos 0)) [
  | inl e ↦ rw e (record {
    in_sync = omega arith;
    unknown = omega arith;
    drifted = omega arith;
    pushed = rw e (omega arith);
    skipped = rw e (omega arith);
    levels = rw e (omega arith);
    total = omega arith;
    pushes = rw e (sym (append-nil (skus t)));
  })
  | inr e ↦ rw e (record {
    in_sync = omega arith;
    unknown = omega arith;
    drifted = omega arith;
    pushed = rw e (omega arith);
    skipped = rw e (omega arith);
    levels = rw e (omega arith);
    total = omega arith;
    pushes = rw e (map-append (λ d. d.sku) t.to_push _);
  })
]
compare_available-Adds sku row stock (some a) t = elim (Bool-cases (a ==ℤ truncate stock)) [
  | inl e ↦ rw e (record {
    in_sync = rw e (omega arith);
    unknown = omega arith;
    drifted = rw e (omega arith);
    pushed = omega arith;
    skipped = omega arith;
    levels = omega arith;
    total = omega arith;
    pushes = rw e (sym (append-nil (skus t)));
  })
  | inr e ↦ rw e (record {
    in_sync = rw e (omega arith);
    unknown = omega arith;
    drifted = rw e (omega arith);
    pushed = omega arith;
    skipped = omega arith;
    levels = omega arith;
    total = omega arith;
    pushes = rw e (map-append (λ d. d.sku) t.to_push _);
  })
]

compare_known-Adds :
    (sku : String) (row : VariantRow) (known : Option ℤ) (t : Tally)
    → Adds sku known row.available t (compare_known sku row known t)
unfolding compare_known
compare_known-Adds sku row none t = record {
  in_sync = omega arith;
  unknown = omega arith;
  drifted = omega arith;
  pushed = omega arith;
  skipped = omega arith;
  levels = omega arith;
  total = omega arith;
  pushes = sym (append-nil (skus t));
}
compare_known-Adds sku row (some stock) t = compare_available-Adds sku row stock row.available t

select-cons {ℓ} :
    {A : Type ℓ} (p : A → Bool) (f : A → String) (x : A) (xs : List A)
    → map f (select p (x ∷ xs)) ≡ listed (p x) (f x) ++ map f (select p xs)
select-cons p f x xs = elim (Bool-cases (p x)) [ inl e ↦ rw e refl | inr e ↦ rw e refl ]

-- What the rows add.
record AddsAll (snapshot : Catalog) (rows : List (String × VariantRow)) (t u : Tally) : Type 0 where
  in_sync : u.in_sync ≡ t.in_sync + count (of_row snapshot agrees) rows
  unknown : u.unknown_stock ≡ t.unknown_stock + count (of_row snapshot lacks_stock) rows
  drifted : u.drift.count ≡ t.drift.count + count (of_row snapshot drifts) rows
  pushed : u.no_level_pushed ≡ t.no_level_pushed + count (of_row snapshot gets_level) rows
  skipped :
      u.no_level_skipped_zero ≡ t.no_level_skipped_zero + count (of_row snapshot stays_without) rows
  levels :
      u.no_level.count
      ≡ t.no_level.count
        + (count (of_row snapshot gets_level) rows + count (of_row snapshot stays_without) rows)
  total :
      u.in_sync + u.unknown_stock + u.drift.count + u.no_level.count
      ≡ t.in_sync + t.unknown_stock + t.drift.count + t.no_level.count + length rows
  pushes : skus u ≡ skus t ++ map (λ e. e.0) (select (of_row snapshot needs_write) rows)

compare_all-AddsAll :
    (snapshot : Catalog) (rows : List (String × VariantRow)) (t : Tally)
    → AddsAll snapshot rows t (compare_all snapshot rows t)
unfolding compare_all
compare_all-AddsAll snapshot [] t = record {
  in_sync = omega arith;
  unknown = omega arith;
  drifted = omega arith;
  pushed = omega arith;
  skipped = omega arith;
  levels = omega arith;
  total = omega arith;
  pushes = sym (append-nil (skus t));
}
compare_all-AddsAll snapshot ((sku, row) ∷ rows) t =
    let known = known_stock (lookup sku snapshot) in
    let one = compare_known-Adds sku row known t in
    let rest = compare_all-AddsAll snapshot rows (compare_known sku row known t) in
    let each =
      (λ (test : Option ℤ → Option ℤ → Bool). count-bit (of_row snapshot test) (sku, row) rows) in
    record {
      in_sync = omega (arith, one.in_sync, rest.in_sync, each agrees);
      unknown = omega (arith, one.unknown, rest.unknown, each lacks_stock);
      drifted = omega (arith, one.drifted, rest.drifted, each drifts);
      pushed = omega (arith, one.pushed, rest.pushed, each gets_level);
      skipped = omega (arith, one.skipped, rest.skipped, each stays_without);
      levels = omega (arith, one.levels, rest.levels, each gets_level, each stays_without);
      total = omega (arith, one.total, rest.total);
      pushes =
          rest.pushes
          ∙ ap (λ r. r ++ map (λ e. e.0) (select (of_row snapshot needs_write) rows)) one.pushes
          ∙ append_assoc (skus t) (listed (needs_write known row.available) sku)
              (map (λ e. e.0) (select (of_row snapshot needs_write) rows))
          ∙ ap (λ r. skus t ++ r)
              (sym (select-cons (of_row snapshot needs_write) (λ e. e.0) (sku, row) rows));
    }

-- Every distinct Shopify SKU is counted once, in the class that the snapshot's stock and the
-- quantity of its level put it in: in sync, of unknown stock, drifted, without a level and pushed,
-- or without a level and left at zero. What is to be written is for the SKUs of the drifted rows
-- and of those that get a level, exactly, in the order of the rows.
pub plan-IsCounted :
    (products : List ProductSnapshot) (rows : List VariantRow)
    → let p = plan products rows in
      IsCounted (index_products [] products) (index_rows [] rows) p.report.tally
      × ((p.to_push ≡ p.report.tally.to_push)
          × (p.report.scanned_shopify ≡ length (index_rows [] rows)))
unfolding plan
plan-IsCounted products rows =
    let adds = compare_all-AddsAll (index_products [] products) (index_rows [] rows) empty_tally in
    (
      record {
        in_sync = omega (arith, adds.in_sync);
        unknown = omega (arith, adds.unknown);
        drifted = omega (arith, adds.drifted);
        pushed = omega (arith, adds.pushed);
        skipped = omega (arith, adds.skipped);
        levels = omega (arith, adds.levels, adds.pushed, adds.skipped);
        total = omega (arith, adds.total);
        pushes = adds.pushes;
      },
      (refl, refl),
    )
