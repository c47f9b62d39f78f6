-- ===== src/Paging/Sequential.antt =====
-- The pull that asks for one page at a time.
use bims_shopify.Base.{
  ℕ, zero, suc, ◌+◌, ◌≤◌, String, ◌≡◌, refl, sym, ◌∙◌, inl, inr, true, false, Option, none, some,
  List, [], ◌∷◌, arith, length, Result, ok, err, ◌>>=◌, Bool-cases,
}
use bims_shopify.Paging.{
  Pull, Body, Codec, Item, see_count, add_item, add_items, close_page, parse_count, read_rows,
  read_page, running,
}

module _ (codec : Codec) where
  pub see_count-pages : (c : Option ℕ) (p : Pull) → (see_count codec c p).pages ≡ p.pages
  unfolding see_count
  see_count-pages none p = refl
  see_count-pages (some n) p = ground arith

  -- What reading the items of a page leaves alone.
  add_item-kept :
      (item : Item) (p : Pull)
      → ((add_item codec item p).pages ≡ p.pages)
        × ((add_item codec item p).offset ≡ p.offset)
        × ((add_item codec item p).done ≡ p.done)
  unfolding add_item
  add_item-kept item p = ground arith

  pub add_items-pages : (items : List Item) (p : Pull) → (add_items codec items p).pages ≡ p.pages
  unfolding add_items
  add_items-pages [] p = refl
  add_items-pages (item ∷ items) p =
      add_items-pages items (add_item codec item p) ∙ (add_item-kept item p).0

  close_page-pages : (before n : ℕ) (p : Pull) → (close_page codec before n p).pages ≡ p.pages
  unfolding close_page
  close_page-pages before n p = ground arith

  pub read_rows-pages : (items : List Item) (p : Pull) → (read_rows codec items p).pages ≡ p.pages
  read_rows-pages [] p = refl
  read_rows-pages (item ∷ items) p =
      close_page-pages (length p.rows) (length (item ∷ items)) (add_items codec (item ∷ items) p)
      ∙ add_items-pages (item ∷ items) p

  -- Every page that is read is counted.
  pub read_page-pages : (body : Body) (p : Pull) → (read_page codec body p).pages ≡ suc p.pages
  unfolding read_page
  read_page-pages body p =
      let q = record p { pages = p.pages + 1 } in
      read_rows-pages body.rows (see_count codec (parse_count codec body.count) q)
      ∙ see_count-pages (parse_count codec body.count) q
      ∙ (omega arith)

  module _ (fetch : ℕ → Result String Body) where
    -- The pull that asks for one page at a time, on fuel.
    abbrev pub one_page : Result String Body → Pull → Result String Pull
    one_page (err e) p = err e
    one_page (ok body) p = ok (read_page codec body p)

    unfoldable pub sequential : ℕ → ℕ → Pull → Result String Pull
    sequential zero limit p = ok p
    sequential (suc fuel) limit p = elim (running codec fetch limit p) [
      | false ↦ ok p
      | true ↦ one_page (fetch p.offset) p >>= sequential fuel limit
    ]

    -- Once the loop has stopped, more fuel changes nothing.
    pub sequential_stopped :
        (fuel limit : ℕ) (p : Pull)
        → running codec fetch limit p ≡ false
        → sequential fuel limit p ≡ ok p
    unfolding sequential
    sequential_stopped zero limit p h = refl
    sequential_stopped (suc fuel) limit p h = rw (h, sequential) refl

    pub one_page-running :
        (fuel limit : ℕ) (p : Pull)
        → running codec fetch limit p ≡ true
        → sequential (suc fuel) limit p ≡ (one_page (fetch p.offset) p >>= sequential fuel limit)
    unfolding sequential
    one_page-running fuel limit p h = rw (h, sequential) refl

    pub stopped_at : (limit : ℕ) (p : Pull) → limit ≤ p.pages → running codec fetch limit p ≡ false
    stopped_at limit p h = ground arith

    pub stopped_done : (limit : ℕ) (p : Pull) → p.done ≡ true → running codec fetch limit p ≡ false
    stopped_done limit p h = ground arith

    -- Any fuel that covers the pages left gives the same.
    pub sequential_fuel :
        (f g limit : ℕ) (p : Pull)
        → limit ≤ p.pages + f
        → limit ≤ p.pages + g
        → sequential f limit p ≡ sequential g limit p
    sequential_fuel zero g limit p h k =
        let e = stopped_at limit p (omega arith) in
        sequential_stopped zero limit p e ∙ sym (sequential_stopped g limit p e)
    sequential_fuel (suc f) zero limit p h k =
        let e = stopped_at limit p (omega arith) in
        sequential_stopped (suc f) limit p e ∙ sym (sequential_stopped zero limit p e)
    sequential_fuel (suc f) (suc g) limit p h k = elim (Bool-cases (running codec fetch limit p)) [
      | inr stopped ↦
          sequential_stopped (suc f) limit p stopped
          ∙ sym (sequential_stopped (suc g) limit p stopped)
      | inl more ↦
          one_page-running f limit p more
          ∙ same_rest (fetch p.offset) (sequential_fuel f g limit)
          ∙ sym (one_page-running g limit p more)
    ]
      where
        same_rest :
            (r : Result String Body)
            → ((q : Pull)
                → limit ≤ q.pages + f
                → limit ≤ q.pages + g
                → sequential f limit q ≡ sequential g limit q)
            → (one_page r p >>= sequential f limit) ≡ (one_page r p >>= sequential g limit)
        same_rest (err e) ih = refl
        same_rest (ok body) ih =
            ih (read_page codec body p) (omega (arith, read_page-pages body p))
              (omega (arith, read_page-pages body p))
