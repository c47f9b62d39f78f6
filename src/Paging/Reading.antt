-- ===== src/Paging/Reading.antt =====
-- Where the pull of a catalog of distinct products stands while it reads.
use bims_shopify.Base.{
  ℕ, suc, ◌+◌, String, ◌≡◌, refl, sym, ap, subst, ◌∙◌, false, ◌==◌, Option, none, some, List, [],
  ◌∷◌, ◌++◌, map, arith, length, length-append, append_assoc, append-nil, map-append, any, All,
  All-zip, str_eq,
}
use bims_shopify.Values.{Object}
use bims_shopify.Paging.{
  Pull, Codec, Item, row_of, key_of, see_count, add_item, add_items, close_page, read_rows,
}

module _ (codec : Codec) where
  abbrev pub key : Item → String
  key item = key_of codec (row_of item)

  -- No two products have the same key.
  abbrev pub Distinct : List Item → Type 0
  Distinct [] = Unit
  Distinct (x ∷ xs) = All (λ y. str_eq (key y) (key x) ≡ false) xs × Distinct xs

  abbrev pub Fresh : List String → List Item → Type 0
  Fresh seen = All (λ y. any (str_eq (key y)) seen ≡ false)

  -- What is read of new and distinct items.
  pub record Added (p q : Pull) (page rest : List Item) : Type 0 where
    pub rows : q.rows ≡ p.rows ++ map row_of page
    pub fresh : Fresh q.seen_ids rest
    pub distinct : Distinct rest
    pub offset : q.offset ≡ p.offset
    pub done : q.done ≡ p.done

  add_item-new :
      (x : Item) (p : Pull)
      → any (str_eq (key x)) p.seen_ids ≡ false
      → add_item codec x p
        ≡ record p { seen_ids = key x ∷ p.seen_ids; rows = p.rows ++ row_of x ∷ [] }
  unfolding add_item
  add_item-new x p h = rw h refl

  pub add_items-Added :
      (page rest : List Item) (p : Pull)
      → Fresh p.seen_ids (page ++ rest)
      → Distinct (page ++ rest)
      → Added p (add_items codec page p) page rest
  unfolding add_items
  add_items-Added [] rest p f d = record {
    rows = sym (append-nil p.rows);
    fresh = f;
    distinct = d;
    offset = refl;
    done = refl;
  }
  add_items-Added (x ∷ page) rest p (new, f) (apart, d) =
      let q = record p { seen_ids = key x ∷ p.seen_ids; rows = p.rows ++ row_of x ∷ [] } in
      let ih =
        add_items-Added page rest q
          (All-zip (λ y. str_eq (key y) (key x) ≡ false)
            (λ y. any (str_eq (key y)) p.seen_ids ≡ false) _ (page ++ rest)
            (λ y a b. rw (a, b) refl) apart f)
          d in
      rw (add_item-new x p new) (record {
        rows = ih.rows ∙ append_assoc p.rows (row_of x ∷ []) (map row_of page);
        fresh = ih.fresh;
        distinct = ih.distinct;
        offset = ih.offset;
        done = ih.done;
      })

  see_count-kept :
      (c : Option ℕ) (p : Pull)
      → ((see_count codec c p).rows ≡ p.rows)
        × ((see_count codec c p).seen_ids ≡ p.seen_ids)
        × ((see_count codec c p).offset ≡ p.offset)
        × ((see_count codec c p).done ≡ p.done)
  unfolding see_count
  see_count-kept none p = (refl, refl, refl, refl)
  see_count-kept (some n) p = ground arith

  -- Where a pull of the catalog `pre ++ rest` stands when it has read `pre`.
  pub record Read (pre rest : List Item) (p : Pull) : Type 0 where
    pub rows : p.rows ≡ map row_of pre
    pub fresh : Fresh p.seen_ids rest
    pub distinct : Distinct rest
    pub offset : p.offset ≡ length pre
    pub done : p.done ≡ false

  grown : (x : Object) (xs ys : List Object) → (length (ys ++ x ∷ xs) == length ys) ≡ false
  grown x xs ys = let e = length-append ys (x ∷ xs) in ground (arith, e)

  -- A page with a new row moves the offset.
  close_page-grown :
      (before n : ℕ) (q : Pull)
      → (length q.rows == before) ≡ false
      → close_page codec before n q ≡ record q { offset = q.offset + n }
  unfolding close_page
  close_page-grown before n q h = rw h refl

  pub read_rows-Read :
      (pre : List Item) (x : Item) (page rest : List Item) (p : Pull)
      → Read pre (x ∷ page ++ rest) p
      → Read (pre ++ x ∷ page) rest (read_rows codec (x ∷ page) p)
  read_rows-Read pre x page rest p r =
      let a = add_items-Added (x ∷ page) rest p r.fresh r.distinct in
      let q = add_items codec (x ∷ page) p in
      let more : (length q.rows == length p.rows) ≡ false =
        rw a.rows (grown (row_of x) (map row_of page) p.rows) in
      rw (close_page-grown (length p.rows) (suc (length page)) q more) (record {
        rows =
            a.rows
            ∙ ap (λ rs. rs ++ map row_of (x ∷ page)) r.rows
            ∙ sym (map-append row_of pre (x ∷ page));
        fresh = a.fresh;
        distinct = a.distinct;
        offset = omega (arith, a.offset, r.offset, length-append pre (x ∷ page));
        done = a.done ∙ r.done;
      })

  pub see_count-Read :
      (c : Option ℕ) (pre rest : List Item) (p : Pull)
      → Read pre rest p
      → Read pre rest (see_count codec c p)
  see_count-Read c pre rest p r =
      let (rows, seen, offset, done) = see_count-kept c p in
      record {
        rows = rows ∙ r.rows;
        fresh = subst (λ s. Fresh s rest) (sym seen) r.fresh;
        distinct = r.distinct;
        offset = offset ∙ r.offset;
        done = done ∙ r.done;
      }
