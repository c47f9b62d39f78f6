-- ===== src/Paging/Catalog.antt =====
-- A server that serves a catalog by offset: the pull returns all of it.
use bims_shopify.Base.{
  ℕ, zero, suc, ◌+◌, ◌≤◌, ◌<◌, String, ◌≡◌, refl, sym, ap, ap₂, subst, ◌∙◌, true, false, Option,
  none, some, List, [], ◌∷◌, ◌++◌, map, arith, length, take, drop, take-append-drop, append_assoc,
  append-nil, All-of, Result, ok, err, ◌>>=◌, lt→ltb, length-drop,
}
use bims_shopify.Paging.{
  StopReason, Pull, Body, Codec, Item, start, row_of, see_count, parse_count, read_rows, read_page,
  pull_loop, cap_pages, warn_truncated, finish, window_of, size_of, paginate_products,
}
use bims_shopify.Paging.Sequential.{
  one_page, sequential, one_page-running, sequential_stopped, stopped_done, see_count-pages,
  read_rows-pages,
}
use bims_shopify.Paging.Window.{pull_loop-sequential, window_positive}
use bims_shopify.Paging.Reading.{Distinct, Read, see_count-Read, read_rows-Read}

module _ (codec : Codec) where
  -- The pull has the whole catalog.
  abbrev pub Whole : List Item → Result String Pull → Type 0
  Whole items (err e) = ⊥
  Whole items (ok p) =
      (p.rows ≡ map row_of items) × (p.done ≡ true) × (p.stop_reason ≡ StopReason.empty_page)

  module _ (fetch : ℕ → Result String Body) where
    -- The server answers at each offset with some of the items from there on, at least one while
    -- there are any.
    pub record Serves (items : List Item) : Type 0 where
      pub page_length : ℕ → ℕ
      pub positive : (n : ℕ) → 0 < page_length n
      pub answer : ℕ → Body
      pub answers : (n : ℕ) → fetch n ≡ ok (answer n)
      pub pages : (n : ℕ) → (answer n).rows ≡ take (page_length n) (drop n items)

    drop_all : (pre rest : List Item) → drop (length pre) (pre ++ rest) ≡ rest
    drop_all [] rest = refl
    drop_all (x ∷ pre) rest = drop_all pre rest

    take_none : (n : ℕ) → take {A = Item} n [] ≡ []
    take_none zero = refl
    take_none (suc n) = refl

    -- The state in which the rows of a page are read.
    abbrev counted : Body → Pull → Pull
    counted body p =
        see_count codec (parse_count codec body.count) (record p { pages = p.pages + 1 })

    -- One round of the sequential pull of a catalog.
    one_round :
        (fuel limit : ℕ) (p : Pull) (body : Body) (rows : List Item)
        → p.done ≡ false
        → p.pages < limit
        → fetch p.offset ≡ ok body
        → body.rows ≡ rows
        → sequential codec fetch (suc fuel) limit p
          ≡ sequential codec fetch fuel limit (read_rows codec rows (counted body p))
    unfolding read_page
    one_round fuel limit p body rows d room f same =
        one_page-running codec fetch fuel limit p (rw d (lt→ltb p.pages limit room))
        ∙ ap (λ r. one_page codec fetch r p >>= sequential codec fetch fuel limit) f
        ∙ ap (λ rs. sequential codec fetch fuel limit (read_rows codec rs (counted body p))) same

    counted-Read :
        (body : Body) (pre rest : List Item) (p : Pull)
        → Read codec pre rest p
        → Read codec pre rest (counted body p)
    counted-Read body pre rest p r =
        see_count-Read codec (parse_count codec body.count) pre rest
          (record p { pages = p.pages + 1 })
          (record {
            rows = r.rows;
            fresh = r.fresh;
            distinct = r.distinct;
            offset = r.offset;
            done = r.done;
          })

    counted-pages : (body : Body) (p : Pull) → (counted body p).pages ≡ suc p.pages
    counted-pages body p =
        see_count-pages codec (parse_count codec body.count) (record p { pages = p.pages + 1 })
        ∙ (omega arith)

    at_end :
        (fuel limit : ℕ) (items : List Item) (q : Pull)
        → q.rows ≡ map row_of items
        → Whole items (sequential codec fetch fuel limit (read_rows codec [] q))
    at_end fuel limit items q rows =
        rw
          (sequential_stopped codec fetch fuel limit (read_rows codec [] q)
            (stopped_done codec fetch limit (read_rows codec [] q) refl))
          (rows, refl, refl)

    sequential-Whole :
        (fuel limit : ℕ) (pre rest items : List Item) (p : Pull)
        → Serves items
        → pre ++ rest ≡ items
        → Read codec pre rest p
        → p.pages + length rest < limit
        → limit ≤ p.pages + fuel
        → Whole items (sequential codec fetch fuel limit p)
    sequential-Whole zero limit pre rest items p s whole r room h = absurd (omega arith)
    sequential-Whole (suc fuel) limit pre [] items p s whole r room h =
        let body = s.answer p.offset in
        subst (Whole items)
          (sym (
            one_round fuel limit p body [] r.done (omega arith) (s.answers p.offset) (
              s.pages p.offset
              ∙ ap (take (s.page_length p.offset)) (
                  ap (λ n. drop n items) r.offset
                  ∙ ap (drop (length pre)) (sym whole)
                  ∙ drop_all pre [])
              ∙ take_none (s.page_length p.offset))))
          (at_end fuel limit items (counted body p)
            ((counted-Read body pre [] p r).rows ∙ ap (map row_of) (sym (append-nil pre) ∙ whole)))
    sequential-Whole (suc fuel) limit pre (x ∷ xs) items p s whole r room h =
        page (s.page_length p.offset) refl (λ k q r' room' h'.
          sequential-Whole fuel limit (pre ++ x ∷ take k xs) (drop k xs) items q s
            (append_assoc pre (x ∷ take k xs) (drop k xs)
              ∙ ap (λ l. pre ++ x ∷ l) (take-append-drop k xs)
              ∙ whole)
            r' room' h')
      where
        page :
            (n : ℕ)
            → s.page_length p.offset ≡ n
            → ((k : ℕ) (q : Pull)
                → Read codec (pre ++ x ∷ take k xs) (drop k xs) q
                → q.pages + length (drop k xs) < limit
                → limit ≤ q.pages + fuel
                → Whole items (sequential codec fetch fuel limit q))
            → Whole items (sequential codec fetch (suc fuel) limit p)
        page zero e ih = absurd (omega (arith, s.positive p.offset))
        page (suc k) e ih =
            let body = s.answer p.offset in
            let q = counted body p in
            let next = read_rows codec (x ∷ take k xs) q in
            let pages : next.pages ≡ suc p.pages =
              read_rows-pages codec (x ∷ take k xs) q ∙ counted-pages body p in
            subst (Whole items)
              (sym (
                one_round fuel limit p body (x ∷ take k xs) r.done (omega arith)
                  (s.answers p.offset)
                  (s.pages p.offset
                    ∙ ap₂ take e (
                        ap (λ n. drop n items) r.offset
                        ∙ ap (drop (length pre)) (sym whole)
                        ∙ drop_all pre (x ∷ xs)))))
              (ih k next
                (read_rows-Read codec pre x (take k xs) (drop k xs) q (
                  subst (λ l. Read codec pre (x ∷ l) q) (sym (take-append-drop k xs))
                    (counted-Read body pre (x ∷ xs) p r)))
                (omega (arith, pages, length-drop k xs, room)) (omega (arith, pages, h)))

    finish-Whole :
        (limit : ℕ) (items : List Item) (r : Result String Pull)
        → Whole items r
        → Whole items (r >>= λ p. ok (finish codec fetch limit p))
    unfolding finish
    finish-Whole limit items (err e) h = h
    finish-Whole limit items (ok p) h =
        warned (cap_pages codec fetch limit p).reported_count (cap_pages codec fetch limit p)
          (ground arith)
      where
        warned :
            (c : Option ℕ) (q : Pull)
            → Whole items (ok q)
            → Whole items (ok (warn_truncated codec fetch c q))
        warned none q h = h
        warned (some n) q h = ground arith

    -- From a server that serves a catalog of distinct products by offset, in pages of any sizes, the
    -- pull returns every product in order, whatever the window, and says that it met the end; the cap
    -- on pages has to be above the number of products.
    pub paginate-Whole :
        (items : List Item) (limit : ℕ) (page_size : Option ℕ) (concurrency : ℕ)
        → Serves items
        → Distinct codec items
        → length items < limit
        → Whole items (paginate_products codec fetch limit page_size concurrency)
    unfolding paginate_products
    paginate-Whole items limit page_size concurrency s d room =
        finish-Whole limit items
          (pull_loop codec fetch limit limit (window_of codec fetch page_size concurrency)
            (size_of codec fetch page_size) start)
          (subst (Whole items)
            (sym (
              pull_loop-sequential codec fetch limit limit
                (window_of codec fetch page_size concurrency) (size_of codec fetch page_size) start
                (window_positive codec fetch page_size concurrency) (omega arith)))
            (sequential-Whole limit limit [] items items start s refl
              (record {
                rows = refl;
                fresh = All-of _ (λ y. refl) items;
                distinct = d;
                offset = refl;
                done = refl;
              })
              (omega arith) (omega arith)))
