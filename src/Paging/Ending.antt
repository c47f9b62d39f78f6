-- ===== src/Paging/Ending.antt =====
-- How a pull ends.
use bims_shopify.Base.{
  ℕ, zero, suc, ◌+◌, ◌≤◌, ◌<◌, ◌==◌, ltb, String, ◌≡◌, refl, sym, ap, subst, ◌∙◌, ◌⊎◌, inl, inr,
  true, false, Option, none, some, List, [], ◌∷◌, ◌++◌, any, All, length, length-append, str_eq,
  arith, Result, ok, err, ◌>>=◌, Bool-cases,
}
use bims_shopify.Values.{Object}
use bims_shopify.Paging.{
  StopReason, Pull, Body, Item, Codec, start, row_of, key_of, parse_count, see_count, add_item,
  add_items, close_page, read_rows, read_page, running, pull_loop, cap_pages, warn_truncated,
  finish, window_of, size_of, paginate_products,
}
use bims_shopify.Paging.Sequential.{one_page, sequential, stopped_at, read_page-pages}
use bims_shopify.Paging.Window.{pull_loop-sequential, window_positive}

-- The pulls that the server's answers lead to, page by page.
pub data Reached (codec : Codec) (fetch : ℕ → Result String Body) : Pull → Type 0 where
  begun : Reached codec fetch start
  next :
      {q : Pull} {body : Body}
      → Reached codec fetch q
      → q.done ≡ false
      → fetch q.offset ≡ ok body
      → Reached codec fetch (read_page codec body q)

-- The product of an item has been seen.
abbrev pub IsSeen : Codec → List String → Item → Type 0
IsSeen codec seen item = any (str_eq (key_of codec (row_of item))) seen ≡ true

-- What the last page says: it is empty, or it has rows and the products of all were seen on the
-- pages before it.
abbrev pub Closes : Codec → List String → List Item → StopReason → Type 0
Closes codec seen items reason =
    ((reason ≡ StopReason.empty_page) × (items ≡ []))
    ⊎ ((reason ≡ StopReason.repeated_page) × ((1 ≤ length items) × All (IsSeen codec seen) items))

-- The end of a catalog: the page that the server answers after the pages before it closes the pull,
-- which keeps the rows of those.
pub record End (codec : Codec) (fetch : ℕ → Result String Body) (rows : List Object) (pages : ℕ)
    (reason : StopReason) : Type 0 where
  pub before : Pull
  pub reached : Reached codec fetch before
  pub open_before : before.done ≡ false
  pub last : Body
  pub answered : fetch before.offset ≡ ok last
  pub same_rows : rows ≡ before.rows
  pub one_more : pages ≡ suc before.pages
  pub closes : Closes codec before.seen_ids last.rows reason

module _ (codec : Codec) (fetch : ℕ → Result String Body) where
  -- How a pull can end: with an answer of the server that raised, at an end that it found, or at the
  -- cap on pages; never for want of fuel.
  abbrev pub Ended : ℕ → Result String Pull → Type 0
  Ended limit (err e) = (q : Pull) × (Reached codec fetch q × (fetch q.offset ≡ err e))
  Ended limit (ok p) =
      (p.pages ≤ limit)
      × (((p.done ≡ true) × End codec fetch p.rows p.pages p.stop_reason)
          ⊎ ((p.pages ≡ limit) × (p.stop_reason ≡ StopReason.max_pages)))

  -- Whatever the pull is done with, it is an end.
  abbrev IsProper : Pull → Type 0
  IsProper p =
      Reached codec fetch p × (p.done ≡ true → End codec fetch p.rows p.pages p.stop_reason)

  abbrev Stopped : ℕ → Result String Pull → Type 0
  Stopped limit (err e) = (q : Pull) × (Reached codec fetch q × (fetch q.offset ≡ err e))
  Stopped limit (ok p) = (p.pages ≤ limit) × ((running codec fetch limit p ≡ false) × IsProper p)

  see_count-kept :
      (c : Option ℕ) (p : Pull)
      → ((see_count codec c p).rows ≡ p.rows)
        × (((see_count codec c p).seen_ids ≡ p.seen_ids) × ((see_count codec c p).done ≡ p.done))
  unfolding see_count
  see_count-kept none p = (refl, (refl, refl))
  see_count-kept (some n) p = ground arith

  add_item-seen :
      (item : Item) (p : Pull) → IsSeen codec p.seen_ids item → add_item codec item p ≡ p
  unfolding add_item
  add_item-seen item p h = rw h refl

  -- The pull with the product of a new item.
  abbrev with_item : Item → Pull → Pull
  with_item item p = record p {
    seen_ids = key_of codec (row_of item) ∷ p.seen_ids;
    rows = p.rows ++ row_of item ∷ [];
  }

  add_item-new :
      (item : Item) (p : Pull)
      → any (str_eq (key_of codec (row_of item))) p.seen_ids ≡ false
      → add_item codec item p ≡ with_item item p
  unfolding add_item
  add_item-new item p h = rw h refl

  abbrev rows_with : List Item → Pull → ℕ
  rows_with items p = length (add_items codec items p).rows

  add_items-grows : (items : List Item) (p : Pull) → length p.rows ≤ rows_with items p
  unfolding add_items
  add_items-grows [] p = omega arith
  add_items-grows (item ∷ items) p =
      elim (Bool-cases (any (str_eq (key_of codec (row_of item))) p.seen_ids)) [
        | inl e ↦
            subst (λ r. length p.rows ≤ rows_with items r) (sym (add_item-seen item p e))
              (add_items-grows items p)
        | inr e ↦
            subst (λ r. length p.rows ≤ rows_with items r) (sym (add_item-new item p e))
              (omega (
                arith,
                add_items-grows items (with_item item p),
                length-append p.rows (row_of item ∷ []),
              ))
      ]

  -- A page that adds no row has only products that were seen, and changes nothing.
  abbrev Unchanged : List Item → Pull → Pull → Type 0
  Unchanged items p r =
      ((add_items codec items r).rows ≡ p.rows) × ((add_items codec items r).done ≡ p.done)

  add_items-stuck :
      (items : List Item) (p : Pull)
      → rows_with items p ≡ length p.rows
      → All (IsSeen codec p.seen_ids) items × Unchanged items p p
  unfolding add_items
  add_items-stuck [] p h = (tt, (refl, refl))
  add_items-stuck (item ∷ items) p h =
      elim (Bool-cases (any (str_eq (key_of codec (row_of item))) p.seen_ids)) [
        | inl e ↦
            let k = subst (λ r. rows_with items r ≡ length p.rows) (add_item-seen item p e) h in
            let ih = add_items-stuck items p k in
            ((e, ih.0), subst (Unchanged items p) (sym (add_item-seen item p e)) ih.1)
        | inr e ↦
            let k = subst (λ r. rows_with items r ≡ length p.rows) (add_item-new item p e) h in
            absurd (
              omega (
                arith,
                k,
                add_items-grows items (with_item item p),
                length-append p.rows (row_of item ∷ []),
              ))
      ]

  add_items-done : (items : List Item) (p : Pull) → (add_items codec items p).done ≡ p.done
  unfolding add_items
  add_items-done [] p = refl
  add_items-done (item ∷ items) p =
      add_items-done items (add_item codec item p)
      ∙ (elim (Bool-cases (any (str_eq (key_of codec (row_of item))) p.seen_ids)) [
        | inl e ↦ ap (λ r. r.done) (add_item-seen item p e)
        | inr e ↦ ap (λ r. r.done) (add_item-new item p e)
      ])

  -- The rows of a page that is read when `p` is not done.
  read_rows-Closes :
      (items : List Item) (p : Pull)
      → p.done ≡ false
      → (read_rows codec items p).done ≡ true
      → ((read_rows codec items p).rows ≡ p.rows)
        × Closes codec p.seen_ids items (read_rows codec items p).stop_reason
  unfolding close_page
  read_rows-Closes [] p o d = (refl, inl (refl, refl))
  read_rows-Closes (item ∷ items) p o d =
      let q = add_items codec (item ∷ items) p in
      elim (Bool-cases (length q.rows == length p.rows)) [
        | inl e ↦
            let s = add_items-stuck (item ∷ items) p (ground (arith, e)) in
            rw e (s.1.0, inr (refl, (omega arith, s.0)))
        | inr e ↦
            let k : q.done ≡ true = rw e at d in
            let l = add_items-done (item ∷ items) p in absurd (cc)
      ]

  read_page-IsProper :
      (body : Body) (p : Pull)
      → Reached codec fetch p
      → p.done ≡ false
      → fetch p.offset ≡ ok body
      → IsProper (read_page codec body p)
  unfolding read_page
  read_page-IsProper body p r o f = (next r o f, at_end)
    where
      opened : Pull
      opened = record p { pages = p.pages + 1 }

      at_end :
          (read_page codec body p).done ≡ true
          → End codec fetch
              (read_page codec body p).rows
              (read_page codec body p).pages
              (read_page codec body p).stop_reason
      at_end d =
          let counted = see_count codec (parse_count codec body.count) opened in
          let kept = see_count-kept (parse_count codec body.count) opened in
          let c = read_rows-Closes body.rows counted (kept.1.1 ∙ o) d in
          record {
            before = p;
            reached = r;
            open_before = o;
            last = body;
            answered = f;
            same_rows = c.0 ∙ kept.0;
            one_more = read_page-pages codec body p;
            closes =
                subst
                  (λ seen.
                    Closes codec seen body.rows (read_rows codec body.rows counted).stop_reason)
                  kept.1.0 c.1;
          }

  sequential-Stopped :
      (fuel limit : ℕ) (p : Pull)
      → limit ≤ p.pages + fuel
      → p.pages ≤ limit
      → IsProper p
      → Stopped limit (sequential codec fetch fuel limit p)
  unfolding sequential
  sequential-Stopped zero limit p h k i = (k, (stopped_at codec fetch limit p (omega arith), i))
  sequential-Stopped (suc fuel) limit p h k i = elim (Bool-cases (running codec fetch limit p)) [
    | inr stopped ↦ rw (stopped, sequential) (k, (stopped, i))
    | inl more ↦
        rw (more, sequential)
          (after_one (fetch p.offset) refl (ground (arith, more)) (ground (arith, more))
            (λ q a b j. sequential-Stopped fuel limit q a b j))
  ]
    where
      after_one :
          (r : Result String Body)
          → fetch p.offset ≡ r
          → p.pages < limit
          → p.done ≡ false
          → ((q : Pull)
              → limit ≤ q.pages + fuel
              → q.pages ≤ limit
              → IsProper q
              → Stopped limit (sequential codec fetch fuel limit q))
          → Stopped limit (one_page codec fetch r p >>= sequential codec fetch fuel limit)
      after_one (err e) f room o ih = (p, (i.0, f))
      after_one (ok body) f room o ih =
          ih (read_page codec body p) (omega (arith, read_page-pages codec body p))
            (omega (arith, read_page-pages codec body p)) (read_page-IsProper body p i.0 o f)

  warn-Ended :
      (limit : ℕ) (c : Option ℕ) (p : Pull)
      → Ended limit (ok p)
      → Ended limit (ok (warn_truncated codec fetch c p))
  warn-Ended limit none p h = h
  warn-Ended limit (some n) p h = elim (Bool-cases (ltb (length p.rows) n)) [
    | inl e ↦ rw e h
    | inr e ↦ rw e h
  ]

  cap-Ended :
      (limit : ℕ) (p : Pull)
      → Stopped limit (ok p)
      → Ended limit (ok (cap_pages codec fetch limit p))
  cap-Ended limit p h = elim (Bool-cases p.done) [
    | inl e ↦ rw e (h.0, inl (refl, h.1.1.1 e))
    | inr e ↦ rw e (h.0, inr (ground (arith, h.0, h.1.0, e), refl))
  ]

  finish-Ended :
      (limit : ℕ) (r : Result String Pull)
      → Stopped limit r
      → Ended limit (r >>= λ p. ok (finish codec fetch limit p))
  unfolding finish
  finish-Ended limit (err e) h = h
  finish-Ended limit (ok p) h =
      warn-Ended limit (cap_pages codec fetch limit p).reported_count
        (cap_pages codec fetch limit p) (cap-Ended limit p h)

  -- Every pull ends: it raises only the error that the server answered to the request after some
  -- pages, and otherwise it has read at most the capped number of pages and either, said so, stopped
  -- at the cap, or the last page that the server answered was empty, or had only products of the
  -- pages before it, whose rows it keeps.
  pub paginate-Ended :
      (limit : ℕ) (page_size : Option ℕ) (concurrency : ℕ)
      → Ended limit (paginate_products codec fetch limit page_size concurrency)
  unfolding paginate_products
  paginate-Ended limit page_size concurrency =
      finish-Ended limit
        (pull_loop codec fetch limit limit (window_of codec fetch page_size concurrency)
          (size_of codec fetch page_size) start)
        (subst (Stopped limit)
          (sym (
            pull_loop-sequential codec fetch limit limit
              (window_of codec fetch page_size concurrency) (size_of codec fetch page_size) start
              (window_positive codec fetch page_size concurrency) (omega arith)))
          (sequential-Stopped limit limit start (omega arith) (omega arith)
            (begun, λ d. absurd (cc))))
