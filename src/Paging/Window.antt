-- ===== src/Paging/Window.antt =====
-- A windowed pull is the sequential one, for a server whose answer depends on the offset alone.
use bims_shopify.Base.{
  ℕ, zero, suc, ◌+◌, ◌-◌, ◌≤◌, ◌<◌, min, String, ◌≡◌, refl, sym, ap, ◌∙◌, inl, inr, Bool, true,
  false, ◌==◌, ==_iff, Option, none, some, List, [], ◌∷◌, arith, length, Result, ok, err, ◌>>=◌,
  Bool-cases, lt→ltb,
}
use bims_shopify.Paging.{
  Pull, Body, Codec, start, read_page, go_on, after_response, consume, window_offsets, offsets,
  running, pull_loop, finish, window_of, size_of, paginate_products,
}
use bims_shopify.Paging.Sequential.{
  one_page, sequential, sequential_stopped, one_page-running, stopped_at, stopped_done,
  sequential_fuel, read_page-pages,
}

module _ (codec : Codec) (fetch : ℕ → Result String Body) where
  -- Consuming the responses of a window is so many steps of the sequential codec fetch pull.
  consume-sequential :
      (requested : List ℕ) (fuel limit : ℕ) (p : Pull)
      → p.done ≡ false
      → p.pages + length requested ≤ limit
      → limit ≤ p.pages + fuel
      → (consume codec fetch requested p >>= sequential codec fetch fuel limit)
        ≡ sequential codec fetch fuel limit p
  unfolding consume
  consume-sequential [] fuel limit p d room h = refl
  consume-sequential (o ∷ os) zero limit p d room h = absurd (omega arith)
  consume-sequential (o ∷ os) (suc fuel) limit p d room h = elim (Bool-cases (o == p.offset)) [
    | inr e ↦ rw (e, consume) refl
    | inl e ↦
        rw (e, consume)
          (responses (fetch o) (consume-sequential os (suc fuel) limit)
            ∙ ap (λ i. one_page codec fetch (fetch i) p >>= sequential codec fetch fuel limit)
                ((==_iff o p.offset).0 e)
            ∙ sym (one_page-running codec fetch fuel limit p more))
  ]
    where
      more : running codec fetch limit p ≡ true
      more = rw d (lt→ltb p.pages limit (omega arith))

      carry_on :
          (next : Pull) (b : Bool)
          → next.done ≡ b
          → next.pages ≡ suc p.pages
          → ((q : Pull)
              → q.done ≡ false
              → q.pages + length os ≤ limit
              → limit ≤ q.pages + suc fuel
              → (consume codec fetch os q >>= sequential codec fetch (suc fuel) limit)
                ≡ sequential codec fetch (suc fuel) limit q)
          → (go_on codec b next (consume codec fetch os)
              >>= sequential codec fetch (suc fuel) limit)
            ≡ sequential codec fetch fuel limit next
      carry_on next true e n ih =
          let s = stopped_done codec fetch limit next e in
          sequential_stopped codec fetch (suc fuel) limit next s
          ∙ sym (sequential_stopped codec fetch fuel limit next s)
      carry_on next false e n ih =
          ih next e (omega arith) (omega arith)
          ∙ sequential_fuel codec fetch (suc fuel) fuel limit next (omega arith) (omega arith)

      responses :
          (r : Result String Body)
          → ((q : Pull)
              → q.done ≡ false
              → q.pages + length os ≤ limit
              → limit ≤ q.pages + suc fuel
              → (consume codec fetch os q >>= sequential codec fetch (suc fuel) limit)
                ≡ sequential codec fetch (suc fuel) limit q)
          → (after_response codec r p (consume codec fetch os)
              >>= sequential codec fetch (suc fuel) limit)
            ≡ (one_page codec fetch r p >>= sequential codec fetch fuel limit)
      responses (err e) ih = refl
      responses (ok body) ih =
          carry_on (read_page codec body p) (read_page codec body p).done refl
            (read_page-pages codec body p) ih

  length-window_offsets :
      (size k offset page_size : ℕ)
      → length (window_offsets codec fetch size k offset page_size) ≡ size
  unfolding window_offsets
  length-window_offsets zero k offset page_size = refl
  length-window_offsets (suc size) k offset page_size =
      ap suc (length-window_offsets size (suc k) offset page_size)

  -- A window starts at the true offset and has its size.
  offsets_head :
      (size offset page_size : ℕ)
      → (rest : List ℕ) × (offsets codec fetch (suc size) offset page_size ≡ offset ∷ rest)
        × (length rest ≡ size)
  unfolding offsets window_offsets
  offsets_head zero offset page_size = ([], refl, refl)
  offsets_head (suc size) offset page_size = (
    window_offsets codec fetch (suc size) 1 offset page_size,
    rw (lt→ltb 1 (suc (suc size)) (omega arith))
        (ap (λ o. o ∷ window_offsets codec fetch (suc size) 1 offset page_size) (omega arith)),
    length-window_offsets (suc size) 1 offset page_size,
  )

  abbrev AtLeast : ℕ → Result String Pull → Type 0
  AtLeast n (err e) = Unit
  AtLeast n (ok p) = n ≤ p.pages

  AtLeast-pred : (n : ℕ) (r : Result String Pull) → AtLeast (suc n) r → AtLeast n r
  AtLeast-pred n (err e) h = tt
  AtLeast-pred n (ok p) h = omega arith

  go_on-AtLeast :
      (b : Bool) (n : ℕ) (q : Pull) (rest : Pull → Result String Pull)
      → n ≤ q.pages
      → ((r : Pull) → n ≤ r.pages → AtLeast n (rest r))
      → AtLeast n (go_on codec b q rest)
  go_on-AtLeast true n q rest h ih = h
  go_on-AtLeast false n q rest h ih = ih q h

  after_response-AtLeast :
      (r : Result String Body) (n : ℕ) (p : Pull) (rest : Pull → Result String Pull)
      → n ≤ p.pages
      → ((q : Pull) → suc n ≤ q.pages → AtLeast (suc n) (rest q))
      → AtLeast (suc n) (after_response codec r p rest)
  after_response-AtLeast (err e) n p rest h ih = tt
  after_response-AtLeast (ok body) n p rest h ih =
      go_on-AtLeast (read_page codec body p).done (suc n) (read_page codec body p) rest
        (omega (arith, read_page-pages codec body p)) ih

  consume-AtLeast :
      (requested : List ℕ) (n : ℕ) (p : Pull)
      → n ≤ p.pages
      → AtLeast n (consume codec fetch requested p)
  unfolding consume
  consume-AtLeast [] n p h = h
  consume-AtLeast (o ∷ os) n p h = elim (Bool-cases (o == p.offset)) [
    | inr e ↦ rw (e, consume) h
    | inl e ↦
        rw (e, consume)
          (AtLeast-pred n (after_response codec (fetch o) p (consume codec fetch os)) (
            after_response-AtLeast (fetch o) n p (consume codec fetch os) h
              (consume-AtLeast os (suc n))))
  ]

  -- A round of the loop reads at least one page.
  consume_head-AtLeast :
      (os : List ℕ) (p : Pull) → AtLeast (suc p.pages) (consume codec fetch (p.offset ∷ os) p)
  unfolding consume
  consume_head-AtLeast os p =
      rw ((==_iff p.offset p.offset).1 refl, consume)
        (after_response-AtLeast (fetch p.offset) p.pages p (consume codec fetch os) (omega arith)
          (consume-AtLeast os (suc p.pages)))

  -- The windowed loop is the sequential codec fetch one.
  pub pull_loop-sequential :
      (fuel limit window page_size : ℕ) (p : Pull)
      → 0 < window
      → limit ≤ p.pages + fuel
      → pull_loop codec fetch fuel limit window page_size p ≡ sequential codec fetch fuel limit p
  unfolding pull_loop
  pull_loop-sequential zero limit window page_size p w h =
      sym
        (sequential_stopped codec fetch zero limit p (stopped_at codec fetch limit p (omega arith)))
  pull_loop-sequential (suc fuel) limit window page_size p w h =
      elim (Bool-cases (running codec fetch limit p)) [
        | inr stopped ↦
            rw (stopped, pull_loop)
              (sym (sequential_stopped codec fetch (suc fuel) limit p stopped))
        | inl more ↦
            rw (more, pull_loop)
              (round more (min window (limit - p.pages)) (omega (arith, room more))
                (λ q k. pull_loop-sequential fuel limit window page_size q w k)
                (omega (arith, room more)))
      ]
    where
      same :
          (r : Result String Pull)
          → AtLeast (suc p.pages) r
          → ((q : Pull)
              → limit ≤ q.pages + fuel
              → pull_loop codec fetch fuel limit window page_size q
                ≡ sequential codec fetch fuel limit q)
          → (r >>= pull_loop codec fetch fuel limit window page_size)
            ≡ (r >>= sequential codec fetch (suc fuel) limit)
      same (err e) a ih = refl
      same (ok q) a ih =
          ih q (omega arith)
          ∙ sequential_fuel codec fetch fuel (suc fuel) limit q (omega arith) (omega arith)

      room : running codec fetch limit p ≡ true → p.pages < limit
      room more = ground arith

      open_still : running codec fetch limit p ≡ true → p.done ≡ false
      open_still more = ground arith

      round :
          running codec fetch limit p ≡ true
          → (size : ℕ) → p.pages + size ≤ limit
          → ((q : Pull)
              → limit ≤ q.pages + fuel
              → pull_loop codec fetch fuel limit window page_size q
                ≡ sequential codec fetch fuel limit q)
          → 0 < size
          → (consume codec fetch (offsets codec fetch size p.offset page_size) p
              >>= pull_loop codec fetch fuel limit window page_size)
            ≡ sequential codec fetch (suc fuel) limit p
      round more zero r ih positive = absurd (omega arith)
      round more (suc size) r ih positive =
          let (rest, shape, len) = offsets_head size p.offset page_size in
          ap (λ os. consume codec fetch os p >>= pull_loop codec fetch fuel limit window page_size)
            shape
          ∙ same (consume codec fetch (p.offset ∷ rest) p) (consume_head-AtLeast rest p) ih
          ∙ consume-sequential (p.offset ∷ rest) (suc fuel) limit p (open_still more)
              (omega (arith, len)) h

  pub window_positive :
      (page_size : Option ℕ) (concurrency : ℕ) → 0 < window_of codec fetch page_size concurrency
  window_positive none concurrency = omega arith
  window_positive (some n) concurrency = ground arith

  -- For a server whose answer depends on the offset alone, asking for several pages at a time gives
  -- what asking for one at a time gives: the same rows, counts, warnings, stop and error.
  pub paginate_windowed :
      (limit : ℕ) (page_size : Option ℕ) (concurrency : ℕ)
      → paginate_products codec fetch limit page_size concurrency
        ≡ paginate_products codec fetch limit none 1
  unfolding paginate_products
  paginate_windowed limit page_size concurrency =
      ap (λ r. r >>= λ p. ok (finish codec fetch limit p))
        (pull_loop-sequential limit limit (window_of codec fetch page_size concurrency)
            (size_of codec fetch page_size) start (window_positive page_size concurrency)
            (omega arith)
          ∙ sym (pull_loop-sequential limit limit 1 0 start (omega arith) (omega arith)))
