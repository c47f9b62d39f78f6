-- ===== src/Generations/Ids.antt =====
-- Lemmas on the tables: ids fall along the table of generations, so an update or a deletion by the
-- ids of a selection acts on exactly the rows of that selection.
use bims_shopify.Base.{
  ℕ, ◌≤◌, ◌<◌, ◌≡◌, refl, ap, sym, subst, inl, inr, Bool, true, false, List, [], ◌∷◌, arith, mem_ℕ,
  All, count, select, Bool-cases,
}
use bims_shopify.Generations.Tables.{Generation, update_where, ids_where}

-- The ids are below `n` and fall.
abbrev pub Descending : ℕ → List Generation → Type 0
Descending n [] = Unit
Descending n (g ∷ gs) = (g.id < n) × Descending g.id gs

pub Descending-mono : (n m : ℕ) (gs : List Generation) → Descending n gs → n ≤ m → Descending m gs
Descending-mono n m [] d h = tt
Descending-mono n m (g ∷ gs) d h = (omega arith, d.1)

pub Descending-All : (n : ℕ) (gs : List Generation) → Descending n gs → All (λ g. g.id < n) gs
Descending-All n [] d = tt
Descending-All n (g ∷ gs) d =
    (d.0, Descending-All n gs (Descending-mono g.id n gs d.1 (omega arith)))

pub select-Descending :
    (p : Generation → Bool) (n : ℕ) (gs : List Generation)
    → Descending n gs
    → Descending n (select p gs)
select-Descending p n [] d = tt
select-Descending p n (g ∷ gs) d = elim (Bool-cases (p g)) [
  | inl e ↦ rw e (d.0, select-Descending p g.id gs d.1)
  | inr e ↦ rw e (select-Descending p n gs (Descending-mono g.id n gs d.1 (omega arith)))
]

module _ (p : Generation → Bool) where
  pub mem_above :
      (n m : ℕ) (gs : List Generation) → Descending n gs → n ≤ m → mem_ℕ m (ids_where p gs) ≡ false
  unfolding ids_where
  mem_above n m [] d h = refl
  mem_above n m (g ∷ gs) d h = ground (arith, mem_above g.id m gs d.1)

  ids_where_hit :
      (g : Generation) (gs : List Generation)
      → p g ≡ true
      → ids_where p (g ∷ gs) ≡ g.id ∷ ids_where p gs
  unfolding ids_where
  ids_where_hit g gs e = rw e

  ids_where_miss :
      (g : Generation) (gs : List Generation) → p g ≡ false → ids_where p (g ∷ gs) ≡ ids_where p gs
  unfolding ids_where
  ids_where_miss g gs e = rw e

  pub disjoint_ids_skip :
      (q : Generation → Bool) (n m : ℕ) (ids : List ℕ) (gs : List Generation)
      → Descending n gs
      → n ≤ m
      → All (λ g. q g ≡ true → mem_ℕ g.id ids ≡ false) gs
      → All (λ g. q g ≡ true → mem_ℕ g.id (m ∷ ids) ≡ false) gs
  disjoint_ids_skip q n m ids [] d h a = tt
  disjoint_ids_skip q n m ids (g ∷ gs) d h a =
      ((λ t. ground (arith, a.0 t)), disjoint_ids_skip q g.id m ids gs d.1 (omega arith) a.1)

  pub disjoint_ids :
      (q : Generation → Bool) (n : ℕ) (gs : List Generation)
      → Descending n gs
      → All (λ g. q g ≡ true → p g ≡ false) gs
      → All (λ g. q g ≡ true → mem_ℕ g.id (ids_where p gs) ≡ false) gs
  unfolding ids_where
  disjoint_ids q n [] d a = tt
  disjoint_ids q n (g ∷ gs) d a = elim (Bool-cases (p g)) [
    | inl e ↦ subst (Avoids (g ∷ gs)) (sym (ids_where_hit g gs e)) (
      (λ t. cc (a.0 t, e)),
      disjoint_ids_skip q g.id g.id (ids_where p gs) gs d.1 (omega arith)
          (disjoint_ids q g.id gs d.1 a.1),
    )
    | inr e ↦
        subst (Avoids (g ∷ gs)) (sym (ids_where_miss g gs e))
          ((λ _. mem_above g.id g.id gs d.1 (omega arith)), disjoint_ids q g.id gs d.1 a.1)
  ]
    where
      Avoids : List Generation → List ℕ → Type 0
      Avoids hs ids = All (λ h. q h ≡ true → mem_ℕ h.id ids ≡ false) hs

module _ (f : Generation → Generation) where
  update_skip :
      (n m : ℕ) (ids : List ℕ) (gs : List Generation)
      → Descending n gs
      → n ≤ m
      → update_where (λ g. mem_ℕ g.id (m ∷ ids)) f gs ≡ update_where (λ g. mem_ℕ g.id ids) f gs
  unfolding update_where
  update_skip n m ids [] d h = refl
  update_skip n m ids (g ∷ gs) d h = ground (arith, update_skip g.id m ids gs d.1)

  -- An update by the ids of a selection is an update of that selection.
  pub update_ids :
      (p : Generation → Bool) (n : ℕ) (gs : List Generation)
      → Descending n gs
      → update_where (λ g. mem_ℕ g.id (ids_where p gs)) f gs ≡ update_where p f gs
  unfolding update_where ids_where
  update_ids p n [] d = refl
  update_ids p n (g ∷ gs) d = ground (
    arith,
    update_ids p g.id gs d.1,
    update_skip g.id g.id (ids_where p gs) gs d.1,
    mem_above p g.id g.id gs d.1,
  )

  pub update-Descending :
      (p : Generation → Bool) (n : ℕ) (gs : List Generation)
      → ((g : Generation) → (f g).id ≡ g.id)
      → Descending n gs
      → Descending n (update_where p f gs)
  unfolding update_where
  update-Descending p n [] same d = tt
  update-Descending p n (g ∷ gs) same d =
      ground (arith, same g, update-Descending p g.id gs same d.1)

  pub update-All :
      (P : Generation → Type 0) (p : Generation → Bool) (gs : List Generation)
      → All P gs
      → All (λ g. p g ≡ true → P (f g)) gs
      → All P (update_where p f gs)
  unfolding update_where
  update-All P p [] a k = tt
  update-All P p (g ∷ gs) a k = elim (Bool-cases (p g)) [
    | inl e ↦ rw e (k.0 e, update-All P p gs a.1 k.1)
    | inr e ↦ rw e (a.0, update-All P p gs a.1 k.1)
  ]

  -- An update that makes no row meet `q` anew leaves no more of them.
  pub count-update-le :
      (p q : Generation → Bool) (gs : List Generation)
      → All (λ g. p g ≡ true → q (f g) ≡ true → q g ≡ true) gs
      → count q (update_where p f gs) ≤ count q gs
  unfolding update_where
  count-update-le p q [] k = omega arith
  count-update-le p q (g ∷ gs) k = ground (arith, count-update-le p q gs k.1, k.0)

  -- An update that keeps `q`, and the rows that meet it, leaves the selection as it is.
  pub select-update :
      (p q : Generation → Bool) (gs : List Generation)
      → All (λ g. p g ≡ true → (q g ≡ false) × (q (f g) ≡ false)) gs
      → select q (update_where p f gs) ≡ select q gs
  unfolding update_where
  select-update p q [] k = refl
  select-update p q (g ∷ gs) k = elim (Bool-cases (p g)) [
    | inl e ↦ let (before, after) = k.0 e in rw (e, before, after) (select-update p q gs k.1)
    | inr e ↦ rw e (elim (Bool-cases (q g)) [
      | inl t ↦ rw t (ap (λ r. g ∷ r) (select-update p q gs k.1))
      | inr t ↦ rw t (select-update p q gs k.1)
    ])
  ]
