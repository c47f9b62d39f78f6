-- ===== src/Base/Tables.antt =====
-- Database tables as lists of rows: the rows of one owner, and the deletion of the rows of some.
use Prim.Native.Nat.{ℕ, ◌≤◌, ◌<◌}
use mathlib.Core.Path.{◌≡◌, refl, ap}
use mathlib.Core.Logic.{◌≢◌, inl, inr}
use mathlib.Core.Bool.{Bool, true, false}
use mathlib.Core.List.{List, [], ◌∷◌, ◌++◌, append-nil}
use native.Mathlib.Omega.{arith}
use bims_shopify.Base.Tests.{◌==◌, if◌then◌else◌, Bool-cases}
use bims_shopify.Base.Lists.{All, select, count, length}

-- `n in ns`
abbrev pub mem_ℕ : ℕ → List ℕ → Bool
mem_ℕ n [] = false
mem_ℕ n (m ∷ ms) = if m == n then true else mem_ℕ n ms

module _ {A : Type 0} where
  -- `SELECT ... WHERE owner = id`
  unfoldable pub values : ℕ → List (ℕ × A) → List A
  values id [] = []
  values id ((j, x) ∷ rows) = if j == id then x ∷ values id rows else values id rows

  -- `DELETE ... WHERE owner IN (ids)`
  unfoldable pub without : List ℕ → List (ℕ × A) → List (ℕ × A)
  without ids [] = []
  without ids ((j, x) ∷ rows) = if mem_ℕ j ids then without ids rows else (j, x) ∷ without ids rows

  -- The rows that an insert adds for one owner.
  unfoldable pub tag : ℕ → List A → List (ℕ × A)
  tag id [] = []
  tag id (x ∷ xs) = (id, x) ∷ tag id xs

  pub tag-append : (id : ℕ) (xs ys : List A) → tag id (xs ++ ys) ≡ tag id xs ++ tag id ys
  unfolding tag
  tag-append id [] ys = refl
  tag-append id (x ∷ xs) ys = ap (λ r. (id, x) ∷ r) (tag-append id xs ys)

  pub values-append :
      (id : ℕ) (xs ys : List (ℕ × A)) → values id (xs ++ ys) ≡ values id xs ++ values id ys
  unfolding values
  values-append id [] ys = refl
  values-append id ((j, x) ∷ xs) ys = ground (arith, values-append id xs ys)

  pub values-tag_self : (id : ℕ) (xs : List A) → values id (tag id xs) ≡ xs
  unfolding values tag
  values-tag_self id [] = refl
  values-tag_self id (x ∷ xs) = ground (arith, values-tag_self id xs)

  pub values-tag_ne : (id j : ℕ) (xs : List A) → j ≢ id → values id (tag j xs) ≡ []
  unfolding values tag
  values-tag_ne id j [] h = refl
  values-tag_ne id j (x ∷ xs) h = ground (arith, values-tag_ne id j xs h)

  -- The rows that are inserted for one owner are not those of another.
  pub values_other :
      (id j : ℕ) (rows : List (ℕ × A)) (xs : List A)
      → j ≢ id
      → values id (rows ++ tag j xs) ≡ values id rows
  values_other id j rows xs h = simp (values-append, values-tag_ne id j xs h, append-nil)

  pub values-without :
      (id : ℕ) (ids : List ℕ) (rows : List (ℕ × A))
      → mem_ℕ id ids ≡ false
      → values id (without ids rows) ≡ values id rows
  unfolding values without
  values-without id ids [] h = refl
  values-without id ids ((j, x) ∷ rows) h = ground (arith, values-without id ids rows h)

  -- Every owner is below a bound.
  abbrev pub KeysBelow : ℕ → List (ℕ × A) → Type 0
  KeysBelow n [] = Unit
  KeysBelow n ((j, x) ∷ rows) = (j < n) × KeysBelow n rows

  pub values_fresh : (id : ℕ) (rows : List (ℕ × A)) → KeysBelow id rows → values id rows ≡ []
  unfolding values
  values_fresh id [] h = refl
  values_fresh id ((j, x) ∷ rows) h = ground (arith, values_fresh id rows h.1)

  pub KeysBelow-mono : (n m : ℕ) (rows : List (ℕ × A)) → KeysBelow n rows → n ≤ m → KeysBelow m rows
  KeysBelow-mono n m [] h le = tt
  KeysBelow-mono n m ((j, x) ∷ rows) h le = (omega arith, KeysBelow-mono n m rows h.1 le)

  pub without-KeysBelow :
      (n : ℕ) (ids : List ℕ) (rows : List (ℕ × A))
      → KeysBelow n rows
      → KeysBelow n (without ids rows)
  unfolding without
  without-KeysBelow n ids [] h = tt
  without-KeysBelow n ids ((j, x) ∷ rows) h = ground (arith, without-KeysBelow n ids rows h.1)

  pub tag-KeysBelow : (n id : ℕ) (xs : List A) → id < n → KeysBelow n (tag id xs)
  unfolding tag
  tag-KeysBelow n id [] h = tt
  tag-KeysBelow n id (x ∷ xs) h = (h, tag-KeysBelow n id xs h)

  pub append-KeysBelow :
      (n : ℕ) (xs ys : List (ℕ × A)) → KeysBelow n xs → KeysBelow n ys → KeysBelow n (xs ++ ys)
  append-KeysBelow n [] ys h k = k
  append-KeysBelow n ((j, x) ∷ xs) ys h k = (h.0, append-KeysBelow n xs ys h.1 k)

module _ {ℓ} {A : Type ℓ} where
  pub select-append :
      (p : A → Bool) (xs ys : List A) → select p (xs ++ ys) ≡ select p xs ++ select p ys
  select-append p [] ys = refl
  select-append p (x ∷ xs) ys = ground (arith, select-append p xs ys)

  pub select_comm : (p q : A → Bool) (xs : List A) → select p (select q xs) ≡ select q (select p xs)
  select_comm p q [] = refl
  select_comm p q (x ∷ xs) = ground (arith, select_comm p q xs)

  -- A selection by `p` after a weaker one.
  pub select-select :
      (p q : A → Bool) (xs : List A)
      → ((x : A) → p x ≡ true → q x ≡ true)
      → select p (select q xs) ≡ select p xs
  select-select p q [] h = refl
  select-select p q (x ∷ xs) h = ground (arith, h x, select-select p q xs h)

  -- A selection that keeps all that is listed.
  pub select-true : (p : A → Bool) (xs : List A) → All (λ x. p x ≡ true) xs → select p xs ≡ xs
  select-true p [] h = refl
  select-true p (x ∷ xs) h = rw h.0 (ap (λ r. x ∷ r) (select-true p xs h.1))

  pub length-select : (p : A → Bool) (xs : List A) → length (select p xs) ≡ count p xs
  length-select p [] = refl
  length-select p (x ∷ xs) = ground (arith, length-select p xs)

  pub count-select-le : (p q : A → Bool) (xs : List A) → count q (select p xs) ≤ count q xs
  count-select-le p q [] = omega arith
  count-select-le p q (x ∷ xs) = ground (arith, count-select-le p q xs)

module _ {ℓ} {A : Type ℓ} (P : A → Type 0) where
  pub select-All : (p : A → Bool) (xs : List A) → All P xs → All P (select p xs)
  select-All p [] a = tt
  select-All p (x ∷ xs) a = elim (Bool-cases (p x)) [
    | inl e ↦ rw e (a.0, select-All p xs a.1)
    | inr e ↦ rw e (select-All p xs a.1)
  ]

  -- What holds of the rows that meet `p` holds of the selection by `p`.
  pub selected-All :
      (p : A → Bool) (xs : List A) → All (λ x. p x ≡ true → P x) xs → All P (select p xs)
  selected-All p [] a = tt
  selected-All p (x ∷ xs) a = elim (Bool-cases (p x)) [
    | inl e ↦ rw e (a.0 e, selected-All p xs a.1)
    | inr e ↦ rw e (selected-All p xs a.1)
  ]
