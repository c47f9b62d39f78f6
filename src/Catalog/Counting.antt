-- ===== src/Catalog/Counting.antt =====
-- Counting in the lists of the catalog: how often a text stands in a list, and in the parts of it.
use bims_shopify.Base.{
  ℕ, ◌+◌, ◌≤◌, String, Bool, true, false, List, [], ◌∷◌, ◌++◌, count, any, str_eq, flatten, All,
  ◌≡◌, refl, arith,
}

module _ {ℓ} {A : Type ℓ} where
  pub count-append : (p : A → Bool) (xs ys : List A) → count p (xs ++ ys) ≡ count p xs + count p ys
  count-append p [] ys = omega arith
  count-append p (x ∷ xs) ys = ground (arith, count-append p xs ys)

  -- A part of a list has no more.
  pub count_part :
      (p : A → Bool) (n : ℕ) (xss : List (List A))
      → count p (flatten xss) ≤ n
      → All (λ xs. count p xs ≤ n) xss
  count_part p n [] h = tt
  count_part p n (xs ∷ xss) h =
      let e = count-append p xs (flatten xss) in
      (omega (arith, e, h), count_part p n xss (omega (arith, e, h)))

  pub any→count : (p : A → Bool) (xs : List A) → any p xs ≡ true → 1 ≤ count p xs
  any→count p [] h = ground arith
  any→count p (x ∷ xs) h = ground (arith, any→count p xs)

  pub none→count : (p : A → Bool) (xs : List A) → any p xs ≡ false → count p xs ≡ 0
  none→count p [] h = refl
  none→count p (x ∷ xs) h = ground (arith, none→count p xs)

-- How often a text stands in a list.
abbrev pub times : String → List String → ℕ
times s xs = count (λ t. str_eq t s) xs

pub times-append : (s : String) (xs ys : List String) → times s (xs ++ ys) ≡ times s xs + times s ys
times-append s xs ys = count-append (λ t. str_eq t s) xs ys

-- `s in xs`
abbrev pub mem : String → List String → Bool
mem s xs = any (λ t. str_eq t s) xs
