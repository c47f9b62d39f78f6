-- ===== src/Base/Chunks.antt =====
-- A list cut into slices of one size, as both batch writers do.
use Prim.Native.Nat.{ℕ, zero, suc, ◌≤◌, ◌<◌}
use mathlib.Core.Path.{◌≡◌, refl}
use mathlib.Core.List.{List, [], ◌∷◌, ◌++◌}
use native.Mathlib.Omega.{arith}
use bims_shopify.Base.Lists.{length, take, drop, length-drop, take-append-drop, length-take, All}

-- `_chunks`, and the slices of `push_in_batches`; the fuel is the number of items, since each chunk of a positive size takes one.
unfoldable pub chunks_fuel {ℓ} : {A : Type ℓ} → ℕ → ℕ → List A → List (List A)
chunks_fuel zero size items = []
chunks_fuel (suc n) size [] = []
chunks_fuel (suc n) size (x ∷ xs) = take size (x ∷ xs) ∷ chunks_fuel n size (drop size (x ∷ xs))

abbrev pub chunks {ℓ} : {A : Type ℓ} → ℕ → List A → List (List A)
chunks size items = chunks_fuel (length items) size items

abbrev pub flatten {ℓ} : {A : Type ℓ} → List (List A) → List A
flatten [] = []
flatten (xs ∷ xss) = xs ++ flatten xss

flatten-chunks_fuel {ℓ} :
    {A : Type ℓ} (n size : ℕ) (xs : List A)
    → 0 < size
    → length xs ≤ n
    → flatten (chunks_fuel n size xs) ≡ xs
unfolding chunks_fuel
flatten-chunks_fuel zero size [] p h = refl
flatten-chunks_fuel zero size (x ∷ xs) p h = absurd (omega arith)
flatten-chunks_fuel (suc n) size [] p h = refl
flatten-chunks_fuel (suc n) size (x ∷ xs) p h =
    rw
      (flatten-chunks_fuel n size (drop size (x ∷ xs)) p (omega (arith, length-drop size (x ∷ xs))))
      (take-append-drop size (x ∷ xs))

-- Cutting into chunks of a positive size loses and repeats nothing.
pub flatten-chunks {ℓ} :
    {A : Type ℓ} (size : ℕ) (xs : List A) → 0 < size → flatten (chunks size xs) ≡ xs
flatten-chunks size xs p = flatten-chunks_fuel (length xs) size xs p (omega arith)

pub chunks_fuel-All {ℓ} :
    {A : Type ℓ} (n size : ℕ) (xs : List A) → All (λ c. length c ≤ size) (chunks_fuel n size xs)
unfolding chunks_fuel
chunks_fuel-All zero size xs = tt
chunks_fuel-All (suc n) size [] = tt
chunks_fuel-All (suc n) size (x ∷ xs) =
    (omega (arith, length-take size (x ∷ xs)), chunks_fuel-All n size (drop size (x ∷ xs)))

pub chunks_fuel-nonempty {ℓ} :
    {A : Type ℓ} (n size : ℕ) (xs : List A)
    → 0 < size
    → All (λ c. 1 ≤ length c) (chunks_fuel n size xs)
unfolding chunks_fuel
chunks_fuel-nonempty zero size xs p = tt
chunks_fuel-nonempty (suc n) size [] p = tt
chunks_fuel-nonempty (suc n) size (x ∷ xs) p =
    (omega (arith, length-take size (x ∷ xs)), chunks_fuel-nonempty n size (drop size (x ∷ xs)) p)
