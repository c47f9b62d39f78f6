-- ===== src/Inventory/Guard.antt =====
-- When the safety guard lets a write through.
use bims_shopify.Base.{
  ℕ, ◌*◌, ◌≤◌, ◌<◌, String, ◌≡◌, refl, ap, ◌↔◌, ◌⊎◌, inl, inr, Option, none, List, [], ◌∷◌, arith,
  length, ℤ, pos, negsuc, ok,
}
use bims_shopify.Values.{unit}
use bims_shopify.Snapshot.{Tenant}
use bims_shopify.Inventory.{
  InventoryDelta, zeroed, guard_verdict, check_safety_guard, max_zero_ratio, max_changed_variants,
}

-- At most the share `ratio` (in units of 10⁻⁹) of the variants is zeroed.
abbrev pub WithinRatio : ℕ → ℕ → ℤ → Type 0
WithinRatio zero_count matched (pos r) = zero_count * unit ≤ r * matched
WithinRatio zero_count matched (negsuc r) = ⊥

abbrev pub AtMost : ℕ → ℤ → Type 0
AtMost matched (pos m) = matched ≤ m
AtMost matched (negsuc m) = ⊥

-- Small runs are held only to the cap on changed variants, larger ones to the share of zero_count too.
abbrev pub Acceptable : ℤ → ℤ → List InventoryDelta → Type 0
Acceptable ratio changed resolved =
    ((length resolved < 25) ⊎ WithinRatio (zeroed resolved) (length resolved) ratio)
    × AtMost (length resolved) changed

guard_verdict_iff :
    (ratio changed : ℤ) (resolved : List InventoryDelta)
    → (guard_verdict ratio changed resolved ≡ none) ↔ Acceptable ratio changed resolved
unfolding guard_verdict
guard_verdict_iff (pos r) (pos m) resolved = ground arith
guard_verdict_iff (pos r) (negsuc m) resolved = ground arith
guard_verdict_iff (negsuc r) (pos m) resolved = ground arith
guard_verdict_iff (negsuc r) (negsuc m) resolved = ground arith

-- With the tenant's thresholds read, a run is let through exactly when it changes nothing, or it
-- changes at most the allowed number of variants and, from 25 variants on, zeroes at most the
-- allowed share of them.
pub check_safety_guard_iff :
    (parse_float parse_int : String → Option ℤ) (tenant : Tenant) (resolved : List InventoryDelta)
    {ratio changed : ℤ}
    → max_zero_ratio parse_float parse_int tenant ≡ ok ratio
    → max_changed_variants parse_float parse_int tenant ≡ ok changed
    → (check_safety_guard parse_float parse_int tenant resolved ≡ ok none)
      ↔ ((resolved ≡ []) ⊎ Acceptable ratio changed resolved)
unfolding check_safety_guard
check_safety_guard_iff parse_float parse_int tenant [] r m = ((λ _. inl refl), (λ _. refl))
check_safety_guard_iff parse_float parse_int tenant (d ∷ ds) {ratio} {changed} r m =
    rw (r, m)
      (
        (λ h. inr ((guard_verdict_iff ratio changed (d ∷ ds)).0 (cc))),
        elim [ inl e ↦ cc | inr a ↦ ap ok ((guard_verdict_iff ratio changed (d ∷ ds)).1 a) ],
      )
