-- ===== src/Payments/Links/Attempts.antt =====
-- Which attempts a payment link may mint.
use bims_shopify.Base.{
  suc, ◌≤◌, String, ◌≡◌, ◌≢◌, ◌⊎◌, Bool, true, Option, none, some, ℤ, Result, ok, err,
}
use bims_shopify.Payments.Links.{Choice, reuse, mint, attempt_of, same_amount}

-- What stands behind each choice.
abbrev pub Justified : (String → Option ℤ) → ℤ → Result String Choice → Type 0
Justified parse_int amount (err e) = Unit
Justified parse_int amount (ok (reuse old)) =
    (old.status ≡ "paid") ⊎ ((old.status ≡ "pending") × (same_amount old.amount amount ≡ ok true))
Justified parse_int amount (ok (mint n none)) = n ≤ 99
Justified parse_int amount (ok (mint n (some old))) =
    (old.status ≢ "paid") × (n ≡ suc (attempt_of parse_int old)) × (n ≤ 99)
