-- ===== src/Sales/Booking.antt =====
-- src/bims_shopify/application/process_shopify_order.py: a run books its sale at most once.
use bims_shopify.Base.{ℕ, ◌≤◌, Bool, true, false, count, ◌≡◌, ◌<◌, ◌⊎◌}
use bims_shopify.Sales.Once.{Documented, is_returned, is_raised}
use bims_shopify.Sales.{Erp, Run}

-- No attempt of the run before this one booked the sale.
abbrev pub Unbooked : (ℕ → Bool) → ℕ → Type 0
Unbooked booked attempt = (m : ℕ) → 1 ≤ m → m < attempt → booked m ≡ false

module _ (erp : Erp) (max_retries : ℕ) (before : Bool) (booked : ℕ → Bool)
    (d : Documented erp before booked) where
  -- At most one of the attempts booked; the sale was there before or one did when the run returns,
  -- and none did when it gave up.
  abbrev pub Books : Run → Type 0
  Books r =
      (count booked r.attempts ≤ 1)
      × ((is_returned r.ending ≡ true → (before ≡ true) ⊎ (count booked r.attempts ≡ 1))
          × (is_returned r.ending ≡ false
              → is_raised r.ending ≡ false
              → count booked r.attempts ≡ 0))
