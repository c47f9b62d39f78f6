-- ===== src/Sales/Once.antt =====
-- src/bims_shopify/application/process_shopify_order.py: a run ends, and books its sale once.
use bims_shopify.Base.{
  ℕ, zero, suc, ◌+◌, ◌-◌, ◌≤◌, ◌<◌, max, String, Bool, true, false, leb, length, Result, ok, err,
  Bool-cases, ◌≡◌, ◌⊎◌, refl, arith, inl, inr,
}
use bims_shopify.Sales.{
  SaleResultKind, success, deadlock_retryable, unconfirmed, SaleResult, Verification, Erp, Ending,
  returned, max_retries_exceeded, raised, running, Run, retry, after_verify, after_kind,
  after_create, rounds, process_order,
}

-- BIMS holds the sale after the n-th attempt: from before the run, or booked by an attempt up to it.
abbrev pub Held : Bool → (ℕ → Bool) → ℕ → Type 0
Held before booked n = (before ≡ true) ⊎ ((m : ℕ) × ((1 ≤ m) × ((m ≤ n) × (booked m ≡ true))))

-- What BIMS documents of its answers to the n-th attempt, `booked n` telling whether it booked the
-- sale: after a success BIMS holds the sale, which this attempt booked or an earlier one, whose
-- answer is replayed; a deadlock did not book; and the check after an unconfirmed attempt tells
-- whether BIMS holds the sale.
abbrev pub Documented : Erp → Bool → (ℕ → Bool) → Type 0
Documented erp before booked =
    (n : ℕ)
    → ((r : SaleResult)
        → erp.create_or_update_sale n ≡ ok r
        → r.kind ≡ success
        → Held before booked n)
      × (((r : SaleResult)
            → erp.create_or_update_sale n ≡ ok r
            → r.kind ≡ deadlock_retryable
            → booked n ≡ false)
          × ((v : Verification)
              → erp.verify_sale_synced n ≡ ok v
              → (v.already_synced ≡ true → Held before booked n)
                × (v.already_synced ≡ false → Held before booked n → ⊥)))

abbrev pub is_returned : Ending → Bool
is_returned (returned r) = true
is_returned (max_retries_exceeded n) = false
is_returned (raised e) = false
is_returned running = false

abbrev pub is_raised : Ending → Bool
is_raised (returned r) = false
is_raised (max_retries_exceeded n) = false
is_raised (raised e) = true
is_raised running = false

abbrev pub is_cut : Ending → Bool
is_cut (returned r) = false
is_cut (max_retries_exceeded n) = false
is_cut (raised e) = false
is_cut running = true

module _ (erp : Erp) (max_retries : ℕ) where
  -- A run that is not cut off and is short enough.
  abbrev Ends : ℕ → Run → Type 0
  Ends bound r = (is_cut r.ending ≡ false) × (length r.attempts ≤ bound)

  retry-Ends :
      (attempt bound : ℕ) (rest : Run)
      → (attempt < max_retries → Ends bound rest)
      → Ends bound (retry erp max_retries attempt rest)
  retry-Ends attempt bound rest h = elim (Bool-cases (leb max_retries attempt)) [
    | inl e ↦ rw e (refl, omega arith)
    | inr e ↦ rw e (h (ground (arith, e)))
  ]

  after_verify-Ends :
      (attempt bound : ℕ) (v : Result String Verification) (rest : Run)
      → (attempt < max_retries → Ends bound rest)
      → Ends bound (after_verify erp max_retries attempt v rest)
  after_verify-Ends attempt bound (err e) rest h = (refl, omega arith)
  after_verify-Ends attempt bound (ok v) rest h = elim (Bool-cases v.already_synced) [
    | inl e ↦ rw e (refl, omega arith)
    | inr e ↦ rw e (retry-Ends attempt bound rest h)
  ]

  after_kind-Ends :
      (attempt bound : ℕ) (r : SaleResult) (k : SaleResultKind) (rest : Run)
      → (attempt < max_retries → Ends bound rest)
      → Ends bound (after_kind erp max_retries attempt r k rest)
  after_kind-Ends attempt bound r success rest h = (refl, omega arith)
  after_kind-Ends attempt bound r deadlock_retryable rest h = retry-Ends attempt bound rest h
  after_kind-Ends attempt bound r unconfirmed rest h =
      after_verify-Ends attempt bound (erp.verify_sale_synced attempt) rest h

  after_create-Ends :
      (attempt bound : ℕ) (o : Result String SaleResult) (rest : Run)
      → (attempt < max_retries → Ends bound rest)
      → Ends bound (after_create erp max_retries attempt o rest)
  after_create-Ends attempt bound (err e) rest h = (refl, omega arith)
  after_create-Ends attempt bound (ok r) rest h = after_kind-Ends attempt bound r r.kind rest h

  rounds-Ends :
      (n attempt : ℕ)
      → max_retries < attempt + n
      → 1 ≤ n
      → Ends (max 1 (max_retries + 1 - attempt)) (rounds erp max_retries n attempt)
  unfolding rounds
  rounds-Ends zero attempt h k = absurd (omega (arith, k))
  rounds-Ends (suc n) attempt h k =
      let e =
        after_create-Ends attempt (max_retries - attempt) (erp.create_or_update_sale attempt)
          (rounds erp max_retries n (attempt + 1))
          (λ l.
            let r = rounds-Ends n (attempt + 1) (omega (arith, h)) (omega (arith, h, l)) in
            (r.0, omega (arith, r.1, l))) in
      (e.0, omega (arith, e.1))

  -- Whatever BIMS answers, a run ends by itself, after at most `max_retries` submissions or one.
  pub process_order_ends :
      (is_cut (process_order erp max_retries).ending ≡ false)
      × (length (process_order erp max_retries).attempts ≤ max 1 max_retries)
  unfolding process_order
  process_order_ends =
      let e = rounds-Ends (max_retries + 1) 1 (omega arith) (omega arith) in
      (e.0, omega (arith, e.1))
