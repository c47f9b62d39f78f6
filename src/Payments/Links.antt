-- ===== src/Payments/Links.antt =====
-- src/bims_shopify/application/payments.py (CreatePaymentLink, given an audit log) and the part of
-- domain/bancard_vpos.py and adapters/persistence/payment_intent_repository.py that it stands on.
-- The provider's answers are the fields of `Provider`; `parse_int` is Python's `int` of a text.
pub mod Attempts
pub mod Saved
use bims_shopify.Base.{
  ℕ, suc, ◌+◌, ◌-◌, ◌*◌, ◌/◌, ◌%◌, ◌^◌, String, Bool, true, false, not, ◌&&◌, ◌||◌, ◌==◌, Option,
  none, some, List, [], ◌∷◌, select, if◌then◌else◌, str_eq, ltb, leb, ℤ, pos, negsuc, Result, ok,
  err, ◌>>=◌,
}
use bims_shopify.Payments.{
  PaymentIntent, IntentRow, Store, is_intent_of, one_intent, text_or, has_text,
}

-- `MAX_ATTEMPT`
abbrev pub max_attempt : ℕ
max_attempt = 99

-- `VposAmount.from_order_total`, in cents, rounded half up; the amount is in units of 10⁻⁹.
unfoldable pub vpos_cents : ℤ → Result String ℕ
vpos_cents (negsuc n) = err "VposInvalidAmountError"
vpos_cents (pos n) =
    let cents = (n + 5000000) / 10000000 in
    if (cents == 0) || leb (10 ^ 15) cents then err "VposInvalidAmountError" else ok cents

-- `_same_amount`: the error of an amount is no ValueError, so it is not caught.
unfoldable pub same_amount : ℤ → ℤ → Result String Bool
unfolding vpos_cents
same_amount stored live = do a ← vpos_cents stored; b ← vpos_cents live; ok (a == b)

-- Python's `n % 100`.
abbrev mod_100 : ℤ → ℕ
mod_100 (pos n) = n % 100
mod_100 (negsuc n) = 99 - n % 100

abbrev pub mod_or_zero : Option ℤ → ℕ
mod_or_zero none = 0
mod_or_zero (some n) = mod_100 n

-- `_attempt_of`
unfoldable pub attempt_of : (String → Option ℤ) → PaymentIntent → ℕ
attempt_of parse_int intent = mod_or_zero (parse_int (text_or intent.provider_reference "0"))

abbrev pub present : Option String → Bool
present t = has_text (text_or t "")

-- What `_run_with_attempts` decides before it calls the provider.
pub data Choice : Type 0 where
  reuse : PaymentIntent → Choice
  mint : ℕ → Option PaymentIntent → Choice

-- The next attempt, after `old`.
unfoldable pub next_attempt : ℕ → PaymentIntent → Result String Choice
next_attempt attempt old =
    if leb max_attempt attempt
    then err "VposAttemptsExhaustedError"
    else ok (mint (suc attempt) (some old))

abbrev pub keep_or_next : ℕ → PaymentIntent → Bool → Result String Choice
keep_or_next attempt old true = ok (reuse old)
keep_or_next attempt old false = next_attempt attempt old

-- A pending intent with a reference and a link.
unfoldable pub choose_pending : ℕ → PaymentIntent → ℤ → Result String Choice
unfolding same_amount next_attempt
choose_pending attempt old amount = elim (present old.process_id) [
  | false ↦ next_attempt attempt old
  | true ↦ elim (same_amount old.amount amount) [
    | err e ↦ err e
    | ok same ↦ keep_or_next attempt old same
  ]
]

unfoldable pub choose_existing : ℕ → PaymentIntent → ℤ → Result String Choice
unfolding choose_pending next_attempt
choose_existing attempt old amount =
    if str_eq old.status "paid"
    then ok (reuse old)
    else if str_eq old.status "pending"
    then if present old.provider_reference && present old.checkout_url
      then choose_pending attempt old amount
      else ok (mint attempt none)
    else if str_eq old.status "failed" || str_eq old.status "cancelled"
    then next_attempt attempt old
    else ok (mint attempt none)

unfoldable pub choose : (String → Option ℤ) → Option PaymentIntent → ℤ → Result String Choice
unfolding attempt_of choose_existing
choose parse_int none amount = ok (mint 0 none)
choose parse_int (some old) amount = choose_existing (attempt_of parse_int old) old amount

-- `get_by_order_id`
unfoldable pub get_by_order_id :
    ℕ → String → String → List IntentRow → Result String (Option PaymentIntent)
get_by_order_id tenant_id provider order_id rows =
    one_intent (select (is_intent_of tenant_id provider order_id) rows)

abbrev pub new_row : ℕ → ℕ → String → PaymentIntent → IntentRow
new_row id tenant_id provider intent = record {
  id = id;
  tenant_id = tenant_id;
  provider = provider;
  intent = record intent { tenant_slug = ""; order_metafields = [] };
}

-- `save` on the rows: the row of the order is replaced in place, or added under the next id.
unfoldable pub upsert : ℕ → ℕ → String → PaymentIntent → List IntentRow → (ℕ × ℕ) × List IntentRow
upsert next_id tenant_id provider intent [] =
    ((next_id, suc next_id), new_row next_id tenant_id provider intent ∷ [])
upsert next_id tenant_id provider intent (r ∷ rs) =
    let rest = upsert next_id tenant_id provider intent rs in
    if is_intent_of tenant_id provider intent.order_id r
    then ((r.id, next_id), new_row r.id tenant_id provider intent ∷ rs)
    else (rest.0, r ∷ rest.1)

-- `save`: the row id that the intent gets, and the store.
unfoldable pub save : ℕ → String → PaymentIntent → Store → ℕ × Store
unfolding upsert
save tenant_id provider intent s =
    let ((id, next), rows) = upsert s.next_id tenant_id provider intent s.intents in
    (id, record s { intents = rows; next_id = next })

-- What the provider answers; the pair is the row and the attempt, where it supports attempts.
pub record Provider : Type 0 where
  pub name : String
  pub supports_attempts : Bool
  pub prepare_link : String → ℤ → String → Result String PaymentIntent
  pub create_checkout : String → ℤ → String → Option (ℕ × ℕ) → Result String PaymentIntent
  pub audit_log : Result String Bool

module _ (p : Provider) (parse_int : String → Option ℤ) (tenant_id : ℕ) (order_id : String)
    (amount : ℤ) (currency : String) where
  -- The `save` and the `return`.
  unfoldable pub save_intent :
      Result String PaymentIntent → Store → Result String PaymentIntent × Store
  unfolding save
  save_intent (err e) s = (err e, s)
  save_intent (ok intent) s =
      let (id, s') = save tenant_id p.name intent s in (ok (record intent { row_id = some id }), s')

  unfoldable pub prepare_found :
      Result String (Option PaymentIntent) → Store → Result String PaymentIntent × Store
  unfolding save_intent
  prepare_found (err e) s = (err e, s)
  prepare_found (ok (some existing)) s = (ok existing, s)
  prepare_found (ok none) s = save_intent (p.prepare_link order_id amount currency) s

  unfoldable pub prepare : Store → Result String PaymentIntent × Store
  unfolding get_by_order_id prepare_found
  prepare s = prepare_found (get_by_order_id tenant_id p.name order_id s.intents) s

  -- The audit entry of a retry, which can fail after the intent is saved.
  unfoldable pub audit_retry :
      Option PaymentIntent
      → Result String PaymentIntent × Store
      → Result String PaymentIntent × Store
  audit_retry none out = out
  audit_retry (some old) (err e, s) = (err e, s)
  audit_retry (some old) (ok intent, s) = elim p.audit_log [
    | err e ↦ (err e, s)
    | ok _ ↦ (ok intent, record s { audits = order_id ∷ s.audits })
  ]

  -- `create_checkout` and what follows it.
  unfoldable pub checkout :
      ℕ → Option PaymentIntent → ℕ → Store → Result String PaymentIntent × Store
  unfolding save_intent audit_retry
  checkout attempt old row s =
      let out = p.create_checkout order_id amount currency (some (row, attempt)) in
      elim out [
        | err e ↦ (err e, s)
        | ok intent ↦
            audit_retry old
              (save_intent (ok intent) (record s { minted = (row, attempt) ∷ s.minted }))
      ]

  abbrev after_ensure :
      ℕ
      → Option PaymentIntent
      → Result String PaymentIntent × Store
      → Result String PaymentIntent × Store
  after_ensure attempt old (err e, s) = (err e, s)
  after_ensure attempt old (ok placeholder, s) = elim placeholder.row_id [
    | none ↦ (err "RuntimeError", s)
    | some row ↦ checkout attempt old row s
  ]

  -- The row is that of the existing intent, or of a placeholder (`_ensure_row`).
  unfoldable pub checkout_row :
      ℕ → Option PaymentIntent → Option ℕ → Store → Result String PaymentIntent × Store
  unfolding checkout save_intent
  checkout_row attempt old (some row) s = checkout attempt old row s
  checkout_row attempt old none s =
      after_ensure attempt old (save_intent (p.prepare_link order_id amount currency) s)

  -- `abandon_attempt`, whose outcome never blocks the retry.
  abbrev abandon_old : Option PaymentIntent → Store → Store
  abandon_old none s = s
  abandon_old (some old) s = record s { abandoned = old ∷ s.abandoned }

  abbrev row_of : Option PaymentIntent → Option ℕ
  row_of none = none
  row_of (some existing) = existing.row_id

  unfoldable pub carry_out :
      Option PaymentIntent → Result String Choice → Store → Result String PaymentIntent × Store
  unfolding checkout_row
  carry_out existing (err e) s = (err e, s)
  carry_out existing (ok (reuse intent)) s = (ok intent, s)
  carry_out existing (ok (mint attempt old)) s =
      checkout_row attempt old (row_of existing) (abandon_old old s)

  -- The rest of `run`, given the lookup.
  unfoldable pub run_found :
      Result String (Option PaymentIntent) → Store → Result String PaymentIntent × Store
  unfolding choose carry_out save_intent
  run_found (err e) s = (err e, s)
  run_found (ok existing) s = elim p.supports_attempts [
    | true ↦ carry_out existing (choose parse_int existing amount) s
    | false ↦ elim existing [
      | none ↦ save_intent (p.create_checkout order_id amount currency none) s
      | some e ↦
          if present e.checkout_url
          then (ok e, s)
          else save_intent (p.create_checkout order_id amount currency none) s
    ]
  ]

  -- `CreatePaymentLink.run`
  unfoldable pub create_link : Store → Result String PaymentIntent × Store
  unfolding get_by_order_id run_found
  create_link s = run_found (get_by_order_id tenant_id p.name order_id s.intents) s
