-- ===== src/Payments/Once.antt =====
-- A payment is settled once, and what a failed call leaves.
use bims_shopify.Base.{
  ℕ, ◌≤◌, String, ◌≡◌, refl, inl, inr, Bool, true, false, ◌&&◌, List, [], ◌∷◌, any, count,
  Bool-cases, Result, ok, err, arith,
}
use bims_shopify.Payments.{
  Store, Answers, PaymentIntent, PaymentStatus, OrderMetafield, is_event, try_claim_event, reraise,
  add_mark, conclude, annotate_order, annotate_settled_order, pay_order, settle_callback,
  claimed_callback, handle_intent, handle_callback, settle_claimed, settle_with, settle_verified,
  text_or, with_status, has_text, resolve_order,
}
use bims_shopify.Payments.Claims.{
  is_mark, Once, opened, bit_le, opened-Once, add_mark-Once, annotate_order-kept,
  annotate_settled_order-kept, Sound, conclude-Sound, opened-Claims, release-Sound,
}

pay_order-Sound :
    (a : Answers) (t : ℕ) (x : String) (intent : PaymentIntent) (out : Result String Bool)
    (s : Store)
    → any (is_event t a.source x) s.events ≡ false
    → Once s
    → Sound a t s (pay_order a t x intent out (opened a t x s))
unfolding pay_order
pay_order-Sound a t x intent (err e) s absent o =
    release-Sound PaymentIntent a t x (reraise e a.claim_deleted) s absent o
pay_order-Sound a t x intent (ok b) s absent o =
    let paid = with_status "paid" intent in
    let marked = add_mark a t x paid (opened a t x s) in
    conclude-Sound a t x paid paid s marked (annotate_order a paid marked)
      (annotate_order-kept a paid marked) (add_mark-Once a t x paid s absent o)
      (opened-Claims a t x s absent)

-- A callback that concludes without marking the order.
unpaid_callback :
    (a : Answers) (t : ℕ) (x : String) (intent : PaymentIntent) (s : Store)
    → any (is_event t a.source x) s.events ≡ false
    → Once s
    → Sound a t s (conclude a t x intent intent (opened a t x s))
unpaid_callback a t x intent s absent o =
    conclude-Sound a t x intent intent s (opened a t x s) (opened a t x s) (refl, refl)
      (opened-Once a t x s o) (opened-Claims a t x s absent)

settle_callback-Sound :
    (a : Answers) (t : ℕ) (x : String) (intent : PaymentIntent)
    (out : Result String (PaymentStatus × List OrderMetafield)) (s : Store)
    → any (is_event t a.source x) s.events ≡ false
    → Once s
    → Sound a t s (settle_callback a t x intent out (opened a t x s))
unfolding settle_callback
settle_callback-Sound a t x intent (err e) s absent o =
    release-Sound PaymentIntent a t x (reraise e a.claim_deleted) s absent o
settle_callback-Sound a t x intent (ok (PaymentStatus.confirmed, fields)) s absent o =
    elim (Bool-cases (has_text intent.order_id)) [
      | inl e ↦
          rw e (
            pay_order-Sound a t x (record intent { order_metafields = fields }) a.marked s absent o)
      | inr e ↦ rw e (
          unpaid_callback a t x (with_status "failed" (record intent { order_metafields = fields }))
            s absent o)
    ]
settle_callback-Sound a t x intent (ok (PaymentStatus.pending, fields)) s absent o =
    unpaid_callback a t x (with_status "pending" (record intent { order_metafields = fields })) s
      absent o
settle_callback-Sound a t x intent (ok (PaymentStatus.failed, fields)) s absent o =
    unpaid_callback a t x (with_status "failed" (record intent { order_metafields = fields })) s
      absent o

handle_intent-Sound :
    (a : Answers) (t : ℕ) (intent : Result String PaymentIntent) (s : Store)
    → Once s
    → Sound a t s (handle_intent a t intent s)
unfolding handle_intent try_claim_event claimed_callback
handle_intent-Sound a t (err e) s o = (o, inl refl)
handle_intent-Sound a t (ok intent) s o =
    let x = text_or intent.provider_reference intent.order_id in
    elim (Bool-cases (any (is_event t a.source x) s.events)) [
      | inl e ↦ rw e o
      | inr e ↦ rw e (settle_callback-Sound a t x intent a.verified s e o)
    ]

-- A callback leaves every order marked as paid at most once under every claim, and only under
-- claims that have their event, if that was so before. When it raises, either the store is as it
-- was, so a redelivery starts afresh, or a write of its claim or its intent failed and the claim,
-- which was free, is held.
pub handle_callback-Sound :
    (a : Answers) (t : ℕ) (s : Store) → Once s → Sound a t s (handle_callback a t s)
unfolding handle_callback
handle_callback-Sound a t s o = go a.parsed
  where
    go :
        (p : Result String PaymentIntent)
        → Sound a t s (elim p as (λ _. Result String PaymentIntent × Store) [
          | err e ↦ (err e, s)
          | ok intent ↦ handle_intent a t (resolve_order a.provider t intent s.intents) s
        ])
    go (err e) = (o, inl refl)
    go (ok intent) = handle_intent-Sound a t (resolve_order a.provider t intent s.intents) s o

settle_claimed-Sound :
    (a : Answers) (t : ℕ) (x : String) (intent : PaymentIntent) (out : Result String Bool)
    (s : Store)
    → any (is_event t a.source x) s.events ≡ false
    → Once s
    → Sound a t s (settle_claimed a t x intent out (opened a t x s))
unfolding settle_claimed
settle_claimed-Sound a t x intent (err e) s absent o =
    release-Sound Bool a t x (reraise e a.claim_deleted) s absent o
settle_claimed-Sound a t x intent (ok b) s absent o =
    let paid = with_status "paid" intent in
    let marked = add_mark a t x paid (opened a t x s) in
    conclude-Sound a t x paid true s marked (annotate_settled_order a paid marked)
      (annotate_settled_order-kept a paid marked) (add_mark-Once a t x paid s absent o)
      (opened-Claims a t x s absent)

-- The same of a settlement.
pub settle_verified-Sound :
    (a : Answers) (t : ℕ) (intent : PaymentIntent) (s : Store)
    → Once s
    → Sound a t s (settle_verified a t intent s)
unfolding settle_verified try_claim_event settle_with
settle_verified-Sound a t intent s o =
    let x = text_or intent.provider_reference intent.order_id in
    elim (Bool-cases (has_text x && has_text intent.order_id)) [
      | inl h ↦ elim (Bool-cases (any (is_event t a.source x) s.events)) [
        | inl e ↦ rw (h, e) o
        | inr e ↦ rw (h, e) (settle_claimed-Sound a t x intent a.marked s e o)
      ]
      | inr h ↦ rw h o
    ]

-- The calls of one history, each with the answers it meets.
pub data Call : Type 0 where
  callback : Answers → ℕ → Call
  settlement : Answers → ℕ → PaymentIntent → Call

abbrev pub after_call : Call → Store → Store
after_call (callback a t) s = (handle_callback a t s).1
after_call (settlement a t intent) s = (settle_verified a t intent s).1

abbrev pub after_calls : List Call → Store → Store
after_calls [] s = s
after_calls (c ∷ cs) s = after_calls cs (after_call c s)

Sound-Once :
    {A : Type 0} (a : Answers) (t : ℕ) (s : Store) (out : Result String A × Store)
    → Sound a t s out
    → Once out.1
Sound-Once a t s (err e, s') h = h.0
Sound-Once a t s (ok r, s') h = h

after_call-Once : (c : Call) (s : Store) → Once s → Once (after_call c s)
after_call-Once (callback a t) s o =
    Sound-Once a t s (handle_callback a t s) (handle_callback-Sound a t s o)
after_call-Once (settlement a t intent) s o =
    Sound-Once a t s (settle_verified a t intent s) (settle_verified-Sound a t intent s o)

after_calls-Once : (cs : List Call) (s : Store) → Once s → Once (after_calls cs s)
after_calls-Once [] s o = o
after_calls-Once (c ∷ cs) s o = after_calls-Once cs (after_call c s) (after_call-Once c s o)

-- Whatever callbacks and settlements follow one another, and whatever the provider and the
-- storefront answer, an order is marked as paid at most once under each claim.
pub paid_at_most_once :
    (cs : List Call) (s : Store)
    → s.marks ≡ []
    → (t : ℕ) (source external_id : String)
    → count (is_mark t source external_id) (after_calls cs s).marks ≤ 1
paid_at_most_once cs s none_yet t y z =
    let h = after_calls-Once cs s (λ a b c. rw none_yet (omega arith)) t y z in
    omega (arith, h, bit_le (any (is_event t y z) (after_calls cs s).events))
