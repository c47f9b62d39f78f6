-- ===== src/Payments/Steps.antt =====
-- The two settlements of src/bims_shopify/application/payments.py step by step: each step is what one
-- delivery does between two of its waits, so that deliveries can interleave.
use bims_shopify.Base.{
  ℕ, ◌≡◌, String, Bool, true, false, ◌&&◌, List, ◌∷◌, ◌++◌, if◌then◌else◌, Result, ok, err,
}
use bims_shopify.Payments.{
  Store, Answers, PaymentIntent, PaymentStatus, OrderMetafield, ProcessedEvent, try_claim_event,
  mark_event_status, update_status, resolve_order, release, add_mark, annotate_order,
  annotate_settled_order, text_or, with_status, has_text,
}
use bims_shopify.Payments.Once.{Call, callback, settlement}

-- Where a delivery stands: its claim and the order may be in hand, and the order may be marked.
pub data Phase : Type 0 where
  waiting finished : Phase
  claimed marked concluding updating : String → PaymentIntent → Phase

-- The insertion of the claim.
unfoldable pub claim_step :
    String → PaymentIntent → Bool × List ProcessedEvent → Store → Phase × Store
claim_step x intent (false, es) s = (finished, s)
claim_step x intent (true, es) s = (claimed x intent, record s { events = es })

unfoldable pub claim_for : Answers → ℕ → PaymentIntent → Store → Phase × Store
unfolding try_claim_event claim_step
claim_for a tenant_id intent s =
    let x = text_or intent.provider_reference intent.order_id in
    claim_step x intent (try_claim_event tenant_id a.source x a.payload_hash s.events) s

unfoldable pub begin_resolved : Answers → ℕ → Result String PaymentIntent → Store → Phase × Store
unfolding claim_for
begin_resolved a tenant_id (err e) s = (finished, s)
begin_resolved a tenant_id (ok intent) s = claim_for a tenant_id intent s

unfoldable pub begin_callback : Answers → ℕ → Result String PaymentIntent → Store → Phase × Store
unfolding resolve_order begin_resolved
begin_callback a tenant_id (err e) s = (finished, s)
begin_callback a tenant_id (ok intent) s =
    begin_resolved a tenant_id (resolve_order a.provider tenant_id intent s.intents) s

unfoldable pub begin_settlement : Answers → ℕ → PaymentIntent → Store → Phase × Store
unfolding claim_for
begin_settlement a tenant_id intent s =
    if has_text (text_or intent.provider_reference intent.order_id) && has_text intent.order_id
    then claim_for a tenant_id intent s
    else (finished, s)

-- The answer of `mark_order_as_paid`: the order is marked, or the claim is released.
unfoldable pub pay_step :
    Answers → ℕ → String → PaymentIntent → Result String Bool → Store → Phase × Store
unfolding release
pay_step a tenant_id x intent (err e) s = (finished, release a tenant_id x s)
pay_step a tenant_id x intent (ok b) s =
    (marked x (with_status "paid" intent), add_mark a tenant_id x (with_status "paid" intent) s)

-- The answer of `verify_payment`, and what it leads to.
unfoldable pub verify_step :
    Answers
    → ℕ
    → String
    → PaymentIntent
    → Result String (PaymentStatus × List OrderMetafield)
    → Store
    → Phase × Store
unfolding release pay_step
verify_step a tenant_id x intent (err e) s = (finished, release a tenant_id x s)
verify_step a tenant_id x intent (ok (PaymentStatus.confirmed, fields)) s =
    let verified = record intent { order_metafields = fields } in
    if has_text intent.order_id
    then pay_step a tenant_id x verified a.marked s
    else (concluding x (with_status "failed" verified), s)
verify_step a tenant_id x intent (ok (PaymentStatus.pending, fields)) s =
    (concluding x (with_status "pending" (record intent { order_metafields = fields })), s)
verify_step a tenant_id x intent (ok (PaymentStatus.failed, fields)) s =
    (concluding x (with_status "failed" (record intent { order_metafields = fields })), s)

-- `mark_event_status`: a commit, or an exception that ends the delivery.
unfoldable pub event_step :
    Answers → ℕ → String → PaymentIntent → Result String Bool → Store → Phase × Store
unfolding mark_event_status
event_step a tenant_id x intent (err e) s = (finished, s)
event_step a tenant_id x intent (ok _) s = (
  updating x intent,
  record s { events = mark_event_status tenant_id a.source x intent.status s.events },
)

-- `update_status`: a commit, or an exception.
unfoldable pub intent_step :
    Answers → ℕ → PaymentIntent → Result String Bool → Store → Phase × Store
unfolding update_status
intent_step a tenant_id intent (err e) s = (finished, s)
intent_step a tenant_id intent (ok _) s = (
  finished,
  record s {
    intents =
        if has_text intent.order_id
        then update_status tenant_id a.provider intent.order_id intent.status s.intents
        else s.intents;
  },
)

-- One step of a delivery.
unfoldable pub advance : Call → Phase → Store → Phase × Store
unfolding begin_callback begin_settlement verify_step pay_step annotate_order annotate_settled_order
    event_step intent_step
advance c finished s = (finished, s)
advance (callback a t) waiting s = begin_callback a t a.parsed s
advance (settlement a t intent) waiting s = begin_settlement a t intent s
advance (callback a t) (claimed x intent) s = verify_step a t x intent a.verified s
advance (settlement a t i) (claimed x intent) s = pay_step a t x intent a.marked s
advance (callback a t) (marked x intent) s = (concluding x intent, annotate_order a intent s)
advance (settlement a t i) (marked x intent) s =
    (concluding x intent, annotate_settled_order a intent s)
advance (callback a t) (concluding x intent) s = event_step a t x intent a.event_written s
advance (settlement a t i) (concluding x intent) s = event_step a t x intent a.event_written s
advance (callback a t) (updating x intent) s = intent_step a t intent a.intent_written s
advance (settlement a t i) (updating x intent) s = intent_step a t intent a.intent_written s

abbrev pub Worker : Type 0
Worker = Call × Phase

-- The store and the deliveries under way.
pub record System : Type 0 where
  pub store : Store
  pub workers : List Worker

-- One of the deliveries takes a step.
pub data Step (u v : System) : Type 0 where
  turn :
      (before after : List Worker) (c : Call) (phase : Phase)
      → u.workers ≡ before ++ (c, phase) ∷ after
      → v ≡ record {
        store = (advance c phase u.store).1;
        workers = before ++ (c, (advance c phase u.store).0) ∷ after;
      }
      → Step u v

pub data Reach (u : System) : System → Type 0 where
  here : Reach u u
  later : {v w : System} → Reach u v → Step v w → Reach u w
