-- ===== src/Payments/Pending.antt =====
-- What a payment that was verified as pending leaves for a later settlement.
use text.Mathlib.TextPositions.{eq_refl}
use bims_shopify.Base.{
  ℕ, String, ◌≡◌, refl, sym, subst, ◌∙◌, inl, inr, Bool, Result, true, false, ◌&&◌, ◌==◌, ==_iff,
  List, ◌∷◌, any, Bool-cases, str_eq, ok, err,
}
use bims_shopify.Payments.{
  Store, Answers, PaymentIntent, PaymentStatus, OrderMetafield, is_event, try_claim_event, conclude,
  conclude_event, conclude_intent, with_status, settle_callback, claimed_callback, handle_intent,
  handle_callback, settle_with, settle_verified, text_or, has_text, resolve_order,
}
use bims_shopify.Payments.Events.{any-mark_event_status}

module _ (a b : Answers) (t : ℕ) (intent : PaymentIntent) (fields : List OrderMetafield)
    (s : Store) where
  abbrev reference : String
  reference = text_or intent.provider_reference intent.order_id

  abbrev claimed_store : Store
  claimed_store = record s {
    events =
        record {
          tenant_id = t;
          source = a.source;
          external_id = reference;
          payload_hash = a.payload_hash;
          status = "processing";
        }
        ∷ s.events;
  }

  -- Whether the writes that follow succeed or not, the claim's event stays.
  conclude_event-kept :
      {A : Type 0} (out : Result String Bool) (i : PaymentIntent) (r : A) (s' : Store)
      → any (is_event t a.source reference) s'.events ≡ true
      → any (is_event t a.source reference) (conclude_event out a t reference i r s').1.events
        ≡ true
  unfolding conclude_event conclude_intent
  conclude_event-kept {A} (err e) i r s' h = h
  conclude_event-kept {A} (ok b) i r s' h =
      let k = any-mark_event_status t a.source reference t a.source reference i.status s'.events in
      elim (Bool-cases (has_text i.order_id)) [
        | inl e ↦ rw e (kept a.intent_written i r _ (k ∙ h))
        | inr e ↦ rw e (k ∙ h)
      ]
    where
      kept :
          (out' : Result String Bool)
          → (i' : PaymentIntent) (r' : A) (s1 : Store)
          → any (is_event t a.source reference) s1.events ≡ true
          → any (is_event t a.source reference) (conclude_intent out' a t i' r' s1).1.events ≡ true
      kept (err e) i' r' s1 q = q
      kept (ok b') i' r' s1 q = q

  kept_claim :
      (any
        (is_event t a.source reference)
        (settle_callback a t reference intent
          (ok (PaymentStatus.pending, fields))
          claimed_store).1.events)
      ≡ true
  unfolding settle_callback conclude
  kept_claim =
      let i = with_status "pending" (record intent { order_metafields = fields }) in
      conclude_event-kept a.event_written i i _
        (rw (same, eq_refl a.source, eq_refl reference) refl)
    where
      same : (t == t) ≡ true
      same = (==_iff t t).1 refl

  claimed_after :
      a.verified ≡ ok (PaymentStatus.pending, fields)
      → any (is_event t a.source reference) (handle_intent a t (ok intent) s).1.events ≡ true
  unfolding handle_intent try_claim_event claimed_callback
  claimed_after pending = elim (Bool-cases (any (is_event t a.source reference) s.events)) [
    | inl e ↦ rw e e
    | inr e ↦ rw e (
        subst
          (λ v.
            any (is_event t a.source reference)
              (settle_callback a t reference intent v claimed_store).1.events
            ≡ true)
          (sym pending) kept_claim)
  ]

  settle_refused :
      (s' : Store)
      → any (is_event t b.source reference) s'.events ≡ true
      → settle_verified b t intent s' ≡ (ok false, s')
  unfolding settle_verified try_claim_event settle_with
  settle_refused s' e = elim (Bool-cases (has_text reference && has_text intent.order_id)) [
    | inl h ↦ rw (h, e) refl
    | inr h ↦ rw h refl
  ]

  -- A callback whose payment the provider verifies as pending keeps its claim: a later settlement of
  -- the same payment, which the buyer's return makes once it is confirmed, does nothing.
  pub settle_after_pending :
      a.parsed ≡ ok intent
      → str_eq intent.order_id "" ≡ false
      → a.verified ≡ ok (PaymentStatus.pending, fields)
      → b.source ≡ a.source
      → settle_verified b t intent (handle_callback a t s).1 ≡ (ok false, (handle_callback a t s).1)
  unfolding handle_callback resolve_order
  settle_after_pending parsed named pending same = settle_refused (handle_callback a t s).1 (
      rw same (
        subst
          (λ p.
            any (is_event t a.source reference)
              (elim p as (λ _. Result String PaymentIntent × Store) [
                | err e ↦ (err e, s)
                | ok i ↦ handle_intent a t (resolve_order a.provider t i s.intents) s
              ]).1.events
            ≡ true)
          (sym parsed) (rw named (claimed_after pending))))
