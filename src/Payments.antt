-- ===== src/Payments.antt =====
-- src/bims_shopify/domain/payment.py, the events of adapters/persistence/sync_state_repository.py
-- and the two settlements of application/payments.py: HandlePaymentCallback (whose repositories are
-- all given) and SettleVerifiedPayment. The provider's and the storefront's answers are the fields of
-- `Answers`. Logging is not modelled.
pub mod Events
mod Tables
pub mod Links
pub mod Claims
pub mod Once
pub mod Pending
pub mod Steps
pub mod Interleaving
unfoldable pub use Tables.*
use bims_shopify.Base.{
  ℕ, ◌+◌, String, Bool, true, false, not, ◌&&◌, ◌==◌, Option, none, some, List, [], ◌∷◌, ◌++◌, any,
  select, if◌then◌else◌, str_eq, ℤ, Result, ok, err,
}

abbrev pub with_status : String → PaymentIntent → PaymentIntent
with_status status intent = record intent { status = status }

abbrev pub has_text : String → Bool
has_text t = not (str_eq t "")

-- The lookup of the order of a callback that names only the provider's reference.
unfoldable pub resolve_order :
    String → ℕ → PaymentIntent → List IntentRow → Result String PaymentIntent
unfolding get_by_provider_reference
resolve_order provider tenant_id intent rows =
    let reference = text_or intent.provider_reference "" in
    let found = get_by_provider_reference tenant_id provider reference rows in
    if str_eq intent.order_id "" && has_text reference
    then elim found [
      | err e ↦ err e
      | ok none ↦ ok intent
      | ok (some stored) ↦ ok (record intent { order_id = stored.order_id })
    ]
    else ok intent

-- `_audit_metafield_failure`, when an audit log is given.
abbrev audit_failure : Answers → PaymentIntent → Store → Store
audit_failure a intent s = elim a.audit [
  | err e ↦ s
  | ok _ ↦ record s { audits = intent.order_id ∷ s.audits }
]

-- `_annotate_order`
unfoldable pub annotate_order : Answers → PaymentIntent → Store → Store
annotate_order a intent s = elim intent.order_metafields [
  | [] ↦ s
  | f ∷ fs ↦ elim a.annotation [
    | err e ↦ audit_failure a intent s
    | ok _ ↦ record s { annotated = (intent.order_id, f ∷ fs) ∷ s.annotated }
  ]
]

-- `_annotate_settled_order`
unfoldable pub annotate_settled_order : Answers → PaymentIntent → Store → Store
annotate_settled_order a intent s = elim intent.order_metafields [
  | [] ↦ s
  | f ∷ fs ↦ elim a.annotation [
    | err e ↦ s
    | ok _ ↦ record s { annotated = (intent.order_id, f ∷ fs) ∷ s.annotated }
  ]
]

-- The `except` of both handlers: the claim is deleted, or the deletion raises.
unfoldable pub release_claim : Result String Bool → Answers → ℕ → String → Store → Store
unfolding delete_event
release_claim (err d) a tenant_id external_id s = s
release_claim (ok _) a tenant_id external_id s = record s {
  events = delete_event tenant_id a.source external_id s.events;
}

unfoldable pub release : Answers → ℕ → String → Store → Store
unfolding release_claim
release a tenant_id external_id s = release_claim a.claim_deleted a tenant_id external_id s

-- The error that leaves the `except`: that of the deletion, or the one that is raised again.
abbrev pub reraise : String → Result String Bool → String
reraise e (err d) = d
reraise e (ok _) = e

-- `mark_order_as_paid`
abbrev pub add_mark : Answers → ℕ → String → PaymentIntent → Store → Store
add_mark a tenant_id external_id intent s = record s {
  marks =
      record {
        tenant_id = tenant_id;
        source = a.source;
        external_id = external_id;
        order_id = intent.order_id;
      }
      ∷ s.marks;
}

-- `update_status`, which may raise.
unfoldable pub conclude_intent :
    {A : Type 0}
    → Result String Bool
    → Answers
    → ℕ
    → PaymentIntent
    → A
    → Store
    → Result String A × Store
unfolding update_status
conclude_intent (err e) a tenant_id intent result s = (err e, s)
conclude_intent (ok _) a tenant_id intent result s = (
  ok result,
  record s { intents = update_status tenant_id a.provider intent.order_id intent.status s.intents },
)

-- `mark_event_status`, which may raise, and what follows it.
unfoldable pub conclude_event :
    {A : Type 0}
    → Result String Bool
    → Answers
    → ℕ
    → String
    → PaymentIntent
    → A
    → Store
    → Result String A × Store
unfolding mark_event_status conclude_intent
conclude_event (err e) a tenant_id external_id intent result s = (err e, s)
conclude_event (ok _) a tenant_id external_id intent result s =
    let s' = record s {
      events = mark_event_status tenant_id a.source external_id intent.status s.events;
    } in
    if has_text intent.order_id
    then conclude_intent a.intent_written a tenant_id intent result s'
    else (ok result, s')

-- What both handlers do after the `try`, with the status that the event and the intent get.
unfoldable pub conclude :
    {A : Type 0} → Answers → ℕ → String → PaymentIntent → A → Store → Result String A × Store
unfolding conclude_event
conclude a tenant_id external_id intent result s =
    conclude_event a.event_written a tenant_id external_id intent result s

-- The callback's confirmed payment: the order is marked, annotated and concluded, or the claim is
-- released.
unfoldable pub pay_order :
    Answers
    → ℕ
    → String
    → PaymentIntent
    → Result String Bool
    → Store
    → Result String PaymentIntent × Store
unfolding release annotate_order conclude
pay_order a tenant_id external_id intent (err e) s =
    (err (reraise e a.claim_deleted), release a tenant_id external_id s)
pay_order a tenant_id external_id intent (ok _) s =
    let paid = with_status "paid" intent in
    conclude a tenant_id external_id paid paid
      (annotate_order a paid (add_mark a tenant_id external_id paid s))

-- The callback after its claim, given the provider's verification.
unfoldable pub settle_callback :
    Answers
    → ℕ
    → String
    → PaymentIntent
    → Result String (PaymentStatus × List OrderMetafield)
    → Store
    → Result String PaymentIntent × Store
unfolding release pay_order conclude
settle_callback a tenant_id external_id intent (err e) s =
    (err (reraise e a.claim_deleted), release a tenant_id external_id s)
settle_callback a tenant_id external_id intent (ok (PaymentStatus.confirmed, fields)) s =
    let verified = record intent { order_metafields = fields } in
    let unpaid = with_status "failed" verified in
    if has_text intent.order_id
    then pay_order a tenant_id external_id verified a.marked s
    else conclude a tenant_id external_id unpaid unpaid s
settle_callback a tenant_id external_id intent (ok (PaymentStatus.pending, fields)) s =
    let verified = with_status "pending" (record intent { order_metafields = fields }) in
    conclude a tenant_id external_id verified verified s
settle_callback a tenant_id external_id intent (ok (PaymentStatus.failed, fields)) s =
    let verified = with_status "failed" (record intent { order_metafields = fields }) in
    conclude a tenant_id external_id verified verified s

-- The callback given its claim.
unfoldable pub claimed_callback :
    Answers
    → ℕ
    → String
    → PaymentIntent
    → Bool × List ProcessedEvent
    → Store
    → Result String PaymentIntent × Store
unfolding get_event_status settle_callback
claimed_callback a tenant_id external_id intent (false, es) s = (
  ok (elim (get_event_status tenant_id a.source external_id es) [
    | none ↦ intent
    | some status ↦ with_status status intent
  ]),
  s,
)
claimed_callback a tenant_id external_id intent (true, es) s =
    settle_callback a tenant_id external_id intent a.verified (record s { events = es })

unfoldable pub handle_intent :
    Answers → ℕ → Result String PaymentIntent → Store → Result String PaymentIntent × Store
unfolding try_claim_event claimed_callback
handle_intent a tenant_id (err e) s = (err e, s)
handle_intent a tenant_id (ok intent) s =
    let external_id = text_or intent.provider_reference intent.order_id in
    claimed_callback a tenant_id external_id intent
      (try_claim_event tenant_id a.source external_id a.payload_hash s.events) s

-- `HandlePaymentCallback.run`
unfoldable pub handle_callback : Answers → ℕ → Store → Result String PaymentIntent × Store
unfolding resolve_order handle_intent
handle_callback a tenant_id s = elim a.parsed [
  | err e ↦ (err e, s)
  | ok intent ↦ handle_intent a tenant_id (resolve_order a.provider tenant_id intent s.intents) s
]

-- The settlement after its claim, given the storefront's answer.
unfoldable pub settle_claimed :
    Answers → ℕ → String → PaymentIntent → Result String Bool → Store → Result String Bool × Store
unfolding release annotate_settled_order conclude
settle_claimed a tenant_id external_id intent (err e) s =
    (err (reraise e a.claim_deleted), release a tenant_id external_id s)
settle_claimed a tenant_id external_id intent (ok _) s =
    let paid = with_status "paid" intent in
    conclude a tenant_id external_id paid true
      (annotate_settled_order a paid (add_mark a tenant_id external_id paid s))

unfoldable pub settle_with :
    Answers
    → ℕ
    → String
    → PaymentIntent
    → Bool × List ProcessedEvent
    → Store
    → Result String Bool × Store
unfolding settle_claimed
settle_with a tenant_id external_id intent (false, es) s = (ok false, s)
settle_with a tenant_id external_id intent (true, es) s =
    settle_claimed a tenant_id external_id intent a.marked (record s { events = es })

-- `SettleVerifiedPayment.run`
unfoldable pub settle_verified : Answers → ℕ → PaymentIntent → Store → Result String Bool × Store
unfolding try_claim_event settle_with
settle_verified a tenant_id intent s =
    let external_id = text_or intent.provider_reference intent.order_id in
    let claim = try_claim_event tenant_id a.source external_id a.payload_hash s.events in
    if has_text external_id && has_text intent.order_id
    then settle_with a tenant_id external_id intent claim s
    else (ok false, s)
