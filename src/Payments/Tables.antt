-- ===== src/Payments/Tables.antt =====
-- The records of src/bims_shopify/domain/payment.py, and the tables of processed events and payment
-- intents with the operations of adapters/persistence/sync_state_repository.py and
-- payment_intent_repository.py.
use bims_shopify.Base.{
  ℕ, String, Bool, true, false, not, ◌&&◌, ◌==◌, Option, none, some, List, [], ◌∷◌, any, select,
  if◌then◌else◌, str_eq, ℤ, Result, ok, err,
}

pub data PaymentStatus : Type 0 where
  confirmed pending failed : PaymentStatus

pub record OrderMetafield : Type 0 where
  pub namespace : String
  pub key : String
  pub kind : String
  pub value : String

-- Amounts are in units of 10⁻⁹.
pub record PaymentIntent : Type 0 where
  pub tenant_slug : String
  pub order_id : String
  pub amount : ℤ
  pub currency : String
  pub checkout_url : Option String
  pub provider_reference : Option String
  pub status : String
  pub process_id : Option String
  pub row_id : Option ℕ
  pub order_metafields : List OrderMetafield

-- A row of `processed_events`, unique in its first three columns.
pub record ProcessedEvent : Type 0 where
  pub tenant_id : ℕ
  pub source : String
  pub external_id : String
  pub payload_hash : String
  pub status : String

-- A row of `payment_intents`, unique in its tenant, provider and order.
pub record IntentRow : Type 0 where
  pub id : ℕ
  pub tenant_id : ℕ
  pub provider : String
  pub intent : PaymentIntent

-- A call of `mark_order_as_paid`, with the claim under which it was made.
pub record Mark : Type 0 where
  pub tenant_id : ℕ
  pub source : String
  pub external_id : String
  pub order_id : String

-- The tables, and the effects that have reached the storefront and the audit log.
pub record Store : Type 0 where
  pub events : List ProcessedEvent
  pub intents : List IntentRow
  pub next_id : ℕ
  pub marks : List Mark
  pub annotated : List (String × List OrderMetafield)
  pub audits : List String
  -- Operations minted at the provider, by row and attempt, and intents that it was told to abandon.
  pub minted : List (ℕ × ℕ)
  pub abandoned : List PaymentIntent

abbrev pub is_event : ℕ → String → String → ProcessedEvent → Bool
is_event tenant_id source external_id e =
    (e.tenant_id == tenant_id) && str_eq e.source source && str_eq e.external_id external_id

unfoldable pub get_event_status : ℕ → String → String → List ProcessedEvent → Option String
get_event_status tenant_id source external_id [] = none
get_event_status tenant_id source external_id (e ∷ es) =
    if is_event tenant_id source external_id e
    then some e.status
    else get_event_status tenant_id source external_id es

-- The insertion that the unique constraint lets through only once.
unfoldable pub try_claim_event :
    ℕ → String → String → String → List ProcessedEvent → Bool × List ProcessedEvent
try_claim_event tenant_id source external_id payload_hash es =
    if any (is_event tenant_id source external_id) es then (false, es) else (
      true,
      record {
        tenant_id = tenant_id;
        source = source;
        external_id = external_id;
        payload_hash = payload_hash;
        status = "processing";
      }
          ∷ es,
    )

unfoldable pub mark_event_status :
    ℕ → String → String → String → List ProcessedEvent → List ProcessedEvent
mark_event_status tenant_id source external_id status [] = []
mark_event_status tenant_id source external_id status (e ∷ es) =
    if is_event tenant_id source external_id e
    then record e { status = status } ∷ es
    else e ∷ mark_event_status tenant_id source external_id status es

unfoldable pub delete_event : ℕ → String → String → List ProcessedEvent → List ProcessedEvent
delete_event tenant_id source external_id es =
    select (λ e. not (is_event tenant_id source external_id e)) es

abbrev pub is_intent_of : ℕ → String → String → IntentRow → Bool
is_intent_of tenant_id provider order_id r =
    (r.tenant_id == tenant_id) && str_eq r.provider provider && str_eq r.intent.order_id order_id

unfoldable pub update_status : ℕ → String → String → String → List IntentRow → List IntentRow
update_status tenant_id provider order_id status [] = []
update_status tenant_id provider order_id status (r ∷ rs) =
    if is_intent_of tenant_id provider order_id r
    then record r { intent = record r.intent { status = status } } ∷ rs
    else r ∷ update_status tenant_id provider order_id status rs

-- `a == b` on an optional text that is compared with a text.
abbrev pub is_text : String → Option String → Bool
is_text t none = false
is_text t (some s) = str_eq s t

-- `_to_domain` of the one row, which has no column for the tenant's slug.
abbrev pub one_intent : List IntentRow → Result String (Option PaymentIntent)
one_intent [] = ok none
one_intent (r ∷ []) = ok (some (record r.intent { tenant_slug = ""; row_id = some r.id }))
one_intent (r ∷ q ∷ rs) = err "MultipleResultsFound"

unfoldable pub get_by_provider_reference :
    ℕ → String → String → List IntentRow → Result String (Option PaymentIntent)
get_by_provider_reference tenant_id provider reference rows = one_intent (
    select
      (λ r.
        (r.tenant_id == tenant_id)
        && str_eq r.provider provider
        && is_text reference r.intent.provider_reference)
      rows)

-- `a or b` on texts.
abbrev pub text_or : Option String → String → String
text_or none b = b
text_or (some a) b = if str_eq a "" then b else a

-- What the provider, the storefront and the audit log answer in one call, and how the writes of its
-- claim's status, of the intent's status and of the claim's deletion end: one that fails writes
-- nothing.
pub record Answers : Type 0 where
  pub provider : String
  pub source : String
  pub payload_hash : String
  pub parsed : Result String PaymentIntent
  pub verified : Result String (PaymentStatus × List OrderMetafield)
  pub marked : Result String Bool
  pub annotation : Result String Bool
  pub audit : Result String Bool
  pub event_written : Result String Bool
  pub intent_written : Result String Bool
  pub claim_deleted : Result String Bool
