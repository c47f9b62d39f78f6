-- ===== src/Payments/Claims.antt =====
-- src/bims_shopify/application/payments.py: what the parts of the two settlements leave of claims and
-- marks, writes that fail included.
use text.Mathlib.TextPositions.{eq_refl}
use bims_shopify.Base.{
  ℕ, ◌≤◌, String, ◌≡◌, refl, sym, ap, subst, ◌∙◌, inl, inr, ◌⊎◌, Bool, true, false, ◌&&◌, ◌==◌,
  ==_iff, List, ◌∷◌, any, count, Bool-cases, str_eq, Result, ok, err, arith,
}
use bims_shopify.Payments.{
  ProcessedEvent, Store, Mark, Answers, PaymentIntent, is_event, release, release_claim, add_mark,
  conclude, conclude_event, conclude_intent, mark_event_status, annotate_order,
  annotate_settled_order, has_text,
}
use bims_shopify.Payments.Events.{any-mark_event_status, delete_event-claimed, absent_same_key}

abbrev pub is_mark : ℕ → String → String → Mark → Bool
is_mark t s x m = (m.tenant_id == t) && str_eq m.source s && str_eq m.external_id x

abbrev pub bit : Bool → ℕ
bit true = 1
bit false = 0

-- Under every claim an order has been marked at most once, and never without the claim's event.
abbrev pub AtMostOnce : List Mark → List ProcessedEvent → Type 0
AtMostOnce marks events =
    (t : ℕ) (s x : String) → count (is_mark t s x) marks ≤ bit (any (is_event t s x) events)

abbrev pub Once : Store → Type 0
Once s = AtMostOnce s.marks s.events

abbrev pub claim_row : ℕ → String → String → String → ProcessedEvent
claim_row t s x hash = record {
  tenant_id = t;
  source = s;
  external_id = x;
  payload_hash = hash;
  status = "processing";
}

-- The store when a claim has been granted.
abbrev pub opened : Answers → ℕ → String → Store → Store
opened a t x s = record s { events = claim_row t a.source x a.payload_hash ∷ s.events }

pub bit_le : (b : Bool) → bit b ≤ 1
bit_le true = omega arith
bit_le false = omega arith

pub opened-Once : (a : Answers) (t : ℕ) (x : String) (s : Store) → Once s → Once (opened a t x s)
opened-Once a t x s o t' s' x' =
    let h = o t' s' x' in
    elim (Bool-cases (is_event t' s' x' (claim_row t a.source x a.payload_hash))) [
      | inl e ↦ rw e (omega (arith, h, bit_le (any (is_event t' s' x') s.events)))
      | inr e ↦ rw e h
    ]

pub add_mark-Once :
    (a : Answers) (t : ℕ) (x : String) (intent : PaymentIntent) (s : Store)
    → any (is_event t a.source x) s.events ≡ false
    → Once s
    → Once (add_mark a t x intent (opened a t x s))
add_mark-Once a t x intent s absent o t' s' x' =
    let h = o t' s' x' in
    elim (Bool-cases (is_event t' s' x' (claim_row t a.source x a.payload_hash))) [
      | inl e ↦
          let none_yet =
            absent_same_key t' s' x' (claim_row t a.source x a.payload_hash) s.events e absent in
          let zero_yet : count (is_mark t' s' x') s.marks ≤ 0 = rw none_yet at h in
          rw e (omega (arith, zero_yet))
      | inr e ↦ rw e h
    ]

release-opened :
    (a : Answers) (t : ℕ) (x : String) (s : Store)
    → any (is_event t a.source x) s.events ≡ false
    → release_claim (ok true) a t x (opened a t x s) ≡ s
unfolding release_claim
release-opened a t x s absent =
    ap (λ es. record s { events = es })
      (delete_event-claimed (claim_row t a.source x a.payload_hash) s.events absent)

opened-any :
    (a : Answers) (t : ℕ) (x : String) (s : Store)
    → any (is_event t a.source x) (opened a t x s).events ≡ true
opened-any a t x s = rw ((==_iff t t).1 refl, eq_refl a.source, eq_refl x) refl

pub annotate_order-kept :
    (a : Answers) (intent : PaymentIntent) (s : Store)
    → ((annotate_order a intent s).marks ≡ s.marks)
      × ((annotate_order a intent s).events ≡ s.events)
unfolding annotate_order
annotate_order-kept a intent s = ground arith

pub annotate_settled_order-kept :
    (a : Answers) (intent : PaymentIntent) (s : Store)
    → ((annotate_settled_order a intent s).marks ≡ s.marks)
      × ((annotate_settled_order a intent s).events ≡ s.events)
unfolding annotate_settled_order
annotate_settled_order-kept a intent s = ground arith

abbrev pub is_ok : Result String Bool → Bool
is_ok (err e) = false
is_ok (ok b) = true

-- No write of the call to its claim or its intent fails.
abbrev pub all_written : Answers → Bool
all_written a = is_ok a.event_written && is_ok a.intent_written && is_ok a.claim_deleted

-- A claim that was free is held.
abbrev pub Claims : Answers → ℕ → Store → Store → Type 0
Claims a t s s' =
    (x : String) × ((any (is_event t a.source x) s.events ≡ false)
      × (any (is_event t a.source x) s'.events ≡ true))

-- What a call does: the store is again such that every order has been marked at most once under
-- every claim. When the call fails, the store is as it was, or a write failed and the claim, which
-- was free, is held.
abbrev pub Sound : {A : Type 0} → Answers → ℕ → Store → Result String A × Store → Type 0
Sound a t s (err e, s') = Once s' × ((s' ≡ s) ⊎ ((all_written a ≡ false) × Claims a t s s'))
Sound a t s (ok r, s') = Once s'

conclude_intent-Sound :
    {A : Type 0} (out : Result String Bool) (a : Answers) (t : ℕ) (x : String)
    (intent : PaymentIntent) (result : A) (s s' : Store)
    → a.intent_written ≡ out
    → Once s'
    → Claims a t s s'
    → Sound a t s (conclude_intent out a t intent result s')
unfolding conclude_intent
conclude_intent-Sound (err e) a t x intent result s s' w o c = (o, inr (rw w (ground arith), c))
conclude_intent-Sound (ok b) a t x intent result s s' w o c = o

-- What both handlers do after the `try`, while the claim is held.
conclude_event-Sound :
    {A : Type 0} (out : Result String Bool) (a : Answers) (t : ℕ) (x : String)
    (intent : PaymentIntent) (result : A) (s s' : Store)
    → a.event_written ≡ out
    → Once s'
    → Claims a t s s'
    → Sound a t s (conclude_event out a t x intent result s')
unfolding conclude_event
conclude_event-Sound (err e) a t x intent result s s' w o c = (o, inr (rw w refl, c))
conclude_event-Sound (ok b) a t x intent result s s' w o (y, (f, h)) =
    let written = record s' { events = mark_event_status t a.source x intent.status s'.events } in
    let o' : Once written = λ t' s1 x'.
      rw (any-mark_event_status t' s1 x' t a.source x intent.status s'.events) (o t' s1 x') in
    let h' : any (is_event t a.source y) written.events ≡ true =
      any-mark_event_status t a.source y t a.source x intent.status s'.events ∙ h in
    elim (Bool-cases (has_text intent.order_id)) [
      | inl e ↦ rw e (
          conclude_intent-Sound a.intent_written a t x intent result s written refl o' (y, (f, h')))
      | inr e ↦ rw e o'
    ]

-- The same, once something that leaves the marks and the events alone has happened.
pub conclude-Sound :
    {A : Type 0} (a : Answers) (t : ℕ) (x : String) (intent : PaymentIntent) (result : A)
    (s opened_store s' : Store)
    → (s'.marks ≡ opened_store.marks) × (s'.events ≡ opened_store.events)
    → Once opened_store
    → Claims a t s opened_store
    → Sound a t s (conclude a t x intent result s')
unfolding conclude
conclude-Sound a t x intent result s opened_store s' (m, e) o (y, (f, h)) =
    conclude_event-Sound a.event_written a t x intent result s s' refl
      (λ t' s1 x'. rw (m, e) (o t' s1 x')) (y, (f, rw e h))

pub opened-Claims :
    (a : Answers) (t : ℕ) (x : String) (s : Store)
    → any (is_event t a.source x) s.events ≡ false
    → Claims a t s (opened a t x s)
opened-Claims a t x s absent = (x, (absent, opened-any a t x s))

-- An exception before the order is marked.
pub release-Sound :
    (A : Type 0) (a : Answers) (t : ℕ) (x : String) (e : String) (s : Store)
    → any (is_event t a.source x) s.events ≡ false
    → Once s
    → Sound {A = A} a t s (err e, release a t x (opened a t x s))
unfolding release
release-Sound A a t x e s absent o = go a.claim_deleted refl
  where
    go :
        (out : Result String Bool)
        → a.claim_deleted ≡ out
        → Sound {A = A} a t s (err e, release_claim out a t x (opened a t x s))
    go (err d) w = (opened-Once a t x s o, inr (rw w (ground arith), opened-Claims a t x s absent))
    go (ok b) w = let same = release-opened a t x s absent in (subst Once (sym same) o, inl same)
