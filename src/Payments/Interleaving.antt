-- ===== src/Payments/Interleaving.antt =====
-- However deliveries interleave, an order is marked at most once under each claim.
use bims_shopify.Base.{
  ℕ, ◌+◌, ◌≤◌, String, ◌≡◌, refl, ap, ◌∙◌, inl, inr, ◌⊎◌, Bool, true, false, ◌&&◌, ◌==◌, List, [],
  ◌∷◌, ◌++◌, any, count, All, Bool-cases, str_eq, Result, ok, err, arith,
}
use bims_shopify.Payments.{
  ProcessedEvent, Store, Answers, PaymentIntent, PaymentStatus, OrderMetafield, is_event,
  try_claim_event, delete_event, release, release_claim, annotate_order, annotate_settled_order,
  text_or, with_status, has_text, resolve_order,
}
use bims_shopify.Payments.Events.{any-mark_event_status, absent_same_key, key_parts}
use bims_shopify.Payments.Once.{Call, callback, settlement}
use bims_shopify.Payments.Claims.{
  is_mark, bit, bit_le, claim_row, annotate_order-kept, annotate_settled_order-kept,
}
use bims_shopify.Payments.Steps.{
  Phase, waiting, finished, claimed, marked, concluding, updating, claim_step, claim_for,
  begin_resolved, begin_callback, begin_settlement, pay_step, verify_step, event_step, intent_step,
  advance, Worker, System, Step, turn, Reach, here, later,
}

module _ (t : ℕ) (y z : String) where
  -- The delivery holds the claim and has not marked the order.
  abbrev held_by : Answers → ℕ → Phase → Bool
  held_by a u (claimed x intent) = (u == t) && str_eq a.source y && str_eq x z
  held_by a u waiting = false
  held_by a u finished = false
  held_by a u (marked x intent) = false
  held_by a u (concluding x intent) = false
  held_by a u (updating x intent) = false

  abbrev holds : Worker → Bool
  holds (callback a u, phase) = held_by a u phase
  holds (settlement a u i, phase) = held_by a u phase

  -- Marks and unspent claims are covered by the event, whatever the others hold.
  abbrev Covered : ℕ → Store → Bool → Type 0
  Covered others s held =
      count (is_mark t y z) s.marks + others + bit held ≤ bit (any (is_event t y z) s.events)

  -- What a step has to keep.
  abbrev Keeps : Answers → ℕ → Store → Bool → Phase × Store → Type 0
  Keeps a u s held (phase, s') =
      (others : ℕ) → Covered others s held → Covered others s' (held_by a u phase)

  other_key :
      (u : ℕ) (source x : String) (e : ProcessedEvent)
      → is_event u source x e ≡ true
      → ((u == t) && str_eq source y && str_eq x z) ≡ false
      → is_event t y z e ≡ false
  other_key u source x e k h =
      let (p, q, r) = key_parts e.tenant_id u e.source source e.external_id x k in rw (p, q, r) h

  -- Deleting an event with another key.
  delete_event-other :
      (u : ℕ) (source x : String) (es : List ProcessedEvent)
      → ((u == t) && str_eq source y && str_eq x z) ≡ false
      → any (is_event t y z) (delete_event u source x es) ≡ any (is_event t y z) es
  unfolding delete_event
  delete_event-other u source x [] h = refl
  delete_event-other u source x (e ∷ es) h =
      let ih = delete_event-other u source x es h in
      elim (Bool-cases (is_event u source x e)) [
        | inl k ↦ rw (k, other_key u source x e k h) ih
        | inr k ↦ rw (k, ih) refl
      ]

  deleted_claim :
      (a : Answers) (u : ℕ) (x : String) (s : Store) (others : ℕ)
      → Covered others s ((u == t) && str_eq a.source y && str_eq x z)
      → Covered others (release_claim (ok true) a u x s) false
  unfolding release_claim
  deleted_claim a u x s others h = elim (Bool-cases ((u == t) && str_eq a.source y && str_eq x z)) [
    | inl e ↦
        let h' : count (is_mark t y z) s.marks + others + 1 ≤ bit (any (is_event t y z) s.events) =
          rw e at h in
        omega (arith, h', bit_le (any (is_event t y z) s.events))
    | inr e ↦ rw (delete_event-other u a.source x s.events e) (rw e at h)
  ]

  -- A claim that is given up, or that its delivery leaves behind.
  release-Keeps :
      (a : Answers) (u : ℕ) (x : String) (s : Store)
      → Keeps a u s ((u == t) && str_eq a.source y && str_eq x z) (finished, release a u x s)
  unfolding release
  release-Keeps a u x s = go a.claim_deleted
    where
      mine : Bool
      mine = (u == t) && str_eq a.source y && str_eq x z

      go : (out : Result String Bool) → Keeps a u s mine (finished, release_claim out a u x s)
      go (err d) others h = omega (arith, h)
      go (ok b) others h = deleted_claim a u x s others h

  -- A granted claim.
  claim_for-Keeps :
      (a : Answers) (u : ℕ) (intent : PaymentIntent) (s : Store)
      → Keeps a u s false (claim_for a u intent s)
  unfolding claim_for try_claim_event claim_step
  claim_for-Keeps a u intent s = go (Bool-cases (any (is_event u a.source x) s.events))
    where
      x : String
      x = text_or intent.provider_reference intent.order_id

      row : ProcessedEvent
      row = claim_row u a.source x a.payload_hash

      granted :
          any (is_event u a.source x) s.events ≡ false
          → (others : ℕ) → Covered others s false
          → Covered others
              (record s { events = row ∷ s.events })
              ((u == t) && str_eq a.source y && str_eq x z)
      granted absent others h = elim (Bool-cases (is_event t y z row)) [
        | inl e ↦
            let none_yet = absent_same_key t y z row s.events e absent in
            let h' : count (is_mark t y z) s.marks + others + 0 ≤ 0 = rw none_yet at h in
            rw e (omega (arith, h'))
        | inr e ↦ rw e h
      ]

      go :
          (any (is_event u a.source x) s.events ≡ true)
            ⊎ (any (is_event u a.source x) s.events ≡ false)
          → Keeps a u s false (claim_for a u intent s)
      go (inl e) = rw e (λ others h. h)
      go (inr e) = rw e (granted e)

  pay_step-Keeps :
      (a : Answers) (u : ℕ) (x : String) (intent : PaymentIntent) (out : Result String Bool)
      (s : Store)
      → Keeps a u s ((u == t) && str_eq a.source y && str_eq x z) (pay_step a u x intent out s)
  unfolding pay_step
  pay_step-Keeps a u x intent (err e) s = release-Keeps a u x s
  pay_step-Keeps a u x intent (ok b) s = λ others h.
      elim (Bool-cases ((u == t) && str_eq a.source y && str_eq x z)) [
        | inl e ↦
            let h' : count (is_mark t y z) s.marks + others + 1
                ≤ bit (any (is_event t y z) s.events) =
              rw e at h in
            rw e (omega (arith, h'))
        | inr e ↦ rw e (rw e at h)
      ]

  -- A claim that is not used up for a mark stays covered.
  spent-Keeps :
      (a : Answers) (u : ℕ) (x : String) (intent : PaymentIntent) (s : Store) (held : Bool)
      → Keeps a u s held (concluding x intent, s)
  spent-Keeps a u x intent s held others h = omega (arith, h)

  verify_step-Keeps :
      (a : Answers) (u : ℕ) (x : String) (intent : PaymentIntent)
      (out : Result String (PaymentStatus × List OrderMetafield)) (s : Store)
      → Keeps a u s ((u == t) && str_eq a.source y && str_eq x z) (verify_step a u x intent out s)
  unfolding verify_step
  verify_step-Keeps a u x intent (err e) s = release-Keeps a u x s
  verify_step-Keeps a u x intent (ok (PaymentStatus.confirmed, fields)) s =
      let verified = record intent { order_metafields = fields } in
      elim (Bool-cases (has_text intent.order_id)) [
        | inl e ↦ rw e (pay_step-Keeps a u x verified a.marked s)
        | inr e ↦ rw e (
            spent-Keeps a u x (with_status "failed" verified) s
              ((u == t) && str_eq a.source y && str_eq x z))
      ]
  verify_step-Keeps a u x intent (ok (PaymentStatus.pending, fields)) s =
      spent-Keeps a u x (with_status "pending" (record intent { order_metafields = fields })) s
        ((u == t) && str_eq a.source y && str_eq x z)
  verify_step-Keeps a u x intent (ok (PaymentStatus.failed, fields)) s =
      spent-Keeps a u x (with_status "failed" (record intent { order_metafields = fields })) s
        ((u == t) && str_eq a.source y && str_eq x z)

  begin_callback-Keeps :
      (a : Answers) (u : ℕ) (out : Result String PaymentIntent) (s : Store)
      → Keeps a u s false (begin_callback a u out s)
  unfolding begin_callback begin_resolved
  begin_callback-Keeps a u (err e) s = λ others h. h
  begin_callback-Keeps a u (ok intent) s = go (resolve_order a.provider u intent s.intents)
    where
      go : (r : Result String PaymentIntent) → Keeps a u s false (begin_resolved a u r s)
      go (err e) = λ others h. h
      go (ok i) = claim_for-Keeps a u i s

  begin_settlement-Keeps :
      (a : Answers) (u : ℕ) (intent : PaymentIntent) (s : Store)
      → Keeps a u s false (begin_settlement a u intent s)
  unfolding begin_settlement
  begin_settlement-Keeps a u intent s =
      elim (Bool-cases (
        has_text (text_or intent.provider_reference intent.order_id) && has_text intent.order_id)) [
          | inl e ↦ rw e (claim_for-Keeps a u intent s)
          | inr e ↦ rw e (λ others h. h)
        ]

  event_step-Keeps :
      (a : Answers) (u : ℕ) (x : String) (intent : PaymentIntent) (out : Result String Bool)
      (s : Store)
      → Keeps a u s false (event_step a u x intent out s)
  unfolding event_step
  event_step-Keeps a u x intent (err e) s others h = h
  event_step-Keeps a u x intent (ok b) s others h =
      rw (any-mark_event_status t y z u a.source x intent.status s.events) h

  intent_step-Keeps :
      (a : Answers) (u : ℕ) (intent : PaymentIntent) (out : Result String Bool) (s : Store)
      → Keeps a u s false (intent_step a u intent out s)
  unfolding intent_step
  intent_step-Keeps a u intent (err e) s others h = h
  intent_step-Keeps a u intent (ok b) s others h = h

  -- A step that leaves the marks and the events alone.
  same-Keeps :
      (a : Answers) (u : ℕ) (x : String) (intent : PaymentIntent) (s s' : Store)
      → (s'.marks ≡ s.marks) × (s'.events ≡ s.events)
      → Keeps a u s false (concluding x intent, s')
  same-Keeps a u x intent s s' (m, e) others h = rw (m, e) h

  abbrev StepKeeps : Call → Phase → Store → Type 0
  StepKeeps c phase s =
      (others : ℕ)
      → Covered others s (holds (c, phase))
      → Covered others (advance c phase s).1 (holds (c, (advance c phase s).0))

  advance-Keeps : (c : Call) (phase : Phase) (s : Store) → StepKeeps c phase s
  unfolding advance
  advance-Keeps (callback a u) finished s = λ others h. h
  advance-Keeps (settlement a u i) finished s = λ others h. h
  advance-Keeps (callback a u) waiting s = begin_callback-Keeps a u a.parsed s
  advance-Keeps (settlement a u i) waiting s = begin_settlement-Keeps a u i s
  advance-Keeps (callback a u) (claimed x intent) s = verify_step-Keeps a u x intent a.verified s
  advance-Keeps (settlement a u i) (claimed x intent) s = pay_step-Keeps a u x intent a.marked s
  advance-Keeps (callback a u) (marked x intent) s =
      same-Keeps a u x intent s (annotate_order a intent s) (annotate_order-kept a intent s)
  advance-Keeps (settlement a u i) (marked x intent) s =
      same-Keeps a u x intent s (annotate_settled_order a intent s)
        (annotate_settled_order-kept a intent s)
  advance-Keeps (callback a u) (concluding x intent) s =
      event_step-Keeps a u x intent a.event_written s
  advance-Keeps (settlement a u i) (concluding x intent) s =
      event_step-Keeps a u x intent a.event_written s
  advance-Keeps (callback a u) (updating x intent) s =
      intent_step-Keeps a u intent a.intent_written s
  advance-Keeps (settlement a u i) (updating x intent) s =
      intent_step-Keeps a u intent a.intent_written s

  -- Every mark and every claim in hand has its event, and an event covers one of them.
  abbrev AllCovered : System → Type 0
  AllCovered u =
      count (is_mark t y z) u.store.marks + count holds u.workers
      ≤ bit (any (is_event t y z) u.store.events)

  count-turn :
      (before after : List Worker) (w : Worker)
      → count holds (before ++ w ∷ after) ≡ count holds before + count holds after + bit (holds w)
  count-turn [] after w = elim (Bool-cases (holds w)) [
    | inl e ↦ rw e (omega arith)
    | inr e ↦ rw e (omega arith)
  ]
  count-turn (b ∷ before) after w =
      let ih = count-turn before after w in
      elim (Bool-cases (holds b)) [ inl e ↦ rw e (omega (arith, ih)) | inr e ↦ rw e ih ]

  Step-AllCovered : (u v : System) → Step u v → AllCovered u → AllCovered v
  Step-AllCovered u v (turn before after c phase e f) h =
      let others = count holds before + count holds after in
      let next = advance c phase u.store in
      let old = ap (count holds) e ∙ count-turn before after (c, phase) in
      let new = count-turn before after (c, next.0) in
      let kept = advance-Keeps c phase u.store others (omega (arith, h, old)) in
      rw f (omega (arith, kept, new))

  Reach-AllCovered : {u v : System} → Reach u v → AllCovered u → AllCovered v
  Reach-AllCovered here h = h
  Reach-AllCovered (later {v} {w} r s) h = Step-AllCovered v w s (Reach-AllCovered r h)

-- No delivery has begun.
abbrev pub AllWaiting : System → Type 0
AllWaiting u = All (λ (w : Worker). w.1 ≡ waiting) u.workers

count-waiting :
    (t : ℕ) (y z : String) (ws : List Worker)
    → All (λ (w : Worker). w.1 ≡ waiting) ws
    → count (holds t y z) ws ≡ 0
count-waiting t y z [] h = refl
count-waiting t y z ((callback a u, phase) ∷ ws) (e, h) = rw e (count-waiting t y z ws h)
count-waiting t y z ((settlement a u i, phase) ∷ ws) (e, h) = rw e (count-waiting t y z ws h)

-- In whatever order the steps of concurrent callbacks and settlements fall, an order is marked as
-- paid at most once under each claim.
pub interleaved_at_most_once :
    {u v : System}
    → AllWaiting u
    → u.store.marks ≡ []
    → Reach u v
    → (t : ℕ) (source external_id : String) → count (is_mark t source external_id) v.store.marks ≤ 1
interleaved_at_most_once {u} {v} waiting_all none_yet r t y z =
    let empty = count-waiting t y z u.workers waiting_all in
    let h = Reach-AllCovered t y z r (rw (none_yet, empty) (omega arith)) in
    omega (arith, h, bit_le (any (is_event t y z) v.store.events))
