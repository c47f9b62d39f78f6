-- ===== src/Payments/Events.antt =====
-- What the operations on processed events do to the presence of a claim.
use text.Mathlib.TextPositions.{eq_refl}
use bims_shopify.Base.{
  ℕ, String, ◌≡◌, refl, ap, eq_iff, Bool, true, false, ◌&&◌, ◌==◌, ==_iff, List, [], ◌∷◌, any,
  Bool-cases, inl, inr, arith, str_eq,
}
use bims_shopify.Payments.{ProcessedEvent, is_event, mark_event_status, delete_event}

abbrev pub has_event : ℕ → String → String → List ProcessedEvent → Bool
has_event t s x es = any (is_event t s x) es

module _ (t : ℕ) (s x : String) where
  -- Marking a status adds and removes no event.
  pub any-mark_event_status :
      (t' : ℕ) (s' x' status : String) (es : List ProcessedEvent)
      → any (is_event t s x) (mark_event_status t' s' x' status es) ≡ any (is_event t s x) es
  unfolding mark_event_status
  any-mark_event_status t' s' x' status [] = refl
  any-mark_event_status t' s' x' status (e ∷ es) =
      let ih = any-mark_event_status t' s' x' status es in
      elim (Bool-cases (is_event t' s' x' e)) [ inl h ↦ rw h | inr h ↦ rw (h, ih) ]

  -- A deletion of an event that is not there changes nothing.
  pub delete_event-absent :
      (es : List ProcessedEvent) → any (is_event t s x) es ≡ false → delete_event t s x es ≡ es
  unfolding delete_event
  delete_event-absent [] h = refl
  delete_event-absent (e ∷ es) h = elim (Bool-cases (is_event t s x e)) [
    | inl k ↦ cc
    | inr k ↦ rw k (ap (λ l. e ∷ l) (delete_event-absent es (rw k at h)))
  ]

-- Equal keys.
pub key_parts :
    (a t : ℕ) (b s c x : String)
    → ((a == t) && str_eq b s && str_eq c x) ≡ true
    → (a ≡ t) × (b ≡ s) × (c ≡ x)
key_parts a t b s c x h =
    (ground (arith, h), (eq_iff b s).0 (ground (arith, h)), (eq_iff c x).0 (ground (arith, h)))

-- An event with this key is absent when the key's claim is.
pub absent_same_key :
    (t : ℕ) (s x : String) (e : ProcessedEvent) (es : List ProcessedEvent)
    → is_event t s x e ≡ true
    → any (is_event e.tenant_id e.source e.external_id) es ≡ false
    → any (is_event t s x) es ≡ false
absent_same_key t s x e es same h =
    let (a, b, c) = key_parts e.tenant_id t e.source s e.external_id x same in rw⁻¹ (a, b, c) h

-- Deleting the event of a claim that has just been granted.
pub delete_event-claimed :
    (e : ProcessedEvent) (es : List ProcessedEvent)
    → any (is_event e.tenant_id e.source e.external_id) es ≡ false
    → delete_event e.tenant_id e.source e.external_id (e ∷ es) ≡ es
unfolding delete_event
delete_event-claimed e es h =
    rw (same, eq_refl e.source, eq_refl e.external_id)
      (delete_event-absent e.tenant_id e.source e.external_id es h)
  where
    same : (e.tenant_id == e.tenant_id) ≡ true
    same = (==_iff e.tenant_id e.tenant_id).1 refl
