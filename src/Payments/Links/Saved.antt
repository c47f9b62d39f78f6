-- ===== src/Payments/Links/Saved.antt =====
-- A saved intent is found again.
use text.Mathlib.TextPositions.{eq_refl}
use bims_shopify.Base.{
  ℕ, suc, ◌≤◌, String, ◌≡◌, refl, ap, inl, inr, Bool, true, ◌==◌, ==_iff, some, List, [], ◌∷◌,
  arith, Bool-cases, count, select, ok,
}
use bims_shopify.Payments.{PaymentIntent, IntentRow, Store, is_intent_of, one_intent}
use bims_shopify.Payments.Links.{new_row, upsert, save, get_by_order_id}

none_selected :
    (p : IntentRow → Bool) (rows : List IntentRow) → count p rows ≤ 0 → select p rows ≡ []
none_selected p [] h = refl
none_selected p (r ∷ rs) h = elim (Bool-cases (p r)) [
  | inl e ↦ absurd (omega (arith, (rw e at h)))
  | inr e ↦ rw e (none_selected p rs (rw e at h))
]

module _ (t : ℕ) (provider : String) (intent : PaymentIntent) where
  row_matches :
      (id : ℕ) → is_intent_of t provider intent.order_id (new_row id t provider intent) ≡ true
  row_matches id = rw (same, eq_refl provider, eq_refl intent.order_id) refl
    where
      same : (t == t) ≡ true
      same = (==_iff t t).1 refl

  select-upsert :
      (next : ℕ) (rows : List IntentRow)
      → count (is_intent_of t provider intent.order_id) rows ≤ 1
      → select (is_intent_of t provider intent.order_id) (upsert next t provider intent rows).1
        ≡ new_row (upsert next t provider intent rows).0.0 t provider intent ∷ []
  unfolding upsert
  select-upsert next [] h = rw (row_matches next) refl
  select-upsert next (r ∷ rs) h = elim (Bool-cases (is_intent_of t provider intent.order_id r)) [
    | inl e ↦
        rw (e, row_matches r.id)
          (ap (λ l. new_row r.id t provider intent ∷ l)
            (none_selected (is_intent_of t provider intent.order_id) rs (less rs (rw e at h))))
    | inr e ↦ rw (e, e) (select-upsert next rs (rw e at h))
  ]
    where
      less :
          (rows : List IntentRow)
          → suc (count (is_intent_of t provider intent.order_id) rows) ≤ 1
          → count (is_intent_of t provider intent.order_id) rows ≤ 0
      less rows k = omega (arith, k)

  -- While the table has at most one row for an order, an intent that is saved is the one that a
  -- lookup of its order finds, with the row id that the save returned, but for its metafields and
  -- its tenant's slug: neither is kept, and the slug of what is found is empty.
  pub get_by_order_id-save :
      (s : Store)
      → count (is_intent_of t provider intent.order_id) s.intents ≤ 1
      → get_by_order_id t provider intent.order_id (save t provider intent s).1.intents
        ≡ ok (
            some (record intent {
              tenant_slug = "";
              row_id = some (save t provider intent s).0;
              order_metafields = [];
            }))
  unfolding get_by_order_id save
  get_by_order_id-save s h = ap one_intent (select-upsert s.next_id s.intents h)
