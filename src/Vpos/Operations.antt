-- ===== src/Vpos/Operations.antt =====
-- The numbers of the operations, and the two readings of a rollback's answer.
use bims_shopify.Base.{
  ℕ, ◌+◌, ◌*◌, ◌%◌, ◌^◌, ◌≤◌, ◌<◌, String, ◌≡◌, ◌≢◌, refl, ap, ◌∙◌, inl, inr, Bool-cases, ◌↔◌, ◌⊎◌,
  ◌||◌, ◌==◌, Option, none, some, arith, leb, ℤ, pos, negsuc, Result, ok, err,
}
use bims_shopify.Vpos.{
  build_shop_process_id, check_attempt, check_row, probe_shop_process_id, RollbackOutcome,
  RollbackVerdict, classify_rollback_key, classify_rollback_verdict,
}

abbrev value_of : Result String ℕ → ℕ
value_of (ok n) = n
value_of (err e) = 0

not_ok : {e : String} {n : ℕ} → ◌≢◌ {A = Result String ℕ} (err e) (ok n)
not_ok h = cc

built :
    (r a : ℕ) {spid : ℕ}
    → build_shop_process_id (pos r) (pos a) ≡ ok spid
    → (a ≤ 99)
      × (0 < r)
      × (r < 10 ^ 13)
      × (r * 100 + a ≢ probe_shop_process_id)
      × (r * 100 + a ≡ spid)
unfolding build_shop_process_id check_attempt check_row
built r a {spid} h = elim (Bool-cases (leb a 99)) [
  | inr e ↦ absurd (not_ok (rw e at h))
  | inl e ↦ elim (Bool-cases ((r == 0) || leb (10 ^ 13) r)) [
    | inl f ↦ absurd (not_ok (rw (e, f) at h))
    | inr f ↦ elim (Bool-cases ((r * 100 + a) == probe_shop_process_id)) [
      | inl g ↦ absurd (not_ok (rw (e, f, g) at h))
      | inr g ↦ (
        ground (arith, e),
        ground (arith, f),
        ground (arith, f),
        ground (arith, g),
        ap value_of (rw (e, f, g) at h),
      )
    ]
  ]
]

-- An operation number is given out for a row and an attempt only if it has at most 15 digits, is not
-- the probe's, and carries the attempt in its last two digits and the row in the others.
pub build_shop_process_id_parts :
    (row_id attempt : ℤ) {spid : ℕ}
    → build_shop_process_id row_id attempt ≡ ok spid
    → (spid < 10 ^ 15)
      × (spid ≢ probe_shop_process_id)
      × (pos (spid % 100) ≡ attempt)
      × ((r : ℕ) × (pos r ≡ row_id) × (0 < r) × (spid ≡ r * 100 + spid % 100))
unfolding build_shop_process_id check_attempt check_row
build_shop_process_id_parts (pos r) (pos a) {spid} h =
    let (small, positive, digits, apart, made) = built r a h in
    let in_range : spid % 100 ≡ a = omega (arith, small, made) in
    (
      omega (arith, small, digits, made),
      (λ e. apart (made ∙ e)),
      ap pos in_range,
      (r, refl, positive, omega (arith, small, made)),
    )
build_shop_process_id_parts (pos r) (negsuc a) {spid} h = cc
build_shop_process_id_parts (negsuc r) (pos a) {spid} h = elim (Bool-cases (leb a 99)) [
  | inl e ↦ absurd (not_ok (rw e at h))
  | inr e ↦ absurd (not_ok (rw e at h))
]
build_shop_process_id_parts (negsuc r) (negsuc a) {spid} h = cc

-- The two readings of a rollback's answer agree: benign is what reversed the charge or had nothing to
-- reverse, and the operator's action is what the verdict calls a manual annulment.
pub rollback_readings_iff :
    (key : Option String)
    → ((classify_rollback_key key ≡ RollbackOutcome.benign) ↔ (
        (classify_rollback_verdict key ≡ RollbackVerdict.succeeded)
        ⊎ (classify_rollback_verdict key ≡ RollbackVerdict.no_op)))
      × ((classify_rollback_key key ≡ RollbackOutcome.operator_action)
          ↔ (classify_rollback_verdict key ≡ RollbackVerdict.manual_annulment_required))
unfolding classify_rollback_key classify_rollback_verdict
rollback_readings_iff none = ground arith
rollback_readings_iff (some key) = ground arith
