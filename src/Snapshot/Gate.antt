-- ===== src/Snapshot/Gate.antt =====
-- When a snapshot may be written from.
use bims_shopify.Base.{
  ℕ, ◌-◌, ◌*◌, ◌≤◌, ◌≡◌, ◌≢◌, refl, ◌↔◌, Bool, true, false, Option, none, some, arith,
}
use bims_shopify.Snapshot.{SnapshotMeta, Tenant, is_incomplete, finished_time, snapshot_decline}

-- There is a snapshot, it is not known to be incomplete, and its age is within the tenant's limit.
abbrev pub Writable : Option SnapshotMeta → Tenant → ℕ → Type 0
Writable none tenant now = ⊥
Writable (some meta) tenant now =
    (meta.complete ≢ some false)
    × (now - finished_time meta ≤ tenant.snapshot_max_age_minutes * 60000000)

is_incomplete_iff : (c : Option Bool) → (is_incomplete c ≡ false) ↔ (c ≢ some false)
is_incomplete_iff none = ((λ _ h. cc), (λ _. refl))
is_incomplete_iff (some true) = ((λ _ h. cc), (λ _. refl))
is_incomplete_iff (some false) = ((λ h _. cc), (λ h. absurd (h refl)))

-- The write cycle is let through exactly when there is a snapshot that is not flagged incomplete
-- (unknown completeness counts as usable) and is no older than the limit.
pub snapshot_decline_iff :
    (meta : Option SnapshotMeta) (tenant : Tenant) (now : ℕ)
    → (snapshot_decline meta tenant now ≡ none) ↔ Writable meta tenant now
unfolding snapshot_decline
snapshot_decline_iff none tenant now = ((λ h. cc), (λ h. absurd h))
snapshot_decline_iff (some meta) tenant now = (
  (λ h. ((is_incomplete_iff meta.complete).0 (ground arith), ground arith)),
  (λ h. ground (arith, (is_incomplete_iff meta.complete).1 h.0)),
)
