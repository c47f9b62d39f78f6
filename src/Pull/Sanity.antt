-- ===== src/Pull/Sanity.antt =====
-- Which pulls may replace the current snapshot.
use bims_shopify.Base.{
  ℕ, ◌+◌, ◌*◌, ◌≤◌, ◌≡◌, ◌≢◌, ◌↔◌, refl, Bool, true, false, ◌&&◌, Option, none, some, arith, ltb,
  length,
}
use bims_shopify.Values.{unit}
use bims_shopify.Snapshot.{Tenant, CatalogPull, SnapshotMeta}
use bims_shopify.Pull.{Rejection, drop_exceeds, check_sizes, incomplete, check_sanity}

-- `new` is at least the previous size less the allowed share, and less one unit of 10⁻⁹.
abbrev pub Enough : ℕ → ℕ → ℕ → Type 0
Enough ratio new previous = previous * unit ≤ new * unit + ratio * previous + 1

abbrev pub EnoughFor : Tenant → CatalogPull → Option SnapshotMeta → Type 0
EnoughFor tenant pull none = Unit
EnoughFor tenant pull (some previous) =
    Enough tenant.pull_max_drop_ratio (length pull.rows) previous.rows_pulled
    × Enough tenant.pull_max_drop_ratio (length pull.stock) previous.stock_rows

abbrev passes : ℕ → ℕ → ℕ → Bool
passes new old ratio = ltb 0 old && drop_exceeds new old ratio

passes_iff : (new old ratio : ℕ) → (passes new old ratio ≡ false) ↔ Enough ratio new old
unfolding drop_exceeds
passes_iff new old ratio = ground arith

check_sizes_iff :
    (tenant : Tenant) (pull : CatalogPull) (previous : Option SnapshotMeta)
    → (check_sizes tenant pull previous ≡ none) ↔ EnoughFor tenant pull previous
unfolding drop_exceeds
check_sizes_iff tenant pull none = ((λ _. tt), (λ _. refl))
check_sizes_iff tenant pull (some previous) = ground arith

-- A pull may replace the current snapshot exactly when the ERP did not report it incomplete and,
-- if there is a current snapshot, neither its rows nor its stock rows fell by more than the allowed
-- share (with a slack of 10⁻⁹).
pub check_sanity_iff :
    (tenant : Tenant) (pull : CatalogPull) (previous : Option SnapshotMeta)
    → (check_sanity tenant pull previous ≡ none)
      ↔ ((pull.complete ≢ some false) × EnoughFor tenant pull previous)
unfolding check_sanity
check_sanity_iff tenant pull previous = go pull.complete
  where
    go :
        (c : Option Bool)
        → ((elim c as (λ _. Option Rejection) [
          | some false ↦
              some
                (incomplete (length pull.rows) pull.reported_count pull.stop_reason pull.warnings)
          | some true ↦ check_sizes tenant pull previous
          | none ↦ check_sizes tenant pull previous
        ])
            ≡ none)
          ↔ ((c ≢ some false) × EnoughFor tenant pull previous)
    go none = (
      (λ h. ((λ e. cc), (check_sizes_iff tenant pull previous).0 h)),
      (λ h. (check_sizes_iff tenant pull previous).1 h.1),
    )
    go (some true) = (
      (λ h. ((λ e. cc), (check_sizes_iff tenant pull previous).0 h)),
      (λ h. (check_sizes_iff tenant pull previous).1 h.1),
    )
    go (some false) = ((λ h. cc), (λ h. absurd (h.0 refl)))
