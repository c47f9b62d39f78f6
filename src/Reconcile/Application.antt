-- ===== src/Reconcile/Application.antt =====
-- When a reconciliation writes at all.
use bims_shopify.Base.{
  ℕ, String, ◌≡◌, ◌≢◌, refl, ap, ◌⊎◌, inl, inr, Bool, true, false, Option, none, some, List, [], ℤ,
  Result, ok, err,
}
use bims_shopify.Snapshot.{Tenant}
use bims_shopify.Inventory.{InventoryDelta, NeedsConfirmation, check_safety_guard}
use bims_shopify.Reconcile.{
  ReconcilePlan, Report, apply_numbered, guard_numbers, guard_result, apply_verdict, apply,
  GuardNumbers,
}

module _ (answer : ℕ → Option String) where
  numbered_writes :
      (dry_run : Bool) (deltas : List InventoryDelta) (report : Report)
      (verdict : Option NeedsConfirmation) (numbers : Result String GuardNumbers)
      → (apply_numbered answer dry_run deltas report verdict numbers).accepted ≢ []
      → (verdict ≡ none) × (dry_run ≡ false)
  unfolding apply_numbered
  numbered_writes dry_run deltas report verdict (err e) h = absurd (h refl)
  numbered_writes dry_run deltas report (some c) (ok n) h = absurd (h refl)
  numbered_writes true deltas report none (ok n) h = absurd (h refl)
  numbered_writes false deltas report none (ok n) h = (refl, refl)

  module _ (parse_float parse_int : String → Option ℤ) (p : ReconcilePlan) (tenant : Tenant) where
    verdict_writes :
        (dry_run force : Bool) (g : Result String (Option NeedsConfirmation))
        → (apply_verdict parse_float parse_int answer p tenant dry_run force g).accepted ≢ []
        → (g ≡ ok none) × (dry_run ≡ false)
    unfolding apply_verdict
    verdict_writes dry_run force (err e) h = absurd (h refl)
    verdict_writes dry_run force (ok verdict) h =
        let (v, d) =
          numbered_writes dry_run p.to_push p.report verdict
            (guard_numbers parse_float parse_int tenant p.to_push verdict force) h in
        (ap ok v, d)

    allowed :
        (force : Bool)
        → guard_result parse_float parse_int tenant p.to_push force ≡ ok none
        → (force ≡ true) ⊎ (check_safety_guard parse_float parse_int tenant p.to_push ≡ ok none)
    unfolding guard_result
    allowed true h = inl refl
    allowed false h = inr h

    -- If any batch reaches Shopify, the run was no dry run, and either the operator forced it or
    -- the guard passed the very deltas of the plan.
    pub apply_writes :
        (dry_run force : Bool)
        → (apply parse_float parse_int answer p tenant dry_run force).accepted ≢ []
        → (dry_run ≡ false)
          × ((force ≡ true) ⊎ (check_safety_guard parse_float parse_int tenant p.to_push ≡ ok none))
    unfolding apply
    apply_writes dry_run force h =
        let (g, d) =
          verdict_writes dry_run force (guard_result parse_float parse_int tenant p.to_push force)
            h in
        (d, allowed force g)
