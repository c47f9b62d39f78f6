-- ===== src/Generations/Retention.antt =====
-- Which generations a purge keeps: the current one, unless the history cap has passed it.
use mathlib.Core.Bool.{false≢true}
use bims_shopify.Base.{
  ℕ, zero, suc, ◌≤◌, ◌<◌, ◌≡◌, ◌≢◌, refl, sym, ap, ◌∙◌, subst, inl, inr, Bool, true, false, ◌&&◌,
  none, some, List, [], ◌∷◌, ◌++◌, arith, mem_ℕ, ok, All, All-of, All-imp, All-zip, length,
  length-append, length-select, select, selected-All, select-append, select_comm, select-select,
  select-true, drop, Bool-cases,
}
use bims_shopify.Snapshot.{Status, CatalogPull}
use bims_shopify.Values.{Object}
use bims_shopify.Generations.{
  Generation, Db, same_status, is_current_of, ids_where, not_in, keep_step, kept_after, kept_ids,
  of_tenant, ordered, meta_history_cap, dropped_ids, trimmed_ids, purge, delete_rows,
  new_generation, record_rejected, get_current_meta, one_or_none, load_current,
}
use bims_shopify.Generations.Ids.{Descending, select-Descending, disjoint_ids, mem_above}
use bims_shopify.Generations.Invariant.{IsValid, insert-IsValid}
use bims_shopify.Generations.Visibility.{
  SameView, SameView-trans, delete_rows-SameView, load_current-SameView,
}

keep_step_mono :
    (k : ℕ) (s : Status) (b : Bool) (id : ℕ) (rest : List ℕ)
    → mem_ℕ k rest ≡ true
    → mem_ℕ k (keep_step s b id rest) ≡ true
keep_step_mono k Status.current b id rest h = ground arith
keep_step_mono k Status.building b id rest h = ground arith
keep_step_mono k Status.superseded b id rest h = ground arith
keep_step_mono k Status.rejected b id rest h = h
keep_step_mono k Status.failed b id rest h = h

keep_step_current :
    (s : Status) (b : Bool) (id : ℕ) (rest : List ℕ)
    → same_status s Status.current ≡ true
    → mem_ℕ id (keep_step s b id rest) ≡ true
keep_step_current Status.current b id rest h = ground arith
keep_step_current Status.building b id rest h = cc
keep_step_current Status.superseded b id rest h = cc
keep_step_current Status.rejected b id rest h = cc
keep_step_current Status.failed b id rest h = cc

-- A generation whose status is current keeps its rows.
kept_current :
    (b : Bool) (gs : List Generation)
    → All (λ g. same_status g.status Status.current ≡ true → mem_ℕ g.id (kept_ids b gs) ≡ true) gs
unfolding kept_ids
kept_current b [] = tt
kept_current b (g ∷ gs) = (
  keep_step_current g.status b g.id (kept_ids (kept_after g.status b) gs),
  All-imp _ _ gs
      (λ h kept c.
        keep_step_mono h.id g.status b g.id (kept_ids (kept_after g.status b) gs) (kept c))
      (kept_current (kept_after g.status b) gs),
)

-- What holds of the selected rows holds of the rows that meet the test.
pub All-unselect :
    (P : Generation → Type 0) (p : Generation → Bool) (gs : List Generation)
    → All P (select p gs)
    → All (λ g. p g ≡ true → P g) gs
All-unselect P p [] a = tt
All-unselect P p (g ∷ gs) a = elim (Bool-cases (p g)) [
  | inl e ↦ let (h, rest) = head_of e a in ((λ _. h), All-unselect P p gs rest)
  | inr e ↦ ((λ t. absurd (false≢true (sym e ∙ t))), All-unselect P p gs (rw e at a))
]
  where
    head_of : p g ≡ true → All P (select p (g ∷ gs)) → P g × All P (select p gs)
    head_of e b = rw e at b

ids_where-select :
    (p q : Generation → Bool) (gs : List Generation)
    → ids_where q (select p gs) ≡ ids_where (λ g. p g && q g) gs
unfolding ids_where
ids_where-select p q [] = refl
ids_where-select p q (g ∷ gs) = ground (arith, ids_where-select p q gs)

mem_drop :
    (k c : ℕ) (gs : List Generation)
    → mem_ℕ k (ids_where (λ h. true) gs) ≡ false
    → mem_ℕ k (ids_where (λ h. true) (drop c gs)) ≡ false
unfolding ids_where
mem_drop k zero gs h = h
mem_drop k (suc c) [] h = h
mem_drop k (suc c) (g ∷ gs) h = mem_drop k c gs (ground arith)

module _ (t tenant_id : ℕ) (db : Db) (v : IsValid db) where
  abbrev kept_list : List ℕ
  kept_list = kept_ids false (ordered tenant_id db)

  -- A current generation of the tenant is kept, and one of another tenant is not looked at.
  current_kept :
      All
        (λ g. is_current_of t g ≡ true → (of_tenant tenant_id g && not_in g.id kept_list) ≡ false)
        db.generations
  current_kept =
      All-zip _ _ _ db.generations (λ g status kept c. ground (arith, status, kept)) v.statuses
        (All-unselect
          (λ g. same_status g.status Status.current ≡ true → mem_ℕ g.id kept_list ≡ true)
          (of_tenant tenant_id) db.generations (kept_current false (ordered tenant_id db)))

  current_not_dropped :
      All
        (λ g. is_current_of t g ≡ true → mem_ℕ g.id (dropped_ids tenant_id db) ≡ false)
        db.generations
  unfolding dropped_ids
  current_not_dropped =
      rw (ids_where-select (of_tenant tenant_id) (λ g. not_in g.id kept_list) db.generations) (
        disjoint_ids (λ g. of_tenant tenant_id g && not_in g.id kept_list) (is_current_of t)
          db.next_id db.generations v.ids current_kept)

  -- A purge shows a tenant's readers no change, as long as its current generation is not trimmed.
  pub purge-SameView :
      All
        (λ g. is_current_of t g ≡ true → mem_ℕ g.id (trimmed_ids tenant_id db) ≡ false)
        db.generations
      → SameView t db (purge tenant_id db)
  unfolding purge
  purge-SameView a =
      let dropped = dropped_ids tenant_id db in
      let trimmed = trimmed_ids tenant_id db in
      SameView-trans (delete_rows-SameView t db dropped current_not_dropped) (
        SameView-trans
          (delete_rows-SameView t (delete_rows dropped db) trimmed (unfold delete_rows in a))
          (unfold delete_rows in
            (record {
              selected =
                  select_comm (is_current_of t) (λ g. not_in g.id trimmed) db.generations
                  ∙ select-true (λ g. not_in g.id trimmed) (select (is_current_of t) db.generations)
                      (selected-All _ (is_current_of t) db.generations
                        (All-imp _ _ db.generations (λ g m c. ground (arith, m c)) a));
              kept = All-of _ (λ g. (refl, refl)) (select (is_current_of t) db.generations);
            })))

  -- A purge for one tenant shows the readers of another no change.
  pub purge-SameView_other : t ≢ tenant_id → SameView t db (purge tenant_id db)
  unfolding trimmed_ids
  purge-SameView_other ne = purge-SameView (
      All-imp _ _ db.generations
        (λ g apart c.
          mem_drop g.id 50 (ordered tenant_id db)
            (rw (ids_where-select (of_tenant tenant_id) (λ h. true) db.generations) (apart c)))
        (disjoint_ids (λ g. of_tenant tenant_id g && true) (is_current_of t) db.next_id
          db.generations v.ids (All-of _ (λ g c. ground arith) db.generations)))

pub mem_drop_older :
    (k n : ℕ) (g : Generation) (newer older : List Generation)
    → Descending n (newer ++ g ∷ older)
    → length newer < k
    → mem_ℕ g.id (ids_where (λ h. true) (drop k (newer ++ g ∷ older))) ≡ false
mem_drop_older zero n g newer older d h = absurd (omega arith)
mem_drop_older (suc k) n g [] older d h =
    mem_drop g.id k older (mem_above (λ h. true) g.id g.id older d.1 (omega arith))
mem_drop_older (suc k) n g (x ∷ newer) older d h =
    mem_drop_older k x.id g newer older d.1 (omega arith)

mem_drop_newer :
    (k : ℕ) (g : Generation) (newer older : List Generation)
    → k ≤ length newer
    → mem_ℕ g.id (ids_where (λ h. true) (drop k (newer ++ g ∷ older))) ≡ true
unfolding ids_where
mem_drop_newer zero g [] older h = ground arith
mem_drop_newer zero g (x ∷ newer) older h = ground (arith, mem_drop_newer zero g newer older)
mem_drop_newer (suc k) g [] older h = absurd (omega arith)
mem_drop_newer (suc k) g (x ∷ newer) older h = mem_drop_newer k g newer older (omega arith)

single :
    (xs ys : List Generation) (g : Generation) → length (xs ++ g ∷ ys) ≤ 1 → xs ++ g ∷ ys ≡ g ∷ []
single [] [] g h = refl
single [] (y ∷ ys) g h = absurd (omega arith)
single (x ∷ xs) ys g h = absurd (omega (arith, length-append xs (g ∷ ys)))

module _ (tenant_id : ℕ) (db : Db) (v : IsValid db) (g : Generation) (newer older : List Generation)
    (place : ordered tenant_id db ≡ newer ++ g ∷ older)
    (current : is_current_of tenant_id g ≡ true) where
  -- The only current generation of the tenant.
  pub current_single : select (is_current_of tenant_id) db.generations ≡ g ∷ []
  current_single =
      sym whole
      ∙ single (select (is_current_of tenant_id) newer) (select (is_current_of tenant_id) older) g (
          omega (
            arith,
            ap length whole,
            v.one_current tenant_id,
            length-select (is_current_of tenant_id) db.generations,
          ))
    where
      head_kept :
          select (is_current_of tenant_id) (g ∷ older) ≡ g ∷ select (is_current_of tenant_id) older
      head_kept = rw current

      whole :
          select (is_current_of tenant_id) newer ++ g ∷ select (is_current_of tenant_id) older
          ≡ select (is_current_of tenant_id) db.generations
      whole =
          sym (
            select-append (is_current_of tenant_id) newer (g ∷ older)
            ∙ ap (λ r. select (is_current_of tenant_id) newer ++ r) head_kept)
          ∙ ap (select (is_current_of tenant_id)) (sym place)
          ∙ select-select (is_current_of tenant_id) (of_tenant tenant_id) db.generations
              (λ x h. ground arith)

  module _ (pull : CatalogPull) (started_at finished_at : ℕ) (rejection : Object) where
    abbrev row : Generation
    row =
        new_generation db.next_id tenant_id Status.rejected pull started_at (some finished_at)
          (some rejection)

    abbrev inserted : Db
    inserted = record db { generations = row ∷ db.generations; next_id = suc db.next_id }

    inserted-IsValid : IsValid inserted
    unfolding new_generation
    inserted-IsValid = insert-IsValid row db refl refl refl v

    inserted_single : select (is_current_of tenant_id) inserted.generations ≡ g ∷ []
    unfolding new_generation
    inserted_single = ground (arith, current_single)

    inserted-ordered : ordered tenant_id inserted ≡ row ∷ newer ++ g ∷ older
    unfolding new_generation
    inserted-ordered = ground (arith, place)

    trimmed_after :
        trimmed_ids tenant_id inserted ≡ ids_where (λ h. true) (drop 49 (newer ++ g ∷ older))
    unfolding trimmed_ids
    trimmed_after = ap (λ l. ids_where (λ h. true) (drop meta_history_cap l)) inserted-ordered

    -- A rejected pull leaves what the readers see, while fewer than 49 generations of the tenant
    -- are newer than the current one.
    pub load_current-record_rejected :
        length newer < 49
        → load_current tenant_id
            (record_rejected tenant_id pull started_at finished_at rejection db).1
          ≡ load_current tenant_id db
    unfolding record_rejected
    load_current-record_rejected few =
        load_current-SameView tenant_id db (purge tenant_id inserted) (
          SameView-trans
            (record {
              selected = inserted_single ∙ sym current_single;
              kept = All-of _ (λ h. (refl, refl)) (select (is_current_of tenant_id) db.generations);
            })
            (purge-SameView tenant_id tenant_id inserted inserted-IsValid (
              All-unselect (λ h. mem_ℕ h.id (trimmed_ids tenant_id inserted) ≡ false)
                (is_current_of tenant_id) inserted.generations
                (subst (All (λ h. mem_ℕ h.id (trimmed_ids tenant_id inserted) ≡ false))
                  (sym inserted_single) (not_trimmed, tt)))))
      where
        not_trimmed : mem_ℕ g.id (trimmed_ids tenant_id inserted) ≡ false
        not_trimmed = rw trimmed_after (
            mem_drop_older 49 db.next_id g newer older
              (subst (Descending db.next_id) place
                (select-Descending (of_tenant tenant_id) db.next_id db.generations v.ids))
              few)

    -- With 49 or more newer generations of the tenant, the rejected pull is the one whose purge
    -- deletes the current snapshot: the readers find none, though no pull has replaced it.
    pub record_rejected_forgets :
        49 ≤ length newer
        → get_current_meta tenant_id
            (record_rejected tenant_id pull started_at finished_at rejection db).1
          ≡ ok none
    unfolding record_rejected get_current_meta purge delete_rows
    record_rejected_forgets many = ap one_or_none (
        select_comm (is_current_of tenant_id) (λ h. not_in h.id (trimmed_ids tenant_id inserted))
          inserted.generations
        ∙ ap (select (λ h. not_in h.id (trimmed_ids tenant_id inserted))) inserted_single
        ∙ gone)
      where
        trimmed : mem_ℕ g.id (trimmed_ids tenant_id inserted) ≡ true
        trimmed = rw trimmed_after (mem_drop_newer 49 g newer older many)

        gone : select (λ h. not_in h.id (trimmed_ids tenant_id inserted)) (g ∷ []) ≡ []
        gone = rw trimmed
