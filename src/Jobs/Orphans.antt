-- ===== src/Jobs/Orphans.antt =====
-- src/bims_shopify/ops/auto_import.py, with ops/job_runner.py: an import whose task is lost before it
-- began.
use bims_shopify.Base.{
  ℕ, zero, suc, ◌≤◌, ◌<◌, String, Bool, true, false, not, ◌&&◌, Option, none, List, [], ◌∷◌, map,
  count, length, length-append, str_eq, if◌then◌else◌, ◌==◌, All, All-append, select-All,
  Bool-cases, ◌≡◌, ◌≢◌, refl, subst, arith, inl, inr,
}
use bims_shopify.Catalog.Counting.{count-append}
use bims_shopify.Jobs.{
  Status, OpsJob, Key, System, is_id, set_held, update_job, is_running, start_job, enter, start_row,
  finish_row, mark_started, mark_finished, unlock, final_status, interrupt_row, restart, Event,
  request, acquire, tenant_missing, die, begin, finish, process_restart, waits, or_same, step,
  steps, ImportTenant, is_pending_import, has_pending_import, pending_of, Pending, nothing_pending,
  pending, multiple_results, when_due, maybe_enqueue, is_active, is_running_status,
}

abbrev pub is_queued : Status → Bool
is_queued Status.queued = true
is_queued Status.running = false
is_queued Status.succeeded = false
is_queued Status.failed = false
is_queued Status.interrupted = false

-- The queued import of a tenant with this id.
abbrev pub queued_import : ℕ → ℕ → OpsJob → Bool
queued_import t i j =
    (j.tenant_id == t) && str_eq j.command "import" && is_queued j.status && (j.id == i)

-- A row says that an import is queued, and no task is there for it.
abbrev pub Orphan : ℕ → ℕ → System → Type 0
Orphan t i s =
    (1 ≤ count (queued_import t i) s.jobs)
    × ((i < length s.jobs)
        × (All (λ w. w.1 ≢ i) s.waiting × ((k : Key) → is_id i (s.held k) ≡ false)))

running_not_queued : (s : Status) → is_running_status s ≡ true → is_queued s ≡ false
running_not_queued Status.queued h = absurd (cc)
running_not_queued Status.running h = refl
running_not_queued Status.succeeded h = refl
running_not_queued Status.failed h = refl
running_not_queued Status.interrupted h = refl

queued_active : (s : Status) → is_queued s ≡ true → is_active s ≡ true
queued_active Status.queued h = refl
queued_active Status.running h = absurd (cc)
queued_active Status.succeeded h = absurd (cc)
queued_active Status.failed h = absurd (cc)
queued_active Status.interrupted h = absurd (cc)

length-rows : (now : ℕ) (jobs : List OpsJob) → length (map (interrupt_row now) jobs) ≡ length jobs
length-rows now [] = refl
length-rows now (j ∷ js) = omega (arith, length-rows now js)

length-update_job :
    (id : ℕ) (f : OpsJob → OpsJob) (jobs : List OpsJob)
    → length (update_job id f jobs) ≡ length jobs
length-update_job id f [] = refl
length-update_job id f (j ∷ js) = omega (arith, length-update_job id f js)

module _ (t i : ℕ) where
  -- A change of another job's row leaves the queued row.
  other_job :
      (id : ℕ) (f : OpsJob → OpsJob) (jobs : List OpsJob)
      → id ≢ i
      → ((j : OpsJob) → (f j).id ≡ j.id)
      → count (queued_import t i) (update_job id f jobs) ≡ count (queued_import t i) jobs
  other_job id f [] n h = refl
  other_job id f (j ∷ js) n h = ground (arith, other_job id f js n h, h j)

  interrupted_rows :
      (now : ℕ) (jobs : List OpsJob)
      → count (queued_import t i) (map (interrupt_row now) jobs) ≡ count (queued_import t i) jobs
  interrupted_rows now [] = refl
  interrupted_rows now (j ∷ js) =
      let ih = interrupted_rows now js in
      elim (Bool-cases (is_running_status j.status)) [
        | inl e ↦ rw e (ground (arith, ih, running_not_queued j.status e))
        | inr e ↦ rw e (ground (arith, ih))
      ]

  waits_other :
      (k : Key) (id : ℕ) (ws : List (Key × ℕ))
      → All (λ w. w.1 ≢ i) ws
      → waits k id ws ≡ true
      → id ≢ i
  waits_other k id [] a h = absurd (cc)
  waits_other k id (w ∷ ws) a h = ground (arith, a.0, waits_other k id ws a.1)

  -- A row that is appended later is another one.
  start_job-Orphan :
      (u : ℕ) (c : String) (b : Bool) (since : Option ℕ) (now : ℕ) (s : System)
      → Orphan t i s
      → Orphan t i (or_same s (start_job u c b since now s))
  unfolding start_job
  start_job-Orphan u c b since now s (o, (n, (w, h))) = elim (Bool-cases (is_running (u, c) s)) [
    | inl e ↦ rw e (o, (n, (w, h)))
    | inr e ↦ rw e (
      omega (arith, count-append (queued_import t i) s.jobs _, o),
      (
        omega (arith, n, length-append s.jobs _),
        (
          All-append (λ x. x.1 ≢ i) s.waiting (((u, c), length s.jobs) ∷ []) w
              ((λ q. absurd (omega (arith, q, n))), tt),
          h,
        ),
      ),
    )
  ]

  -- An event of a task is one of another job.
  holder_other :
      (k : Key) (id : ℕ) (s : System) → Orphan t i s → is_id id (s.held k) ≡ true → id ≢ i
  holder_other k id s o e q =
      let f = o.1.1.1 k in let g = subst (λ n. is_id n (s.held k) ≡ true) q e in absurd (cc)

  released :
      (k j : Key) (held : Key → Option ℕ)
      → is_id i (held j) ≡ false
      → is_id i (set_held k none held j) ≡ false
  released k j held h = ground (arith, h)

  marked-Orphan :
      (id : ℕ) (f : OpsJob → OpsJob) (s : System)
      → id ≢ i
      → ((j : OpsJob) → (f j).id ≡ j.id)
      → Orphan t i s
      → Orphan t i (record s { jobs = update_job id f s.jobs })
  marked-Orphan id f s n h o = (
    omega (arith, o.0, other_job id f s.jobs n h),
    (omega (arith, o.1.0, length-update_job id f s.jobs), o.1.1),
  )

  unlock-Orphan : (k : Key) (s : System) → Orphan t i s → Orphan t i (unlock k s)
  unfolding unlock
  unlock-Orphan k s (o, (n, (w, h))) = (o, (n, (w, λ j. released k j s.held (h j))))

  ended-Orphan :
      (k : Key) (id : ℕ) (status : Status) (now : ℕ) (s : System)
      → Orphan t i s
      → Orphan t i (if is_id id (s.held k) then unlock k (mark_finished id status now s) else s)
  unfolding mark_finished
  ended-Orphan k id status now s o = elim (Bool-cases (is_id id (s.held k))) [
    | inl e ↦
        let m =
          marked-Orphan id (finish_row status now) s (holder_other k id s o e) (λ j. refl) o in
        rw e (unlock-Orphan k (mark_finished id status now s) m)
    | inr e ↦ rw e o
  ]

  enter-Orphan : (k : Key) (id : ℕ) (s : System) → id ≢ i → Orphan t i s → Orphan t i (enter k id s)
  unfolding enter
  enter-Orphan k id s n (o, (l, (w, h))) = elim (Bool-cases (is_running k s)) [
    | inl e ↦ rw e (o, (l, (w, h)))
    | inr e ↦ rw e (
      o,
      (
        l,
        (select-All (λ x. x.1 ≢ i) (λ x. not (x.1 == id)) s.waiting w, λ j. ground (arith, h j, n)),
      ),
    )
  ]

  step-Orphan : (e : Event) (s : System) → Orphan t i s → Orphan t i (step e s)
  unfolding step mark_started restart
  step-Orphan (request u c b since now) s o = start_job-Orphan u c b since now s o
  step-Orphan (acquire k id) s o = elim (Bool-cases (waits k id s.waiting)) [
    | inl e ↦ rw e (enter-Orphan k id s (waits_other k id s.waiting o.1.1.0 e) o)
    | inr e ↦ rw e o
  ]
  step-Orphan (tenant_missing k id now) s o = ended-Orphan k id Status.failed now s o
  step-Orphan (die k id) s o = elim (Bool-cases (is_id id (s.held k))) [
    | inl e ↦ rw e (unlock-Orphan k s o)
    | inr e ↦ rw e o
  ]
  step-Orphan (begin k id now) s o = elim (Bool-cases (is_id id (s.held k))) [
    | inl e ↦ rw e (marked-Orphan id (start_row now) s (holder_other k id s o e) (λ j. refl) o)
    | inr e ↦ rw e o
  ]
  step-Orphan (finish k id good now) s o = ended-Orphan k id (final_status good) now s o
  step-Orphan (process_restart now) s o = (
    omega (arith, o.0, interrupted_rows now s.jobs),
    (omega (arith, o.1.0, length-rows now s.jobs), (tt, λ k. refl)),
  )

  steps-Orphan : (es : List Event) (s : System) → Orphan t i s → Orphan t i (steps es s)
  unfolding steps
  steps-Orphan [] s o = o
  steps-Orphan (e ∷ es) s o = steps-Orphan es (step e s) (step-Orphan e s o)

  queued→pending :
      (jobs : List OpsJob) → count (queued_import t i) jobs ≤ count (is_pending_import t) jobs
  queued→pending [] = omega arith
  queued→pending (j ∷ js) = elim (Bool-cases (is_queued j.status)) [
    | inl e ↦ ground (arith, queued→pending js, queued_active j.status e)
    | inr e ↦ ground (arith, queued→pending js)
  ]

  not_nothing : (n : ℕ) → 1 ≤ n → pending_of n ≢ nothing_pending
  not_nothing zero h e = absurd (omega (arith, h))
  not_nothing (suc zero) h e = absurd (cc)
  not_nothing (suc (suc n)) h e = absurd (cc)

  skipped_when :
      (tenant : ImportTenant) (now : ℕ) (s : System) (p : Pending)
      → p ≢ nothing_pending
      → (when_due tenant now s p).1 ≡ s
  skipped_when tenant now s nothing_pending n = absurd (n refl)
  skipped_when tenant now s pending n = refl
  skipped_when tenant now s multiple_results n = refl

-- An import of a tenant that is still queued when the process restarts stays queued whatever
-- happens from then on, and the coordinator enqueues no import for the tenant.
pub queued_import_blocks :
    (tenant : ImportTenant) (i : ℕ) (s : System) (restarted now : ℕ) (es : List Event)
    → 1 ≤ count (queued_import tenant.id i) s.jobs
    → i < length s.jobs
    → let t = steps (process_restart restarted ∷ es) s in
      (1 ≤ count (queued_import tenant.id i) t.jobs) × ((maybe_enqueue tenant now t).1 ≡ t)
unfolding steps step restart maybe_enqueue has_pending_import
queued_import_blocks tenant i s restarted now es q l =
    let o : Orphan tenant.id i (restart restarted s) = (
      omega (arith, q, interrupted_rows tenant.id i restarted s.jobs),
      (omega (arith, l, length-rows restarted s.jobs), (tt, λ k. refl)),
    ) in
    let t = steps es (restart restarted s) in
    let u = steps-Orphan tenant.id i es (restart restarted s) o in
    (
      u.0,
      skipped_when tenant.id i tenant now t (has_pending_import tenant.id t)
          (elim (Bool-cases (is_running (tenant.id, "import") t)) [
            | inl e ↦ rw e (λ k. absurd (cc))
            | inr e ↦ rw e (
                not_nothing tenant.id i (count (is_pending_import tenant.id) t.jobs)
                  (omega (arith, u.0, queued→pending tenant.id i t.jobs)))
          ]),
    )
