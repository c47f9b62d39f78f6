-- ===== src/Jobs/Flight.antt =====
-- src/bims_shopify/ops/job_runner.py: jobs of one tenant and one command do not overlap.
use bims_shopify.Base.{
  ℕ, ◌<◌, String, Bool, true, false, not, ◌&&◌, ◌⊎◌, Option, none, some, is_none, List, [], ◌∷◌,
  ◌++◌, length, length-append, eq_iff, if◌then◌else◌, ◌==◌, All, All-append, All-imp, select-All,
  Bool-cases, ◌≡◌, refl, sym, subst, arith, inl, inr,
}
use bims_shopify.Jobs.{
  Status, OpsJob, Key, System, key_of, is_id, key_eq, set_held, is_running, start_job, enter,
  start_row, finish_row, mark_started, mark_finished, unlock, final_status, interrupt_row, restart,
  dies, died, Event, request, acquire, tenant_missing, die, begin, finish, process_restart, waits,
  or_same, step, steps, no_jobs, is_running_status,
}
use bims_shopify.Jobs.Holding.{
  Held, Owner, Inv, map-Inv, key_eq→eq, one_holder, unset, Keyed, begin-Held, ended-Held, dead-Held,
  interrupted-Held,
}

-- A change of the row of one job, and the interruption, keep ids and keys.
module _ (id : ℕ) (f : OpsJob → OpsJob)
    (g : (j : OpsJob) → ((f j).id ≡ j.id) × (key_of (f j) ≡ key_of j)) where
  one_ids : (j : OpsJob) → (if j.id == id then f j else j).id ≡ j.id
  one_ids j = elim (Bool-cases (j.id == id)) [ inl h ↦ rw h (g j).0 | inr h ↦ rw h refl ]

  one_keys : (j : OpsJob) → key_of (if j.id == id then f j else j) ≡ key_of j
  one_keys j = elim (Bool-cases (j.id == id)) [ inl h ↦ rw h (g j).1 | inr h ↦ rw h refl ]

interrupt_ids : (now : ℕ) (j : OpsJob) → (interrupt_row now j).id ≡ j.id
interrupt_ids now j = elim (Bool-cases (is_running_status j.status)) [
  | inl h ↦ rw h refl
  | inr h ↦ rw h refl
]

interrupt_keys : (now : ℕ) (j : OpsJob) → key_of (interrupt_row now j) ≡ key_of j
interrupt_keys now j = elim (Bool-cases (is_running_status j.status)) [
  | inl h ↦ rw h refl
  | inr h ↦ rw h refl
]

final_not_running : (b : Bool) → is_running_status (final_status b) ≡ false
final_not_running true = refl
final_not_running false = refl

module _ (dead : ℕ → Bool) where
  ended-Inv :
      (k : Key) (id : ℕ) (status : Status) (now : ℕ) (s : System)
      → is_running_status status ≡ false
      → Inv dead s
      → Inv dead (if is_id id (s.held k) then unlock k (mark_finished id status now s) else s)
  unfolding mark_finished unlock
  ended-Inv k id status now s n i = elim (Bool-cases (is_id id (s.held k))) [
    | inl e ↦ rw e (
        map-Inv (λ j. if j.id == id then finish_row status now j else j)
          (one_ids id (finish_row status now) (λ j. (refl, refl)))
          (one_keys id (finish_row status now) (λ j. (refl, refl))) dead s (set_held k none s.held)
          i (ended-Held dead s.held k id now e status s.jobs n i.0) (λ j m h. unset k j m s.held h))
    | inr e ↦ rw e i
  ]

  waits-Owner :
      (jobs : List OpsJob) (k : Key) (id : ℕ) (ws : List (Key × ℕ))
      → All (λ w. Owner jobs w.0 w.1) ws
      → waits k id ws ≡ true
      → Owner jobs k id
  waits-Owner jobs k id [] a h = absurd (cc)
  waits-Owner jobs k id (w ∷ ws) a h = elim (Bool-cases (key_eq w.0 k && (w.1 == id))) [
    | inl e ↦
        let same = key_eq→eq w.0 k (ground (arith, e)) in
        let at : w.1 ≡ id = ground (arith, e) in
        subst (λ x. Owner jobs x id) same (subst (λ n. Owner jobs w.0 n) at a.0)
    | inr e ↦ waits-Owner jobs k id ws a.1 (rw e at h)
  ]

  free_has_none :
      {P : Type 0} (o : Option ℕ) (n : ℕ) → not (is_none o) ≡ false → is_id n o ≡ true → P
  free_has_none none n h k = absurd (cc)
  free_has_none (some m) n h k = absurd (cc)

  -- A lock that was free is held by no row that runs.
  enter-Inv :
      (k : Key) (id : ℕ) (s : System) → Owner s.jobs k id → Inv dead s → Inv dead (enter k id s)
  unfolding enter
  enter-Inv k id s o i = elim (Bool-cases (is_running k s)) [
    | inl e ↦ rw e i
    | inr e ↦ rw e (
      All-imp (Held dead s.held) (Held dead (set_held k (some id) s.held)) s.jobs
          (λ j h r l. elim (Bool-cases (key_eq k (key_of j))) [
            | inl q ↦
                let m =
                  subst (λ x. is_id j.id (s.held x) ≡ true) (sym (key_eq→eq k (key_of j) q))
                    (h r l) in
                free_has_none (s.held k) j.id e m
            | inr q ↦ rw q (h r l)
          ])
          i.0,
      (
        select-All (λ w. Owner s.jobs w.0 w.1) (λ w. not (w.1 == id)) s.waiting i.1.0,
        (
          λ j m h. elim (Bool-cases (key_eq k j)) [
            | inl q ↦
                let h' = rw q at h in
                subst (λ x. Owner s.jobs x m) (key_eq→eq k j q)
                  (subst (λ n. Owner s.jobs k n) (ground (arith, h')) o)
            | inr q ↦ i.1.1.0 j m (rw q at h)
          ],
          i.1.1.1,
        ),
      ),
    )
  ]

  append-Owner :
      (jobs : List OpsJob) (x : OpsJob) (k : Key) (id : ℕ)
      → x.id ≡ length jobs
      → Owner jobs k id
      → Owner (jobs ++ x ∷ []) k id
  append-Owner jobs x k id e o = (
    omega (arith, o.0, length-append jobs (x ∷ [])),
    All-append (Keyed k id) jobs (x ∷ []) o.1 ((λ q. absurd (omega (arith, q, e, o.0))), tt),
  )

  fresh-Owner :
      (jobs : List OpsJob) (x : OpsJob)
      → x.id ≡ length jobs
      → All (λ j. j.id < length jobs) jobs
      → Owner (jobs ++ x ∷ []) (key_of x) (length jobs)
  fresh-Owner jobs x e a = (
    omega (arith, length-append jobs (x ∷ [])),
    All-append (Keyed (key_of x) (length jobs)) jobs (x ∷ [])
        (All-imp (λ j. j.id < length jobs) (Keyed (key_of x) (length jobs)) jobs
          (λ j l q. absurd (omega (arith, l, q))) a)
        ((λ _. ground (arith, eq_iff x.command x.command)), tt),
  )

  -- A new row is queued, and its id is new.
  added-Inv :
      (s : System) (x : OpsJob)
      → x.id ≡ length s.jobs
      → is_running_status x.status ≡ false
      → Inv dead s
      → Inv dead (record s {
        jobs = s.jobs ++ x ∷ [];
        waiting = s.waiting ++ (key_of x, length s.jobs) ∷ [];
      })
  added-Inv s x e n i = (
    All-append (Held dead s.held) s.jobs (x ∷ []) i.0 ((λ r l. absurd (cc)), tt),
    (
      All-append (λ w. Owner (s.jobs ++ x ∷ []) w.0 w.1) s.waiting ((key_of x, length s.jobs) ∷ [])
          (All-imp (λ w. Owner s.jobs w.0 w.1) (λ w. Owner (s.jobs ++ x ∷ []) w.0 w.1) s.waiting
            (λ w o. append-Owner s.jobs x w.0 w.1 e o) i.1.0)
          (fresh-Owner s.jobs x e i.1.1.1, tt),
      (
        λ k id h. append-Owner s.jobs x k id e (i.1.1.0 k id h),
        All-append (λ j. j.id < length (s.jobs ++ x ∷ [])) s.jobs (x ∷ [])
            (All-imp (λ j. j.id < length s.jobs) (λ j. j.id < length (s.jobs ++ x ∷ [])) s.jobs
              (λ j l. omega (arith, l, length-append s.jobs (x ∷ []))) i.1.1.1)
            (omega (arith, e, length-append s.jobs (x ∷ [])), tt),
      ),
    ),
  )

  start_job-Inv :
      (t : ℕ) (c : String) (b : Bool) (since : Option ℕ) (now : ℕ) (s : System)
      → Inv dead s
      → Inv dead (or_same s (start_job t c b since now s))
  unfolding start_job
  start_job-Inv t c b since now s i = elim (Bool-cases (is_running (t, c) s)) [
    | inl e ↦ rw e i
    | inr e ↦ rw e (added-Inv s _ refl refl i)
  ]

  step-Inv :
      (e : Event) (s : System)
      → ((i : ℕ) → dies e s i ≡ true → dead i ≡ true)
      → Inv dead s
      → Inv dead (step e s)
  unfolding step mark_started restart unlock
  step-Inv (request t c b since now) s d i = start_job-Inv t c b since now s i
  step-Inv (acquire k id) s d i = elim (Bool-cases (waits k id s.waiting)) [
    | inl e ↦ rw e (enter-Inv k id s (waits-Owner s.jobs k id s.waiting i.1.0 e) i)
    | inr e ↦ rw e i
  ]
  step-Inv (tenant_missing k id now) s d i = ended-Inv k id Status.failed now s refl i
  step-Inv (die k id) s d i = elim (Bool-cases (is_id id (s.held k))) [
    | inl e ↦ rw e (
      dead-Held dead s.held k id 0 e s.jobs (d id (ground (arith, e))) i.0,
      (i.1.0, ((λ j m h. i.1.1.0 j m (unset k j m s.held h)), i.1.1.1)),
    )
    | inr e ↦ rw e i
  ]
  step-Inv (begin k id now) s d i = elim (Bool-cases (is_id id (s.held k))) [
    | inl e ↦ rw e (
        map-Inv (λ j. if j.id == id then start_row now j else j)
          (one_ids id (start_row now) (λ j. (refl, refl)))
          (one_keys id (start_row now) (λ j. (refl, refl))) dead s s.held i
          (begin-Held dead s.held k id now e s.jobs i.0 (i.1.1.0 k id e).1) (λ j m h. h))
    | inr e ↦ rw e i
  ]
  step-Inv (finish k id good now) s d i =
      ended-Inv k id (final_status good) now s (final_not_running good) i
  step-Inv (process_restart now) s d i =
      let m =
        map-Inv (interrupt_row now) (interrupt_ids now) (interrupt_keys now) dead s (λ k. none) i
          (interrupted-Held dead (λ k. none) now s.jobs) (λ k id h. absurd (cc)) in
      (m.0, (tt, ((λ k id h. absurd (cc)), m.1.1.1)))

  steps-Inv :
      (es : List Event) (s : System)
      → ((i : ℕ) → died es s i ≡ true → dead i ≡ true)
      → Inv dead s
      → Inv dead (steps es s)
  unfolding steps died
  steps-Inv [] s d i = i
  steps-Inv (e ∷ es) s d i =
      steps-Inv es (step e s) (λ n h. d n (ground (arith, h)))
        (step-Inv e s (λ n h. d n (ground (arith, h))) i)

-- Two rows of one key that run, from what is held.
both_Held :
    (dead : ℕ → Bool) (held : Key → Option ℕ) (a b : OpsJob)
    → Held dead held a
    → Held dead held b
    → is_running_status a.status ≡ true
    → is_running_status b.status ≡ true
    → key_of a ≡ key_of b
    → (a.id ≡ b.id) ⊎ ((dead a.id ≡ true) ⊎ (dead b.id ≡ true))
both_Held dead held a b h k r q e = elim (Bool-cases (dead a.id)) [
  | inl x ↦ inr (inl x)
  | inr x ↦ elim (Bool-cases (dead b.id)) [
    | inl y ↦ inr (inr y)
    | inr y ↦ inl (
        one_holder a.id b.id (held (key_of b)) (subst (λ z. is_id a.id (held z) ≡ true) e (h r x))
          (k q y))
  ]
]

-- Whatever jobs are requested and however their tasks interleave, fail or are cut off by restarts,
-- two rows of one tenant and one command that run are rows of one job, or the task of one of them
-- has died of an exception that escaped while it held the lock.
pub single_flight :
    (es : List Event)
    → let jobs = (steps es no_jobs).jobs in
      All
        (λ a.
          All
            (λ b.
              is_running_status a.status ≡ true
              → is_running_status b.status ≡ true
              → key_of a ≡ key_of b
              → (a.id ≡ b.id) ⊎ ((died es no_jobs a.id ≡ true) ⊎ (died es no_jobs b.id ≡ true)))
            jobs)
        jobs
single_flight es =
    let t = steps es no_jobs in
    let dead = died es no_jobs in
    let i = steps-Inv dead es no_jobs (λ n h. h) (tt, (tt, ((λ k id h. absurd (cc)), tt))) in
    All-imp (Held dead t.held)
      (λ a.
        All
          (λ b.
            is_running_status a.status ≡ true
            → is_running_status b.status ≡ true
            → key_of a ≡ key_of b
            → (a.id ≡ b.id) ⊎ ((dead a.id ≡ true) ⊎ (dead b.id ≡ true)))
          t.jobs)
      t.jobs
      (λ a h.
        All-imp (Held dead t.held)
          (λ b.
            is_running_status a.status ≡ true
            → is_running_status b.status ≡ true
            → key_of a ≡ key_of b
            → (a.id ≡ b.id) ⊎ ((dead a.id ≡ true) ⊎ (dead b.id ≡ true)))
          t.jobs (λ b k r q e. both_Held dead t.held a b h k r q e) i.0)
      i.0
