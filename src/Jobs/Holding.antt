-- ===== src/Jobs/Holding.antt =====
-- src/bims_shopify/ops/job_runner.py: the rows that run and the holders of the locks, through changes
-- of rows and locks.
use bims_shopify.Base.{
  ℕ, ◌<◌, Bool, true, false, Option, none, some, List, [], ◌∷◌, map, length, eq_iff, ◌==◌, ==_iff,
  All, All-imp, Bool-cases, ◌≡◌, ◌≢◌, refl, sym, subst, arith, inl, inr,
}
use bims_shopify.Jobs.{
  Status, OpsJob, Key, System, key_of, is_id, key_eq, set_held, update_job, start_row, finish_row,
  interrupt_row, is_running_status,
}

-- A row that runs is that of the job whose task holds the lock of its key, unless its task has died.
abbrev pub Held : (ℕ → Bool) → (Key → Option ℕ) → OpsJob → Type 0
Held dead held j =
    is_running_status j.status ≡ true → dead j.id ≡ false → is_id j.id (held (key_of j)) ≡ true

-- The row of a job has this key.
abbrev pub Owner : List OpsJob → Key → ℕ → Type 0
Owner jobs k id = (id < length jobs) × All (λ j. j.id ≡ id → key_eq k (key_of j) ≡ true) jobs

abbrev pub Inv : (ℕ → Bool) → System → Type 0
Inv dead s =
    All (Held dead s.held) s.jobs
    × (All (λ w. Owner s.jobs w.0 w.1) s.waiting
        × (((k : Key) (id : ℕ) → is_id id (s.held k) ≡ true → Owner s.jobs k id)
            × All (λ j. j.id < length s.jobs) s.jobs))

-- Rows are changed one by one, and keep their ids and keys.
module _ (f : OpsJob → OpsJob) (ids : (j : OpsJob) → (f j).id ≡ j.id)
    (keys : (j : OpsJob) → key_of (f j) ≡ key_of j) where
  pub length-map : (jobs : List OpsJob) → length (map f jobs) ≡ length jobs
  length-map [] = refl
  length-map (j ∷ js) = omega (arith, length-map js)

  pub map-All :
      (P Q : OpsJob → Type 0) (jobs : List OpsJob)
      → ((j : OpsJob) → P j → Q (f j))
      → All P jobs
      → All Q (map f jobs)
  map-All P Q [] h a = tt
  map-All P Q (j ∷ js) h a = (h j a.0, map-All P Q js h a.1)

  pub map-Owner :
      (jobs : List OpsJob) (k : Key) (id : ℕ) → Owner jobs k id → Owner (map f jobs) k id
  map-Owner jobs k id o = (
    omega (arith, o.0, length-map jobs),
    map-All (λ j. j.id ≡ id → key_eq k (key_of j) ≡ true)
        (λ j. j.id ≡ id → key_eq k (key_of j) ≡ true) jobs
        (λ j h e. subst (λ x. key_eq k x ≡ true) (sym (keys j)) (h (omega (arith, e, ids j)))) o.1,
  )

  -- What such a change of the rows, with a new holder, leaves to show.
  pub map-Inv :
      (dead : ℕ → Bool) (s : System) (held : Key → Option ℕ)
      → Inv dead s
      → All (Held dead held) (map f s.jobs)
      → ((k : Key) (id : ℕ) → is_id id (held k) ≡ true → is_id id (s.held k) ≡ true)
      → Inv dead (record s { jobs = map f s.jobs; held = held })
  map-Inv dead s held i a h = (
    a,
    (
      All-imp (λ w. Owner s.jobs w.0 w.1) (λ w. Owner (map f s.jobs) w.0 w.1) s.waiting
          (λ w o. map-Owner s.jobs w.0 w.1 o) i.1.0,
      (
        λ k id e. map-Owner s.jobs k id (i.1.1.0 k id (h k id e)),
        map-All (λ j. j.id < length s.jobs) (λ j. j.id < length (map f s.jobs)) s.jobs
            (λ j l. omega (arith, l, ids j, length-map s.jobs)) i.1.1.1,
      ),
    ),
  )

-- Keys that are tested equal are equal.
pub key_eq→eq : (a b : Key) → key_eq a b ≡ true → a ≡ b
key_eq→eq (a, x) (b, y) h = ground (arith, h, eq_iff x y)

pub one_holder : (a b : ℕ) (o : Option ℕ) → is_id a o ≡ true → is_id b o ≡ true → a ≡ b
one_holder a b none h k = absurd (cc)
one_holder a b (some n) h k = ground (arith, h, k)

pub unset :
    (k j : Key) (id : ℕ) (held : Key → Option ℕ)
    → is_id id (set_held k none held j) ≡ true
    → is_id id (held j) ≡ true
unset k j id held h = ground (arith, h)

-- The rows of a job, by the key that its task holds.
abbrev pub Keyed : Key → ℕ → OpsJob → Type 0
Keyed k id j = j.id ≡ id → key_eq k (key_of j) ≡ true

module _ (dead : ℕ → Bool) (held : Key → Option ℕ) (k : Key) (id now : ℕ)
    (e : is_id id (held k) ≡ true) where
  pub holder_of : (j : OpsJob) → Keyed k id j → j.id ≡ id → is_id j.id (held (key_of j)) ≡ true
  holder_of j h q =
      subst (λ x. is_id j.id (held x) ≡ true) (key_eq→eq k (key_of j) (h q))
        (subst (λ n. is_id n (held k) ≡ true) (sym q) e)

  pub begin-Held :
      (jobs : List OpsJob)
      → All (Held dead held) jobs
      → All (Keyed k id) jobs
      → All (Held dead held) (update_job id (start_row now) jobs)
  begin-Held [] a b = tt
  begin-Held (j ∷ js) a b = elim (Bool-cases (j.id == id)) [
    | inl h ↦ rw h ((λ _ _. holder_of j b.0 ((==_iff j.id id).0 h)), begin-Held js a.1 b.1)
    | inr h ↦ rw h (a.0, begin-Held js a.1 b.1)
  ]

  -- The lock that is given up is not that of another job.
  pub others_hold :
      (j : OpsJob)
      → j.id ≢ id
      → is_id j.id (held (key_of j)) ≡ true
      → is_id j.id (set_held k none held (key_of j)) ≡ true
  others_hold j n h = elim (Bool-cases (key_eq k (key_of j))) [
    | inl q ↦
        let same = subst (λ x. is_id id (held x) ≡ true) (key_eq→eq k (key_of j) q) e in
        absurd (n (one_holder j.id id (held (key_of j)) h same))
    | inr q ↦ rw q h
  ]

  pub ended-Held :
      (status : Status) (jobs : List OpsJob)
      → is_running_status status ≡ false
      → All (Held dead held) jobs
      → All (Held dead (set_held k none held)) (update_job id (finish_row status now) jobs)
  ended-Held status [] n a = tt
  ended-Held status (j ∷ js) n a = elim (Bool-cases (j.id == id)) [
    | inl h ↦ rw h ((λ r _. absurd (cc)), ended-Held status js n a.1)
    | inr h ↦ rw h (
      (λ r n. others_hold j (λ q. absurd (ground (arith, h, q))) (a.0 r n)),
      ended-Held status js n a.1,
    )
  ]

  pub dead-Held :
      (jobs : List OpsJob)
      → dead id ≡ true
      → All (Held dead held) jobs
      → All (Held dead (set_held k none held)) jobs
  dead-Held [] n a = tt
  dead-Held (j ∷ js) n a = (
    λ r l. others_hold j (λ q. let m = subst (λ x. dead x ≡ false) q l in absurd (cc)) (a.0 r l),
    dead-Held js n a.1,
  )

pub interrupted-Held :
    (dead : ℕ → Bool) (held : Key → Option ℕ) (now : ℕ) (jobs : List OpsJob)
    → All (Held dead held) (map (interrupt_row now) jobs)
interrupted-Held dead held now [] = tt
interrupted-Held dead held now (j ∷ js) = elim (Bool-cases (is_running_status j.status)) [
  | inl e ↦ rw e ((λ r _. absurd (cc)), interrupted-Held dead held now js)
  | inr e ↦ rw e ((λ r _. absurd (cc)), interrupted-Held dead held now js)
]
