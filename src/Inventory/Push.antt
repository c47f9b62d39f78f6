-- ===== src/Inventory/Push.antt =====
-- What the batch writer writes, and what it accounts for, also when Shopify refuses a batch.
use bims_shopify.Base.{
  ℕ, zero, suc, ◌+◌, ◌≤◌, ◌<◌, String, ◌≡◌, refl, sym, ap, ◌∙◌, ◌⊎◌, inl, inr, Option, none, some,
  Option-cases, List, [], ◌∷◌, ◌++◌, append-nil, append_assoc, arith, length, length-append, Result,
  ok, err, All, All-append, chunks, chunks_fuel-All, chunks_fuel-nonempty, flatten, flatten-chunks,
}
use bims_shopify.Inventory.{
  InventoryDelta, Bucket, Pushed, add, add_updated, add_failed, push_batch, push_loop,
  push_in_batches, nothing_pushed, inventory_push_batch_size, sample_size, delta_row, UpdatedRow,
  FailedRow,
}

count-add_updated :
    (ds : List InventoryDelta) (b : Bucket UpdatedRow)
    → (add_updated ds b).count ≡ b.count + length ds
unfolding add_updated
count-add_updated [] b = omega arith
count-add_updated (d ∷ ds) b =
    omega (arith, count-add_updated ds (add sample_size (delta_row d) 1 b))

count-add_failed :
    (e : String) (ds : List InventoryDelta) (b : Bucket FailedRow)
    → (add_failed e ds b).count ≡ b.count + length ds
unfolding add_failed
count-add_failed e [] b = omega arith
count-add_failed e (d ∷ ds) b =
    omega (arith, count-add_failed e ds (add sample_size (record { sku = d.sku; error = e }) 1 b))

-- Shopify refused none of the batches, the first of which is its `m`-th: all were accepted, in order,
-- and their deltas counted.
pub record Completes (answer : ℕ → Option String) (m : ℕ) (batches : List (List InventoryDelta))
    (p : Pushed) (out : Result String (Unit {0}) × Pushed) : Type 0 where
  pub answers : (i : ℕ) → i < length batches → answer (m + i) ≡ none
  pub result : out.0 ≡ ok tt
  pub sent : out.1.accepted ≡ p.accepted ++ batches
  pub updated : out.1.updated.count ≡ p.updated.count + length (flatten batches)
  pub failed : out.1.failed.count ≡ p.failed.count

-- Shopify refused the batch `failing`, the first one that it refused: those before it were accepted,
-- in order, and their deltas counted; its deltas, one at least, were counted as failed; the error
-- is raised and those after it are not sent.
pub record Refuses (answer : ℕ → Option String) (m : ℕ) (batches : List (List InventoryDelta))
    (p : Pushed) (out : Result String (Unit {0}) × Pushed) : Type 0 where
  pub before : List (List InventoryDelta)
  pub failing : List InventoryDelta
  pub after : List (List InventoryDelta)
  pub error : String
  pub whole : batches ≡ before ++ failing ∷ after
  pub answers : (i : ℕ) → i < length before → answer (m + i) ≡ none
  pub refused : answer (m + length before) ≡ some error
  pub result : out.0 ≡ err error
  pub sent : out.1.accepted ≡ p.accepted ++ before
  pub updated : out.1.updated.count ≡ p.updated.count + length (flatten before)
  pub failed : out.1.failed.count ≡ p.failed.count + length failing
  pub some_failed : 1 ≤ length failing

abbrev pub Accounts :
    (ℕ → Option String)
    → ℕ
    → List (List InventoryDelta)
    → Pushed
    → Result String (Unit {0}) × Pushed
    → Type 0
Accounts answer m batches p out = Completes answer m batches p out ⊎ Refuses answer m batches p out

add_zero : (m : ℕ) → m + 0 ≡ m
add_zero m = omega arith

add_suc : (m i : ℕ) → m + suc i ≡ suc m + i
add_suc m i = omega arith

module _ (answer : ℕ → Option String) where
  -- The answers to a batch that was accepted and to those after it.
  answers_from :
      (m n : ℕ)
      → answer m ≡ none
      → ((i : ℕ) → i < n → answer (suc m + i) ≡ none)
      → (i : ℕ) → i < suc n
      → answer (m + i) ≡ none
  answers_from m n h k zero l = rw (add_zero m) h
  answers_from m n h k (suc i) l = rw (add_suc m i) (k i (omega (arith, l)))

  accepted_next :
      (batch : List InventoryDelta) (batches : List (List InventoryDelta)) (p : Pushed)
      → (p.accepted ++ batch ∷ []) ++ batches ≡ p.accepted ++ batch ∷ batches
  accepted_next batch batches p = append_assoc p.accepted (batch ∷ []) batches

  accepted-Accounts :
      (m : ℕ) (batch : List InventoryDelta) (batches : List (List InventoryDelta)) (p : Pushed)
      (out : Result String (Unit {0}) × Pushed)
      → answer m ≡ none
      → Accounts answer (suc m) batches (push_batch none batch p).1 out
      → Accounts answer m (batch ∷ batches) p out
  unfolding push_batch
  accepted-Accounts m batch batches p out h (inl c) = inl (record {
    answers = answers_from m (length batches) h c.answers;
    result = c.result;
    sent = c.sent ∙ accepted_next batch batches p;
    updated = omega (
      arith,
      c.updated,
      count-add_updated batch p.updated,
      length-append batch (flatten batches),
    );
    failed = c.failed;
  })
  accepted-Accounts m batch batches p out h (inr c) = inr (record {
    before = batch ∷ c.before;
    failing = c.failing;
    after = c.after;
    error = c.error;
    whole = ap (λ r. batch ∷ r) c.whole;
    answers = answers_from m (length c.before) h c.answers;
    refused = rw (add_suc m (length c.before)) c.refused;
    result = c.result;
    sent = c.sent ∙ accepted_next batch c.before p;
    updated = omega (
      arith,
      c.updated,
      count-add_updated batch p.updated,
      length-append batch (flatten c.before),
    );
    failed = c.failed;
    some_failed = c.some_failed;
  })

  push_loop-Accounts :
      (m : ℕ) (batches : List (List InventoryDelta)) (p : Pushed)
      → All (λ c. 1 ≤ length c) batches
      → Accounts answer m batches p (push_loop answer m batches p)
  unfolding push_loop push_batch
  push_loop-Accounts m [] p f = inl (record {
    answers = λ i l. absurd (omega (arith, l));
    result = refl;
    sent = sym (append-nil p.accepted);
    updated = omega arith;
    failed = omega arith;
  })
  push_loop-Accounts m (batch ∷ batches) p f =
      let rest = push_loop-Accounts (suc m) batches (push_batch none batch p).1 f.1 in
      elim (Option-cases (answer m)) [
        | inl e ↦
            rw (e, push_loop)
              (accepted-Accounts m batch batches p
                (push_loop answer (suc m) batches (push_batch none batch p).1) e rest)
        | inr (e, h) ↦
            rw (h, push_loop)
              (inr (record {
                before = [];
                failing = batch;
                after = batches;
                error = e;
                whole = refl;
                answers = λ i l. absurd (omega (arith, l));
                refused = rw (add_zero m) h;
                result = refl;
                sent = sym (append-nil p.accepted);
                updated = omega arith;
                failed = count-add_failed e batch p.failed;
                some_failed = f.0;
              }))
      ]

-- The deltas are cut into batches, none lost or repeated. Either Shopify refused no batch: all were
-- accepted in order, the report counts their deltas, and the call succeeds. Or it refused one, the
-- first of them: the batches before it were accepted and counted, its deltas are counted as failed,
-- its error is raised, and those after it are not sent.
pub push_in_batches-Accounts :
    (answer : ℕ → Option String) (resolved : List InventoryDelta) (p : Pushed)
    → (flatten (chunks inventory_push_batch_size resolved) ≡ resolved)
      × Accounts answer 0
          (chunks inventory_push_batch_size resolved)
          p
          (push_in_batches answer resolved p)
unfolding push_in_batches
push_in_batches-Accounts answer resolved p = (
  flatten-chunks inventory_push_batch_size resolved (omega arith),
  push_loop-Accounts answer 0 (chunks inventory_push_batch_size resolved) p
      (chunks_fuel-nonempty (length resolved) inventory_push_batch_size resolved (omega arith)),
)

push_loop-sizes :
    (answer : ℕ → Option String) (n : ℕ) (batches : List (List InventoryDelta)) (p : Pushed)
    → All (λ b. length b ≤ 250) batches
    → All (λ b. length b ≤ 250) p.accepted
    → All (λ b. length b ≤ 250) (push_loop answer n batches p).1.accepted
unfolding push_loop
push_loop-sizes answer n [] p a h = h
push_loop-sizes answer n (batch ∷ batches) p a h =
    go
      (push_loop-sizes answer (suc n) batches (push_batch none batch p).1 a.1
        (All-append _ p.accepted (batch ∷ []) h (a.0, tt)))
      (answer n)
  where
    go :
        All
          (λ b. length b ≤ 250)
          (push_loop answer (suc n) batches (push_batch none batch p).1).1.accepted
        → (o : Option String)
        → All
            (λ b. length b ≤ 250)
            (elim o as (λ _. Result String (Unit {0}) × Pushed) [
              | some e ↦ push_batch (some e) batch p
              | none ↦ push_loop answer (suc n) batches (push_batch none batch p).1
            ]).1.accepted
    go ih (some e) = h
    go ih none = ih

-- No batch that is sent passes Shopify's limit of 250 elements.
pub push_in_batches-sizes :
    (answer : ℕ → Option String) (resolved : List InventoryDelta)
    → All (λ b. length b ≤ 250) (push_in_batches answer resolved nothing_pushed).1.accepted
unfolding push_in_batches
push_in_batches-sizes answer resolved =
    push_loop-sizes answer 0 (chunks inventory_push_batch_size resolved) nothing_pushed
      (chunks_fuel-All (length resolved) inventory_push_batch_size resolved) tt
