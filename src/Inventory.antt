-- ===== src/Inventory.antt =====
-- src/bims_shopify/application/sync_inventory.py and domain/product.py (InventoryDelta): the safety
-- guard, the report buckets and the batch writer that every write of quantities goes through.
-- Python's `float` and `int` of a text are the parameters `parse_float` and `parse_int`.
pub mod Guard
pub mod Push
use bims_shopify.Base.{
  ℕ, zero, suc, ◌+◌, ◌*◌, ◌≤◌, String, Bool, true, false, not, ◌&&◌, Option, none, some, List, [],
  ◌∷◌, ◌++◌, ltb, leb, if◌then◌else◌, length, count, chunks, ℤ, pos, negsuc, ◌==ℤ◌, ◌-ℤ◌, Result,
  ok, err, ◌>>=◌, or_raise,
}
use bims_shopify.Values.{
  Value, null, bool, int, float, string, Object, get_or, unit, of_int, truncate,
}
use bims_shopify.Snapshot.{Tenant}

pub record InventoryDelta : Type 0 where
  pub sku : String
  pub previous_stock : Option ℤ
  pub new_stock : ℤ
  pub variant_inventory_item_id : Option String

-- `_Bucket`: a count and a bounded sample; `limit` is the constant that it names.
pub record Bucket (A : Type 0) : Type 0 where
  pub count : ℕ
  pub sample : List A

abbrev pub empty_bucket : {A : Type 0} → Bucket A
empty_bucket = record { count = 0; sample = [] }

-- `_Bucket.add`
unfoldable pub add : {A : Type 0} → ℕ → A → ℕ → Bucket A → Bucket A
add limit row n b = record {
  count = b.count + n;
  sample = if ltb (length b.sample) limit then b.sample ++ row ∷ [] else b.sample;
}

pub data GuardReason : Type 0 where
  zero_ratio_exceeded max_changed_exceeded : GuardReason

pub record NeedsConfirmation : Type 0 where
  pub reason : GuardReason
  pub zero_count : ℕ
  pub matched_count : ℕ
  -- A ratio in units of 10⁻⁹, or a number of variants.
  pub threshold : ℤ

abbrev pub guard_min_sample : ℕ
guard_min_sample = 25

abbrev pub inventory_push_batch_size : ℕ
inventory_push_batch_size = 250

abbrev pub one : Bool → ℤ
one true = pos 1
one false = pos 0

-- `sum(1 for d in resolved if d.new_stock == 0)`
unfoldable pub zeroed : List InventoryDelta → ℕ
zeroed = count (λ d. d.new_stock ==ℤ pos 0)

-- `zero_count / matched_count > max_zero_ratio`, multiplied out.
unfoldable pub exceeds_ratio : ℕ → ℕ → ℤ → Bool
exceeds_ratio zero_count matched (pos r) = ltb (r * matched) (zero_count * unit)
exceeds_ratio zero_count matched (negsuc r) = true

unfoldable pub exceeds : ℕ → ℤ → Bool
exceeds matched (pos m) = ltb m matched
exceeds matched (negsuc m) = true

-- The tests of `check_safety_guard`, with the thresholds read.
unfoldable pub guard_verdict : ℤ → ℤ → List InventoryDelta → Option NeedsConfirmation
unfolding zeroed exceeds_ratio exceeds
guard_verdict max_zero_ratio max_changed resolved =
    let matched = length resolved in
    let zero_count = zeroed resolved in
    if leb guard_min_sample matched && exceeds_ratio zero_count matched max_zero_ratio
    then some (record {
      reason = GuardReason.zero_ratio_exceeded;
      zero_count = zero_count;
      matched_count = matched;
      threshold = max_zero_ratio;
    })
    else if exceeds matched max_changed
    then some (record {
      reason = GuardReason.max_changed_exceeded;
      zero_count = zero_count;
      matched_count = matched;
      threshold = max_changed;
    })
    else none

module _ (parse_float parse_int : String → Option ℤ) where
  -- `float(value)`
  unfoldable pub float_of : Value → Result String ℤ
  unfolding of_int
  float_of null = err "TypeError"
  float_of (bool b) = ok (of_int (one b))
  float_of (int n) = ok (of_int n)
  float_of (float q) = ok q
  float_of (string s) = or_raise (parse_float s) "ValueError"

  -- `int(value)`
  unfoldable pub int_of : Value → Result String ℤ
  unfolding truncate
  int_of null = err "TypeError"
  int_of (bool b) = ok (one b)
  int_of (int n) = ok n
  int_of (float q) = ok (truncate q)
  int_of (string s) = or_raise (parse_int s) "ValueError"

  unfoldable pub max_zero_ratio : Tenant → Result String ℤ
  unfolding float_of
  max_zero_ratio tenant =
      float_of (get_or "max_zero_ratio" (float (pos 200000000)) tenant.field_mappings)

  unfoldable pub max_changed_variants : Tenant → Result String ℤ
  unfolding int_of
  max_changed_variants tenant =
      int_of (get_or "max_changed_variants" (int (pos 500)) tenant.field_mappings)

  unfoldable pub check_safety_guard :
      Tenant → List InventoryDelta → Result String (Option NeedsConfirmation)
  unfolding max_zero_ratio max_changed_variants guard_verdict
  check_safety_guard tenant [] = ok none
  check_safety_guard tenant (d ∷ ds) = do
    ratio ← max_zero_ratio tenant
    changed ← max_changed_variants tenant
    ok (guard_verdict ratio changed (d ∷ ds))

-- The rows of the two buckets.
pub record UpdatedRow : Type 0 where
  pub sku : String
  pub previous : Option ℤ
  pub new : ℤ

pub record FailedRow : Type 0 where
  pub sku : String
  pub error : String

-- `_delta_row`
abbrev pub delta_row : InventoryDelta → UpdatedRow
delta_row d = record { sku = d.sku; previous = d.previous_stock; new = d.new_stock }

-- What a push leaves behind: the batches that Shopify accepted, in order, and the two buckets.
pub record Pushed : Type 0 where
  pub accepted : List (List InventoryDelta)
  pub updated : Bucket UpdatedRow
  pub failed : Bucket FailedRow

abbrev pub nothing_pushed : Pushed
nothing_pushed = record { accepted = []; updated = empty_bucket; failed = empty_bucket }

abbrev pub sample_size : ℕ
sample_size = 20

unfoldable pub add_updated : List InventoryDelta → Bucket UpdatedRow → Bucket UpdatedRow
unfolding add
add_updated [] b = b
add_updated (d ∷ ds) b = add_updated ds (add sample_size (delta_row d) 1 b)

unfoldable pub add_failed : String → List InventoryDelta → Bucket FailedRow → Bucket FailedRow
unfolding add
add_failed error [] b = b
add_failed error (d ∷ ds) b =
    add_failed error ds (add sample_size (record { sku = d.sku; error = error }) 1 b)

-- One batch: `answer` is the error of `set_inventory_quantities`, if it raises. The error text is
-- taken as it is cut to 300 characters.
unfoldable pub push_batch :
    Option String → List InventoryDelta → Pushed → Result String (Unit {0}) × Pushed
unfolding add_updated add_failed
push_batch (some e) batch p = (err e, record p { failed = add_failed e batch p.failed })
push_batch none batch p =
    (ok tt, record p { accepted = p.accepted ++ batch ∷ []; updated = add_updated batch p.updated })

-- The loop of `push_in_batches`; `answer n` is Shopify's answer to the n-th batch.
unfoldable pub push_loop :
    (ℕ → Option String)
    → ℕ
    → List (List InventoryDelta)
    → Pushed
    → Result String (Unit {0}) × Pushed
unfolding push_batch
push_loop answer n [] p = (ok tt, p)
push_loop answer n (batch ∷ rest) p = elim (answer n) [
  | some e ↦ push_batch (some e) batch p
  | none ↦ push_loop answer (suc n) rest (push_batch none batch p).1
]

unfoldable pub push_in_batches :
    (ℕ → Option String) → List InventoryDelta → Pushed → Result String (Unit {0}) × Pushed
unfolding push_loop
push_in_batches answer resolved p = push_loop answer 0 (chunks inventory_push_batch_size resolved) p
