-- ===== src/Sales.antt =====
-- src/bims_shopify/application/process_shopify_order.py and domain/sale.py: the submission of a paid
-- order as a sale of BIMS. The answers of BIMS to the attempts, numbered from 1, are the
-- parameter `Erp`; the wait before a retry is not modelled.
pub mod Once
pub mod Booking
use bims_shopify.Base.{
  ℕ, zero, suc, ◌+◌, ◌-◌, String, Bool, true, false, Option, none, some, List, [], ◌∷◌,
  if◌then◌else◌, leb, Result, ok, err,
}

pub data SaleResultKind : Type 0 where
  success deadlock_retryable unconfirmed : SaleResultKind

-- `SaleResult`: `data` is the document of the answer.
pub record SaleResult : Type 0 where
  pub kind : SaleResultKind
  pub data_of : Option String
  pub message : Option String
  pub retry_after_ms : Option ℕ
  pub operation_id : Option String

-- What `verify_sale_synced` answers: `already_synced` and `Sale`.
pub record Verification : Type 0 where
  pub already_synced : Bool
  pub sale : Option String

-- The answer to the submission, and to the check that follows it, of each attempt.
pub record Erp : Type 0 where
  pub create_or_update_sale : ℕ → Result String SaleResult
  pub verify_sale_synced : ℕ → Result String Verification

-- How a run ends; `running` is a run that is cut off by its fuel.
pub data Ending : Type 0 where
  returned : SaleResult → Ending
  max_retries_exceeded : ℕ → Ending
  raised : String → Ending
  running : Ending

-- A run: its end, and the attempts that were submitted.
pub record Run : Type 0 where
  pub ending : Ending
  pub attempts : List ℕ

module _ (erp : Erp) (max_retries : ℕ) where
  abbrev pub synced_result : Option String → SaleResult
  synced_result sale = record {
    kind = success;
    data_of = sale;
    message = none;
    retry_after_ms = none;
    operation_id = none;
  }

  abbrev pub ends : Ending → Run
  ends e = record { ending = e; attempts = [] }

  -- `if attempt >= self._max_retries: raise ...`, or the next round.
  abbrev pub retry : ℕ → Run → Run
  retry attempt rest = if leb max_retries attempt then ends (max_retries_exceeded attempt) else rest

  abbrev pub after_verify : ℕ → Result String Verification → Run → Run
  after_verify attempt (err e) rest = ends (raised e)
  after_verify attempt (ok v) rest =
      if v.already_synced then ends (returned (synced_result v.sale)) else retry attempt rest

  abbrev pub after_kind : ℕ → SaleResult → SaleResultKind → Run → Run
  after_kind attempt r success rest = ends (returned r)
  after_kind attempt r deadlock_retryable rest = retry attempt rest
  after_kind attempt r unconfirmed rest = after_verify attempt (erp.verify_sale_synced attempt) rest

  abbrev pub after_create : ℕ → Result String SaleResult → Run → Run
  after_create attempt (err e) rest = ends (raised e)
  after_create attempt (ok r) rest = after_kind attempt r r.kind rest

  abbrev pub submitted : ℕ → Run → Run
  submitted attempt r = record { ending = r.ending; attempts = attempt ∷ r.attempts }

  -- The rounds from this attempt on; the fuel is the number of rounds that are left.
  unfoldable pub rounds : ℕ → ℕ → Run
  rounds zero attempt = ends running
  rounds (suc n) attempt =
      let rest = rounds n (attempt + 1) in
      submitted attempt (after_create attempt (erp.create_or_update_sale attempt) rest)

  -- `ProcessShopifyOrder.run`: there are at most `max_retries` rounds, and at least one.
  unfoldable pub process_order : Run
  unfolding rounds
  process_order = rounds (max_retries + 1) 1
