-- ===== src/Vpos.antt =====
-- src/bims_shopify/domain/bancard_vpos.py: the number of an operation at the bank and the reading of
-- the bank's answers. A row id or an attempt is an integer here: the texts that the code also takes
-- for a row id, and the values of other types that it refuses, are not modelled.
pub mod Operations
use bims_shopify.Base.{
  ℕ, ◌+◌, ◌*◌, ◌^◌, String, Bool, true, false, not, ◌&&◌, ◌||◌, ◌==◌, Option, none, some, List, [],
  ◌∷◌, if◌then◌else◌, str_eq, ltb, leb, ℤ, pos, negsuc, Result, ok, err, ◌>>=◌,
}

-- `PROBE_SHOP_PROCESS_ID`
abbrev pub probe_shop_process_id : ℕ
probe_shop_process_id = 999999999999999

-- The tests of the attempt number.
unfoldable pub check_attempt : ℤ → Result String ℕ
check_attempt (pos n) = if leb n 99 then ok n else err "VposInvalidIdError"
check_attempt (negsuc n) = err "VposInvalidIdError"

-- The tests of a row id that is an integer: positive, and of at most 13 digits.
unfoldable pub check_row : ℤ → Result String ℕ
check_row (pos n) = if (n == 0) || leb (10 ^ 13) n then err "VposInvalidIdError" else ok n
check_row (negsuc n) = err "VposInvalidIdError"

-- `build_shop_process_id` for a row id that is an integer.
unfoldable pub build_shop_process_id : ℤ → ℤ → Result String ℕ
unfolding check_attempt check_row
build_shop_process_id row_id attempt = do
  a ← check_attempt attempt
  r ← check_row row_id
  if (r * 100 + a) == probe_shop_process_id then err "VposInvalidIdError" else ok (r * 100 + a)

pub data ConfirmationOutcome : Type 0 where
  approved declined unknown : ConfirmationOutcome

-- `none` is an answer that is no text.
unfoldable pub classify_response_code : Option String → ConfirmationOutcome
classify_response_code none = ConfirmationOutcome.unknown
classify_response_code (some code) =
    if str_eq code "00"
    then ConfirmationOutcome.approved
    else if str_eq code "05" || str_eq code "12" || str_eq code "15" || str_eq code "51"
    then ConfirmationOutcome.declined
    else ConfirmationOutcome.unknown

pub data RollbackOutcome : Type 0 where
  benign operator_action other : RollbackOutcome

unfoldable pub classify_rollback_key : Option String → RollbackOutcome
classify_rollback_key none = RollbackOutcome.other
classify_rollback_key (some key) =
    if str_eq key "RollbackSuccessful"
      || str_eq key "PaymentNotFoundError"
      || str_eq key "AlreadyRollbackedError"
    then RollbackOutcome.benign
    else if str_eq key "TransactionAlreadyConfirmed"
    then RollbackOutcome.operator_action
    else RollbackOutcome.other

pub data RollbackVerdict : Type 0 where
  succeeded no_op manual_annulment_required transport_failure unexpected : RollbackVerdict

unfoldable pub classify_rollback_verdict : Option String → RollbackVerdict
classify_rollback_verdict none = RollbackVerdict.unexpected
classify_rollback_verdict (some key) =
    if str_eq key "RollbackSuccessful"
    then RollbackVerdict.succeeded
    else if str_eq key "PaymentNotFoundError" || str_eq key "AlreadyRollbackedError"
    then RollbackVerdict.no_op
    else if str_eq key "TransactionAlreadyConfirmed"
    then RollbackVerdict.manual_annulment_required
    else RollbackVerdict.unexpected
