-- ===== src/Tests/Settlements.antt =====
-- The settlement of a payment at a concrete callback.
use bims_shopify.Base.{
  ◌≢◌, ◌<◌, ◌+◌, ◌*◌, ◌%◌, ◌^◌, if◌then◌else◌, str_eq, ℤ, false, ℕ, ◌≤◌, String, ◌≡◌, refl, true,
  Option, none, some, [], ◌∷◌, count, pos, arith, ok, err,
}
use bims_shopify.Payments.{
  PaymentStatus, PaymentIntent, Store, Answers, handle_callback, settle_verified,
}
use bims_shopify.Payments.Pending.{settle_after_pending}
use bims_shopify.Payments.Links.{save, get_by_order_id}
use bims_shopify.Payments.Links.Saved.{get_by_order_id-save}
use bims_shopify.Vpos.{probe_shop_process_id, build_shop_process_id}
use bims_shopify.Vpos.Operations.{build_shop_process_id_parts}
use bims_shopify.Payments.Once.{
  callback, settlement, after_calls, paid_at_most_once, handle_callback-Sound,
}
use bims_shopify.Payments.Claims.{Once, Sound, is_mark}
use bims_shopify.Payments.Steps.{System, Reach, here, later, turn, waiting, advance}
use bims_shopify.Payments.Interleaving.{interleaved_at_most_once}

abbrev order : PaymentIntent
order = record {
  tenant_slug = "shop";
  order_id = "1001";
  amount = pos 150000000000000;
  currency = "PYG";
  checkout_url = some "https://pay";
  provider_reference = some "700";
  status = "pending";
  process_id = some "abc";
  row_id = some 7;
  order_metafields = [];
}

abbrev answers : Answers
answers = record {
  provider = "bancard_vpos";
  source = "payment:bancard_vpos";
  payload_hash = "hash";
  parsed = ok order;
  verified = ok (PaymentStatus.confirmed, []);
  marked = ok true;
  annotation = ok true;
  audit = ok true;
  event_written = ok true;
  intent_written = ok true;
  claim_deleted = ok true;
}

abbrev unreachable : Answers
unreachable = record answers { verified = err "ConnectError" }

abbrev fresh : Store
fresh = record {
  events = [];
  intents = record { id = 7; tenant_id = 1; provider = "bancard_vpos"; intent = order } ∷ [];
  next_id = 8;
  marks = [];
  annotated = [];
  audits = [];
  minted = [];
  abandoned = [];
}

fresh-Once : Once fresh
fresh-Once t y z = omega arith

-- The database goes away after the order has been marked.
abbrev cut_short : Answers
cut_short = record answers { event_written = err "OperationalError" }

handle_callback-Sound_example : Sound cut_short 1 fresh (handle_callback cut_short 1 fresh)
handle_callback-Sound_example = handle_callback-Sound cut_short 1 fresh fresh-Once

paid_at_most_once_example :
    count
      (is_mark 1 "payment:bancard_vpos" "700")
      (after_calls
        (callback unreachable 1 ∷ settlement answers 1 order ∷ callback answers 1 ∷ [])
        fresh).marks
    ≤ 1
paid_at_most_once_example =
    paid_at_most_once
      (callback unreachable 1 ∷ settlement answers 1 order ∷ callback answers 1 ∷ []) fresh refl 1
      "payment:bancard_vpos" "700"

abbrev slow_bank : Answers
slow_bank = record answers { verified = ok (PaymentStatus.pending, []) }

settle_after_pending_example :
    settle_verified answers 1 order (handle_callback slow_bank 1 fresh).1
    ≡ (ok false, (handle_callback slow_bank 1 fresh).1)
settle_after_pending_example =
    settle_after_pending slow_bank answers 1 order [] fresh refl refl refl refl

-- The one reference that is read here.
abbrev reads_700 : String → Option ℤ
reads_700 t = if str_eq t "700" then some (pos 700) else none

get_by_order_id-save_example :
    get_by_order_id 1 "bancard_vpos" "1001" (save 1 "bancard_vpos" order fresh).1.intents
    ≡ ok (
        some (record order {
          tenant_slug = "";
          row_id = some (save 1 "bancard_vpos" order fresh).0;
          order_metafields = [];
        }))
get_by_order_id-save_example = get_by_order_id-save 1 "bancard_vpos" order fresh (omega arith)

build_shop_process_id_parts_example :
    (703 < 10 ^ 15)
    × (703 ≢ probe_shop_process_id)
    × (pos (703 % 100) ≡ pos 3)
    × ((r : ℕ) × (pos r ≡ pos 7) × (0 < r) × (703 ≡ r * 100 + 703 % 100))
unfolding build_shop_process_id
build_shop_process_id_parts_example = build_shop_process_id_parts (pos 7) (pos 3) {spid = 703} refl

-- Two deliveries of one payment, of which one step has been taken.
abbrev both_wait : System
both_wait = record {
  store = fresh;
  workers = (callback answers 1, waiting) ∷ (settlement answers 1 order, waiting) ∷ [];
}

abbrev one_claimed : System
one_claimed = record {
  store = (advance (callback answers 1) waiting fresh).1;
  workers =
      (callback answers 1, (advance (callback answers 1) waiting fresh).0)
      ∷ (settlement answers 1 order, waiting)
      ∷ [];
}

first_step : Reach both_wait one_claimed
first_step =
    later here
      (turn [] ((settlement answers 1 order, waiting) ∷ []) (callback answers 1) waiting refl refl)

interleaved_at_most_once_example :
    count (is_mark 1 "payment:bancard_vpos" "700") one_claimed.store.marks ≤ 1
interleaved_at_most_once_example =
    interleaved_at_most_once {u = both_wait} {v = one_claimed} (refl, (refl, tt)) refl first_step 1
      "payment:bancard_vpos" "700"
