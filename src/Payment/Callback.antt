-- ===== src/Payment/Callback.antt =====
-- capabilities/payment/payment_channel_template.py: close_order, handle_callback and
-- validate_callback, with the callback of payment_callback.py. As in Channel, the channel's own steps
-- are arguments and the stores come back beside the result; `close_order` gives its calls of the channel
-- as well.
pub mod Settled
pub mod Closing
use flower_web_infrastructur.Prelude.{
  ℕ, ◌+◌, Bool, true, false, not, ◌&&◌, ◌||◌, Option, none, some, List, [], ◌∷◌, String, nat_beq,
  if◌then◌else◌, ◌==◌, string_eq,
}
use flower_web_infrastructur.Payment.Status.{
  PaymentStatus, PaymentEvent, PaymentError, Result, ok, raise, sign_verify_failed, amount_mismatch,
  order_state_conflict, target, ◌>>=◌,
}
use flower_web_infrastructur.Payment.Store.{
  FlowStatus, FlowEvent, LocalOrder, OrderStore, find_by_out_trade_no, update_status, find_expired,
}
use flower_web_infrastructur.Payment.Channel.{
  Stores, Outcome, FlowContext, persist_flow, get_local_order, or_empty,
}

abbrev pub is_success : PaymentStatus → Bool
is_success PaymentStatus.success = true
is_success _ = false

abbrev pub is_closed : PaymentStatus → Bool
is_closed PaymentStatus.closed = true
is_closed _ = false

abbrev pub close_context : String → FlowContext
close_context trade_no = record {
  out_trade_no = trade_no;
  amount = none;
  event_type = FlowEvent.close;
  is_success = true;
  out_refund_no = "";
  is_reversal = false;
  original_flow_id = "";
  status_override = some FlowStatus.closed;
}

-- What `close_order` asks of the channel: `_do_query_order` and `_do_close_order`.
pub data ChannelCall : Type 0 where
  query_order close_there : ChannelCall

-- The calls that were made, in order, beside the outcome.
abbrev pub Traced : Type 0 → Type 0
Traced A = List ChannelCall × Outcome A

-- The part of `close_order` behind the local checks. `queried` is what `_do_query_order` gives, an
-- order by its status, and `closing` how `_do_close_order` ends.
unfoldable pub close_at_channel :
    String → String → Result (Option PaymentStatus) → Result (Unit {0}) → Stores → Traced (Unit {0})
close_at_channel uuid trade_no queried closing s = elim queried [
  | raise e ↦ (query_order ∷ [], (s, raise e))
  | ok order ↦
      if elim order [ none ↦ false | some status ↦ is_success status ]
      then (query_order ∷ [], (s, raise order_state_conflict))
      else elim closing [
        | raise e ↦ (query_order ∷ close_there ∷ [], (s, raise e))
        | ok _ ↦
            (query_order ∷ close_there ∷ [], (persist_flow uuid (close_context trade_no) s, ok tt))
      ]
]

unfoldable pub close_order :
    String → String → Result (Option PaymentStatus) → Result (Unit {0}) → Stores → Traced (Unit {0})
close_order uuid trade_no queried closing s = elim (get_local_order trade_no s) [
  | none ↦ close_at_channel uuid trade_no queried closing s
  | some local ↦
      if is_closed local.status
      then ([], (s, ok tt))
      else if is_success local.status
      then ([], (s, raise order_state_conflict))
      else close_at_channel uuid trade_no queried closing s
]

pub record Callback : Type 0 where
  pub event_type : String
  pub out_trade_no : String
  pub amount : ℕ
  pub mch_refund_no : Option String
  pub attach : Option String

unfoldable pub callback_event : Callback → Result PaymentEvent
callback_event c =
    if c.event_type == "TRANSACTION.SUCCESS" || c.event_type == "PAY.SUCCESS"
    then ok PaymentEvent.pay_success
    else if c.event_type == "REFUND.SUCCESS"
    then ok PaymentEvent.refund_success
    else raise order_state_conflict

-- `callback.attach and local.attach and callback.attach != local.attach`
abbrev pub attach_differs : Callback → LocalOrder → Bool
attach_differs c o =
    not (or_empty c.attach == "") && not (o.attach == "") && not (or_empty c.attach == o.attach)

-- The status that a callback is to set, from the local order.
unfoldable pub check_callback : Callback → LocalOrder → Result PaymentStatus
check_callback c local =
    if not (nat_beq c.amount local.amount)
    then raise amount_mismatch
    else if attach_differs c local
    then raise amount_mismatch
    else do event ← callback_event c; target local.status event

unfoldable pub verify_in : Callback → OrderStore → Result OrderStore
verify_in c orders = elim (find_by_out_trade_no c.out_trade_no orders) [
  | none ↦ raise order_state_conflict
  | some local ↦ do
    status ← check_callback c local
    ok (update_status c.out_trade_no status orders).0
]

-- `_verify_and_check`, which changes no store before it raises; `validate_callback` is this and
-- gives the callback back.
unfoldable pub verify_and_check : Callback → Stores → Outcome (Unit {0})
verify_and_check c s = elim s.order_store [
  | none ↦ (s, ok tt)
  | some orders ↦ elim (verify_in c orders) [
    | raise e ↦ (s, raise e)
    | ok orders' ↦ (record s { order_store = some orders' }, ok tt)
  ]
]

unfoldable pub validate_callback : Callback → Stores → Outcome Callback
validate_callback c s =
    let (s', r) = verify_and_check c s in (s', elim r [ raise e ↦ raise e | ok _ ↦ ok c ])

abbrev pub flow_event : PaymentEvent → FlowEvent
flow_event PaymentEvent.pay_success = FlowEvent.pay
flow_event _ = FlowEvent.refund

abbrev pub callback_context : Callback → PaymentEvent → FlowContext
callback_context c event = record {
  out_trade_no = c.out_trade_no;
  amount = some c.amount;
  event_type = flow_event event;
  is_success = true;
  out_refund_no = or_empty c.mch_refund_no;
  is_reversal = false;
  original_flow_id = "";
  status_override = none;
}

-- What follows `_verify_and_check` in `handle_callback`.
unfoldable pub book_callback : String → Callback → Outcome (Unit {0}) → Outcome (Unit {0})
book_callback uuid c (s, raise e) = (s, raise e)
book_callback uuid c (s, ok _) = elim (callback_event c) [
  | raise e ↦ (s, raise e)
  | ok event ↦ (persist_flow uuid (callback_context c event) s, ok tt)
]

-- `parsed` is what `_parse_callback` gives.
unfoldable pub handle_callback : String → Result (Option Callback) → Stores → Outcome (Unit {0})
handle_callback uuid parsed s = elim parsed [
  | raise e ↦ (s, raise e)
  | ok found ↦ elim found [
    | none ↦ (s, raise sign_verify_failed)
    | some c ↦ book_callback uuid c (verify_and_check c s)
  ]
]
