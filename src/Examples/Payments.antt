-- ===== src/Examples/Payments.antt =====
-- The payment components at concrete inputs.
use flower_web_infrastructur.Prelude.{
  ℕ, ◌+◌, ◌≤◌, ◌<◌, ◌≡◌, ◌≢◌, ◌⊎◌, refl, true, false, Option, none, some, List, [], ◌∷◌, String,
  All, arith, string_eq,
}
use text.Mathlib.TextEquality.{eq_iff}
use flower_web_infrastructur.Payment.Status.{
  PaymentStatus, PaymentEvent, PaymentError, Result, ok, raise, order_state_conflict,
  common_conflict,
}
use flower_web_infrastructur.Payment.Status.Paths.{Paid}
use flower_web_infrastructur.Payment.Store.{
  FlowStatus, FlowEvent, FlowRecord, FlowStore, empty_flows, LocalOrder, OrderStore,
  find_by_order_and_event, find_by_flow_id, find_by_out_trade_no, find_reversal, sum_refunded,
}
use flower_web_infrastructur.Payment.Channel.{
  Stores, PrepayRequest, RefundRequest, prepay, new_order, refund, supports, get_local_order,
}
use flower_web_infrastructur.Payment.Channel.Refunds.{
  stores_of, Fits, refund-first, refunds, answers, refunds_unbounded, applied_for,
}
use flower_web_infrastructur.Payment.Channel.Prepay.{IsBusy, IsIdle, prepay_cases}
use flower_web_infrastructur.Payment.Callback.{
  Callback, validate_callback, handle_callback, callback_event, close_order,
}
use flower_web_infrastructur.Payment.Callback.Settled.{
  Settles, handle_callbacks, handle_callbacks-Paid, validate_callback_cases,
}
use flower_web_infrastructur.Payment.Callback.Closing.{
  refund_notice_unbooked, IsRefused, close_order-guarded,
}
use flower_web_infrastructur.Payment.Reversal.{reversal_flow, recorded, reversal_flow-once}
use flower_web_infrastructur.Payment.CloseTask.{Turn, close_expired_orders}
use flower_web_infrastructur.Payment.CloseTask.Paid.{IsPaid, close_expired_orders-IsPaid}
use flower_web_infrastructur.Payment.Risk.{LimitRule, Request}
use flower_web_infrastructur.Payment.Risk.Daily.{daily_key, spent, accepted, accepted-daily_limit}

abbrev order_in : PaymentStatus → LocalOrder
order_in status = record {
  out_trade_no = "o1";
  amount = 100;
  status = status;
  attach = "";
  expire_at = some 900;
}

abbrev orders_in : PaymentStatus → OrderStore
orders_in status = ("o1", order_in status) ∷ []

abbrev refund_flow : FlowRecord
refund_flow = record {
  out_trade_no = "o1";
  event_type = FlowEvent.refund;
  amount = 30;
  status = FlowStatus.pending;
  flow_id = "f1";
  out_refund_no = "r1";
  original_flow_id = "";
  is_reversal = false;
  reversed_at = none;
}

abbrev refunded_once : FlowStore
refunded_once = record {
  flows = ("f1", refund_flow) ∷ [];
  by_key = (("o1", FlowEvent.refund), "f1") ∷ [];
}

abbrev notice : String → Callback
notice event = record {
  event_type = event;
  out_trade_no = "o1";
  amount = 100;
  mch_refund_no = none;
  attach = none;
}

abbrev both : List (String × Result (Option Callback))
both =
    ("u1", ok (some (notice "TRANSACTION.SUCCESS")))
    ∷ ("u2", ok (some (notice "REFUND.SUCCESS")))
    ∷ []

abbrev paid_stores : Stores
paid_stores = stores_of empty_flows (orders_in PaymentStatus.success)

found_order : (s : PaymentStatus) → find_by_out_trade_no "o1" (orders_in s) ≡ some (order_in s)
unfolding find_by_out_trade_no
found_order s = refl

found_locally :
    (s : PaymentStatus)
    → get_local_order "o1" (stores_of empty_flows (orders_in s)) ≡ some (order_in s)
unfolding find_by_out_trade_no get_local_order
found_locally s = refl

handle_callbacks-Paid_example :
    (orders' : OrderStore) × (o' : LocalOrder) × ((handle_callbacks both paid_stores).order_store
      ≡ some orders')
    × (find_by_out_trade_no "o1" orders' ≡ some o')
    × (o'.amount ≡ 100)
    × Paid o'.status
handle_callbacks-Paid_example =
    handle_callbacks-Paid both paid_stores (orders_in PaymentStatus.success) "o1"
      (order_in PaymentStatus.success) refl (found_order PaymentStatus.success) tt

validate_callback_cases_example :
    ((e : PaymentError) × (validate_callback
          (notice "PAY.SUCCESS")
          (stores_of empty_flows (orders_in PaymentStatus.notpay))
        ≡ (stores_of empty_flows (orders_in PaymentStatus.notpay), raise e)))
    ⊎ ((orders' : OrderStore) × (validate_callback
            (notice "PAY.SUCCESS")
            (stores_of empty_flows (orders_in PaymentStatus.notpay))
          ≡ (stores_of empty_flows orders', ok (notice "PAY.SUCCESS")))
        × Settles (notice "PAY.SUCCESS") (orders_in PaymentStatus.notpay) orders')
validate_callback_cases_example =
    validate_callback_cases (notice "PAY.SUCCESS") (some empty_flows)
      (orders_in PaymentStatus.notpay)

abbrev refund_of : String → ℕ → RefundRequest
refund_of refund_no amount = record {
  out_trade_no = "o1";
  out_refund_no = refund_no;
  refund_amount = amount;
}

abbrev order_no : String
order_no = "o1"

abbrev done : String
done = "done"

abbrev can : List String
can = "prepay" ∷ "refund" ∷ []

can_refund : supports can "refund" ≡ true
unfolding supports
can_refund = refl

-- The number of the order is not the empty one.
order_named : order_no ≢ ""
order_named e = let h : false ≡ true = (eq_iff order_no "").1 e in absurd cc

no_refund_under : (n : String) (e : FlowEvent) → find_by_order_and_event n e empty_flows ≡ none
unfolding find_by_order_and_event
no_refund_under n e = refl

no_flow : (n : String) → find_by_flow_id n empty_flows ≡ none
unfolding find_by_flow_id
no_flow n = refl

has_refund : find_by_order_and_event "o1" FlowEvent.refund refunded_once ≡ some refund_flow
unfolding find_by_order_and_event
has_refund = refl

refund-first_example :
    ((sum_refunded "o1" empty_flows + 30 ≤ 100)
      × ((flows' : FlowStore) × (refund can "u1"
              (refund_of "r1" 30)
              (ok done)
              (stores_of empty_flows (orders_in PaymentStatus.success))
            ≡ (stores_of flows' (orders_in PaymentStatus.success), ok done))
          × (find_by_order_and_event "o1" FlowEvent.refund flows'
              ≡ some (applied_for "u1" (refund_of "r1" 30)))
          × (sum_refunded "o1" flows' ≡ sum_refunded "o1" empty_flows + 30)))
    ⊎ ((100 < sum_refunded "o1" empty_flows + 30)
        × (refund can "u1"
              (refund_of "r1" 30)
              (ok done)
              (stores_of empty_flows (orders_in PaymentStatus.success))
            ≡ (stores_of empty_flows (orders_in PaymentStatus.success), raise common_conflict)))
refund-first_example =
    refund-first can can_refund "u1" (refund_of "r1" 30) done empty_flows
      (orders_in PaymentStatus.success) (order_in PaymentStatus.success) order_named
      (found_order PaymentStatus.success) (no_refund_under "r1" FlowEvent.refund)
      (no_refund_under "o1" FlowEvent.refund) (no_flow "u1")

abbrev later_refunds : List (String × RefundRequest)
later_refunds = ("u2", refund_of "r2" 70) ∷ ("u3", refund_of "r3" 70) ∷ []

later_refunds-Fits : All (Fits "o1" refunded_once (order_in PaymentStatus.success)) later_refunds
unfolding find_by_order_and_event sum_refunded
later_refunds-Fits = ((refl, refl, omega arith), ((refl, refl, omega arith), tt))

refunds_unbounded_example :
    (refunds can can_refund later_refunds done
        (stores_of refunded_once (orders_in PaymentStatus.success))
      ≡ stores_of refunded_once (orders_in PaymentStatus.success))
    × All
        (λ (answer : Result String). answer ≡ ok done)
        (answers can can_refund later_refunds done
          (stores_of refunded_once (orders_in PaymentStatus.success)))
refunds_unbounded_example =
    refunds_unbounded can can_refund "o1" refunded_once (orders_in PaymentStatus.success)
      (order_in PaymentStatus.success) later_refunds done refund_flow order_named
      (found_order PaymentStatus.success) has_refund later_refunds-Fits

abbrev again : PrepayRequest
again = record { out_trade_no = "o1"; total_amount = 250; attach = none; time_expire = none }

prepay_cases_example :
    ((local : LocalOrder) × (find_by_out_trade_no "o1" (orders_in PaymentStatus.closed)
        ≡ some local)
      × IsBusy local.status
      × (prepay again (ok done) (stores_of empty_flows (orders_in PaymentStatus.closed))
          ≡ (stores_of empty_flows (orders_in PaymentStatus.closed), raise order_state_conflict)))
    ⊎ (((find_by_out_trade_no "o1" (orders_in PaymentStatus.closed) ≡ none)
          ⊎ ((local : LocalOrder) × (find_by_out_trade_no "o1" (orders_in PaymentStatus.closed)
                ≡ some local)
              × IsIdle local.status))
        × ((orders' : OrderStore) × (prepay again
                (ok done)
                (stores_of empty_flows (orders_in PaymentStatus.closed))
              ≡ (stores_of empty_flows orders', ok done))
            × (find_by_out_trade_no "o1" orders' ≡ some (new_order again))
            × ((order_no ≡ "o2")
                ⊎ (find_by_out_trade_no "o2" orders'
                    ≡ find_by_out_trade_no "o2" (orders_in PaymentStatus.closed)))))
prepay_cases_example =
    prepay_cases again done (some empty_flows) (orders_in PaymentStatus.closed) "o2"

is_refund_notice : callback_event (notice "REFUND.SUCCESS") ≡ ok PaymentEvent.refund_success
unfolding callback_event
is_refund_notice = refl

refund_notice_unbooked_example :
    (handle_callback "u2"
      (ok (some (notice "REFUND.SUCCESS")))
      (stores_of refunded_once (orders_in PaymentStatus.success))).0.flow_store
    ≡ some refunded_once
refund_notice_unbooked_example =
    refund_notice_unbooked "u2" (notice "REFUND.SUCCESS") refunded_once
      (some (orders_in PaymentStatus.success)) refund_flow is_refund_notice has_refund

abbrev pay_flow : String → FlowRecord
pay_flow flow_id = record {
  out_trade_no = "o1";
  event_type = FlowEvent.pay;
  amount = 100;
  status = FlowStatus.booked;
  flow_id = flow_id;
  out_refund_no = "";
  original_flow_id = "";
  is_reversal = false;
  reversed_at = none;
}

nothing_reversed : (n : String) → find_reversal n empty_flows ≡ none
unfolding find_reversal
nothing_reversed n = refl

reversal_flow-once_example :
    (r : FlowRecord) × ((reversal_flow "u1" 5 (pay_flow "f9") empty_flows).1 ≡ recorded r)
    × (r.amount ≡ 100)
    × (r.original_flow_id ≡ "f9")
    × (reversal_flow "u2" 6 (pay_flow "f9") (reversal_flow "u1" 5 (pay_flow "f9") empty_flows).0
        ≡ ((reversal_flow "u1" 5 (pay_flow "f9") empty_flows).0, recorded r))
reversal_flow-once_example =
    reversal_flow-once "u1" "u2" 5 6 (pay_flow "f9") empty_flows (nothing_reversed "f9") refl refl
      (no_refund_under "o1" FlowEvent.reversal)

-- While the close is awaited, another task marks the order as paid.
abbrev turn : Turn
turn = record {
  uuid = "u1";
  queried = ok none;
  closing = ok tt;
  during = λ s. stores_of empty_flows (orders_in PaymentStatus.success);
}

is_paid : IsPaid "o1" paid_stores
is_paid = (order_in PaymentStatus.success, found_locally PaymentStatus.success, refl)

close_expired_orders-IsPaid_example :
    IsPaid "o1" (close_expired_orders (λ i. turn) 1000 10 paid_stores).0
close_expired_orders-IsPaid_example =
    close_expired_orders-IsPaid (λ i. turn) 1000 10 "o1" paid_stores (λ i s p. is_paid) is_paid

abbrev unpaid_stores : Stores
unpaid_stores = stores_of empty_flows (orders_in PaymentStatus.notpay)

close_order-guarded_example :
    ((local : LocalOrder) × (get_local_order "o1" unpaid_stores ≡ some local)
      × (local.status ≡ PaymentStatus.closed)
      × (close_order "u1" "o1" (ok (some PaymentStatus.success)) (ok tt) unpaid_stores
          ≡ ([], (unpaid_stores, ok tt))))
    ⊎ IsRefused unpaid_stores
        (close_order "u1" "o1" (ok (some PaymentStatus.success)) (ok tt) unpaid_stores)
close_order-guarded_example =
    close_order-guarded "u1" "o1" (ok (some PaymentStatus.success)) (ok tt) unpaid_stores refl

abbrev rule : LimitRule
rule = record {
  per_transaction = some 5000;
  daily_limit = some 9000;
  monthly_limit = none;
  frequency_window_seconds = 60;
  max_attempts = 3;
  suspicious_split_count = 3;
  suspicious_split_ratio_num = 9;
  suspicious_split_ratio_den = 10;
}

abbrev payment : ℕ → Request
payment amount = record {
  now = 1700000000;
  today = 20260817;
  month = 202608;
  user_id = 7;
  channel = "wechat";
  amount = amount;
}

abbrev payments : List Request
payments = payment 4000 ∷ payment 3000 ∷ payment 3000 ∷ []

accepted-daily_limit_example :
    (accepted rule 7 "wechat" 20260817 payments [] ≡ 0)
    ⊎ (accepted rule 7 "wechat" 20260817 payments [] + spent (daily_key 7 "wechat" 20260817) []
        ≤ 9000)
accepted-daily_limit_example = accepted-daily_limit rule 9000 7 "wechat" 20260817 payments [] refl
