-- ===== src/Payment/Channel.antt =====
-- capabilities/payment/payment_channel_template.py: the final entry points of PaymentChannelTemplate
-- and the callback fields of payment_callback.py that they read. What the channel itself does
-- (_do_prepay, _do_refund, _do_query_order, _do_close_order, _parse_callback) is abstract in the
-- source, and its outcome is an argument here. What was written before an exception stays written,
-- so every entry point returns the stores beside its result. Metrics and the audit trail are left
-- out: neither is read again, and a failing audit is swallowed.
pub mod Refunds
pub mod Prepay
use flower_web_infrastructur.Prelude.{
  ℕ, ◌+◌, Bool, true, false, not, ◌&&◌, ◌||◌, Option, none, some, List, [], ◌∷◌, String, ltb,
  nat_beq, any, if◌then◌else◌, ◌==◌, string_eq,
}
use flower_web_infrastructur.Payment.Status.{
  PaymentStatus, PaymentEvent, PaymentError, Result, ok, raise, sign_verify_failed, amount_mismatch,
  order_state_conflict, capability_unsupported, common_conflict, target,
}
use flower_web_infrastructur.Payment.Store.{
  FlowStatus, FlowEvent, FlowRecord, FlowStore, append, find_by_order_and_event, sum_refunded,
  LocalOrder, OrderStore, find_by_out_trade_no, save, update_status, booked, pending,
}

-- The stores that were injected, or `none`.
pub record Stores : Type 0 where
  pub flow_store : Option FlowStore
  pub order_store : Option OrderStore

abbrev pub Outcome {ℓ} : Type ℓ → Type ℓ
Outcome A = Stores × Result A

pub record FlowContext : Type 0 where
  pub out_trade_no : String
  pub amount : Option ℕ
  pub event_type : FlowEvent
  pub is_success : Bool
  pub out_refund_no : String
  pub is_reversal : Bool
  pub original_flow_id : String
  pub status_override : Option FlowStatus

abbrev pub amount_or_zero : Option ℕ → ℕ
amount_or_zero none = 0
amount_or_zero (some n) = n

abbrev pub flow_status : FlowContext → FlowStatus
flow_status c = elim c.status_override [
  | some status ↦ status
  | none ↦ if c.is_success then booked else pending
]

abbrev pub to_record : FlowContext → FlowRecord
to_record c = record {
  out_trade_no = c.out_trade_no;
  event_type = c.event_type;
  amount = amount_or_zero c.amount;
  status = flow_status c;
  flow_id = "";
  out_refund_no = c.out_refund_no;
  original_flow_id = c.original_flow_id;
  is_reversal = c.is_reversal;
  reversed_at = none;
}

-- `_persist_flow`; `uuid` is the number that the store draws.
unfoldable pub persist_flow : String → FlowContext → Stores → Stores
persist_flow uuid c s = elim s.flow_store [
  | none ↦ s
  | some flows ↦ record s { flow_store = some (append uuid (to_record c) flows).0 }
]

unfoldable pub get_local_order : String → Stores → Option LocalOrder
unfolding find_by_out_trade_no
get_local_order trade_no s = elim s.order_store [
  | none ↦ none
  | some orders ↦ find_by_out_trade_no trade_no orders
]

-- `local.status in (SUCCESS, USERPAYING, EXCEPTION)`
abbrev pub forbids_prepay : PaymentStatus → Bool
forbids_prepay PaymentStatus.success = true
forbids_prepay PaymentStatus.userpaying = true
forbids_prepay PaymentStatus.exception = true
forbids_prepay _ = false

unfoldable pub check_idempotency : String → Stores → Result (Unit {0})
unfolding get_local_order
check_idempotency trade_no s = elim (get_local_order trade_no s) [
  | none ↦ ok tt
  | some local ↦ if forbids_prepay local.status then raise order_state_conflict else ok tt
]

pub record PrepayRequest : Type 0 where
  pub out_trade_no : String
  pub total_amount : ℕ
  pub attach : Option String
  pub time_expire : Option ℕ

-- `x or ""`
abbrev pub or_empty : Option String → String
or_empty none = ""
or_empty (some x) = x

abbrev pub new_order : PrepayRequest → LocalOrder
new_order r = record {
  out_trade_no = r.out_trade_no;
  amount = r.total_amount;
  status = PaymentStatus.notpay;
  attach = or_empty r.attach;
  expire_at = r.time_expire;
}

abbrev pub save_order : LocalOrder → Stores → Stores
save_order o s = elim s.order_store [
  | none ↦ s
  | some orders ↦ record s { order_store = some (save o orders) }
]

-- `answer` is what `_do_prepay` returns or raises.
unfoldable pub prepay : {A : Type 0} → PrepayRequest → Result A → Stores → Outcome A
unfolding check_idempotency save
prepay r answer s = elim (check_idempotency r.out_trade_no s) [
  | raise e ↦ (s, raise e)
  | ok _ ↦ elim answer [
    | raise e ↦ (s, raise e)
    | ok result ↦ (save_order (new_order r) s, ok result)
  ]
]

unfoldable pub supports : List String → String → Bool
supports [] capability = true
supports (c ∷ cs) capability = any (λ x. x == capability) (c ∷ cs)

pub record RefundRequest : Type 0 where
  pub out_trade_no : String
  pub out_refund_no : String
  pub refund_amount : ℕ

-- The check that refunds stay within the order's amount, where both are known.
unfoldable pub check_refund_total : RefundRequest → FlowStore → Stores → Result (Unit {0})
unfolding get_local_order
check_refund_total r flows s =
    if r.out_trade_no == "" then ok tt else elim (get_local_order r.out_trade_no s) [
      | none ↦ ok tt
      | some local ↦
          if ltb local.amount (sum_refunded r.out_trade_no flows + r.refund_amount)
          then raise common_conflict
          else ok tt
    ]

unfoldable pub check_refund_idempotency : RefundRequest → Stores → Result (Unit {0})
unfolding check_refund_total
check_refund_idempotency r s = elim s.flow_store [
  | none ↦ ok tt
  | some flows ↦ elim (find_by_order_and_event r.out_refund_no FlowEvent.refund flows) [
    | some existing ↦ raise order_state_conflict
    | none ↦ check_refund_total r flows s
  ]
]

abbrev pub refund_context : RefundRequest → FlowContext
refund_context r = record {
  out_trade_no = r.out_trade_no;
  amount = some r.refund_amount;
  event_type = FlowEvent.refund;
  is_success = false;
  out_refund_no = r.out_refund_no;
  is_reversal = false;
  original_flow_id = "";
  status_override = some pending;
}

unfoldable pub refund :
    {A : Type 0} → List String → String → RefundRequest → Result A → Stores → Outcome A
unfolding supports check_refund_idempotency persist_flow
refund capabilities uuid r answer s =
    if not (supports capabilities "refund")
    then (s, raise capability_unsupported)
    else elim (check_refund_idempotency r s) [
      | raise e ↦ (s, raise e)
      | ok _ ↦ elim answer [
        | raise e ↦ (s, raise e)
        | ok result ↦ (persist_flow uuid (refund_context r) s, ok result)
      ]
    ]
