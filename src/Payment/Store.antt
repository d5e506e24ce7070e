-- ===== src/Payment/Store.antt =====
-- capabilities/payment/in_memory_payment_flow_store.py with payment_flow_record.py and
-- payment_flow_status.py, and in_memory_payment_order_store.py with the PaymentLocalOrder of
-- payment_order_store_interface.py. Amounts are whole cents and times whole seconds. The fields
-- that no code reads (currency, channel, transaction_id, raw, extra and the other times) are left
-- out. Both maps of a flow store hold the same record objects, so the second map is kept as flow
-- numbers: two records under one given number, of which the source keeps the first under its order and
-- event, are not told apart here. The lock makes each method atomic.
pub mod Flows
use flower_web_infrastructur.Prelude.{
  ℕ, ◌+◌, ◌≡◌, ◌↔◌, Bool, true, false, not, ◌&&◌, Option, none, some, List, [], ◌∷◌, String, arith,
  if◌then◌else◌, Eq, nat_beq, ltb, take, ◌==◌, string_eq, pair_eq, keep,
}
use flower_web_infrastructur.Prelude.Dict
use flower_web_infrastructur.Prelude.Dict.{Dict}
use flower_web_infrastructur.Payment.Status.{PaymentStatus, notpay}

pub data FlowStatus : Type 0 where
  booked pending reversed closed : FlowStatus

pub data FlowEvent : Type 0 where
  pay refund close reversal : FlowEvent

abbrev pub event_code : FlowEvent → ℕ
event_code pay = 0
event_code refund = 1
event_code close = 2
event_code reversal = 3

abbrev pub event_beq : FlowEvent → FlowEvent → Bool
event_beq a b = nat_beq (event_code a) (event_code b)

pub event_beq_iff : (a b : FlowEvent) → (event_beq a b ≡ true) ↔ (a ≡ b)
event_beq_iff a b = ground arith

instance abbrev pub event_eq : Eq FlowEvent
event_eq = record { beq = event_beq; beq_iff = event_beq_iff }

pub record FlowRecord : Type 0 where
  pub out_trade_no : String
  pub event_type : FlowEvent
  pub amount : ℕ
  pub status : FlowStatus
  pub flow_id : String
  pub out_refund_no : String
  pub original_flow_id : String
  pub is_reversal : Bool
  pub reversed_at : Option ℕ

pub record FlowStore : Type 0 where
  pub flows : Dict String FlowRecord
  pub by_key : Dict (String × FlowEvent) String

abbrev pub empty_flows : FlowStore
empty_flows = record { flows = []; by_key = [] }

unfoldable pub find_by_flow_id : String → FlowStore → Option FlowRecord
find_by_flow_id id s = Dict.get id s.flows

unfoldable pub find_by_order_and_event : String → FlowEvent → FlowStore → Option FlowRecord
find_by_order_and_event order_no event s = elim (Dict.get (order_no, event) s.by_key) [
  | none ↦ none
  | some id ↦ Dict.get id s.flows
]

-- The flow that a reversal turns back, if it is there, is marked.
unfoldable pub mark_original : FlowRecord → Dict String FlowRecord → Dict String FlowRecord
mark_original r flows =
    if r.is_reversal && not (r.original_flow_id == "")
    then elim (Dict.get r.original_flow_id flows) [
      | none ↦ flows
      | some original ↦
          Dict.put r.original_flow_id
            (record original { status = reversed; reversed_at = r.reversed_at }) flows
    ]
    else flows

-- `uuid` is the number that is drawn for a record that has none. The result is the record that the
-- store holds under the order and the event.
unfoldable pub append : String → FlowRecord → FlowStore → FlowStore × FlowRecord
append uuid r s = elim (find_by_order_and_event r.out_trade_no r.event_type s) [
  | some existing ↦ (s, existing)
  | none ↦
      let id = if r.flow_id == "" then uuid else r.flow_id in
      let r' = record r { flow_id = id } in
      (
        record {
          flows = Dict.put id r' (mark_original r s.flows);
          by_key = Dict.put (r.out_trade_no, r.event_type) id s.by_key;
        },
        r',
      )
]

abbrev pub first_reversal : String → Dict String FlowRecord → Option FlowRecord
first_reversal id [] = none
first_reversal id ((k, f) ∷ flows) =
    if f.is_reversal && f.original_flow_id == id then some f else first_reversal id flows

unfoldable pub find_reversal : String → FlowStore → Option FlowRecord
find_reversal original s = first_reversal original s.flows

abbrev pub is_refund_of : String → FlowRecord → Bool
is_refund_of order_no f = f.out_trade_no == order_no && f.event_type == refund && not f.is_reversal

abbrev pub sum_refunds : String → Dict String FlowRecord → ℕ
sum_refunds order_no [] = 0
sum_refunds order_no ((k, f) ∷ flows) =
    (if is_refund_of order_no f then f.amount else 0) + sum_refunds order_no flows

unfoldable pub sum_refunded : String → FlowStore → ℕ
sum_refunded order_no s = sum_refunds order_no s.flows

pub record LocalOrder : Type 0 where
  pub out_trade_no : String
  pub amount : ℕ
  pub status : PaymentStatus
  pub attach : String
  pub expire_at : Option ℕ

abbrev pub OrderStore : Type 0
OrderStore = Dict String LocalOrder

unfoldable pub find_by_out_trade_no : String → OrderStore → Option LocalOrder
find_by_out_trade_no order_no s = Dict.get order_no s

unfoldable pub save : LocalOrder → OrderStore → OrderStore
save o s = Dict.put o.out_trade_no o s

unfoldable pub update_status : String → PaymentStatus → OrderStore → OrderStore × Bool
update_status order_no status s = elim (Dict.get order_no s) [
  | none ↦ (s, false)
  | some o ↦ (Dict.put order_no (record o { status = status }) s, true)
]

abbrev pub is_notpay : PaymentStatus → Bool
is_notpay notpay = true
is_notpay _ = false

abbrev pub expired_before : ℕ → Option ℕ → Bool
expired_before t none = false
expired_before t (some expire_at) = ltb expire_at t

abbrev pub is_expired : ℕ → String × LocalOrder → Bool
is_expired t (order_no, o) = is_notpay o.status && expired_before t o.expire_at

abbrev pub orders_of : OrderStore → List LocalOrder
orders_of [] = []
orders_of ((order_no, o) ∷ s) = o ∷ orders_of s

unfoldable pub find_expired : ℕ → ℕ → OrderStore → List LocalOrder
find_expired before limit s = take limit (orders_of (keep (is_expired before) s))
