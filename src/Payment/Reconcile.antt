-- ===== src/Payment/Reconcile.antt =====
-- capabilities/payment/reconciliation: reconciliation_difference.py, bill_record.py and the comparison of
-- bills with flows in reconciliation_service.py. Amounts are whole cents; the fields that no code reads
-- (the bill's date and raw line, the channel's transaction number) are left out, and the texts of the
-- field action are constructors.
pub mod Handling
pub mod Audit
pub mod Alignment
pub mod Confirmed
pub mod Faults
use flower_web_infrastructur.Prelude.{
  ℕ, ◌+◌, ◌↔◌, ◌≡◌, Bool, true, false, not, ◌||◌, Option, none, some, List, [], ◌∷◌, ◌++◌, String,
  arith, if◌then◌else◌, Eq, nat_beq, ◌==◌, string_eq, nat_eq, pair_eq,
}
use flower_web_infrastructur.Prelude.Dict
use flower_web_infrastructur.Prelude.Dict.{Dict}
use flower_web_infrastructur.Payment.Store.{FlowStatus, FlowEvent, FlowRecord, event_eq}

pub data DifferenceType : Type 0 where
  local_only channel_only amount_mismatch status_mismatch refund_mismatch : DifferenceType

pub data DifferenceSeverity : Type 0 where
  medium high critical : DifferenceSeverity

abbrev pub difference_severity : DifferenceType → DifferenceSeverity
difference_severity local_only = medium
difference_severity channel_only = high
difference_severity amount_mismatch = critical
difference_severity status_mismatch = high
difference_severity refund_mismatch = high

-- MANUAL_ONLY_TYPES
abbrev pub is_manual_only : DifferenceType → Bool
is_manual_only amount_mismatch = true
is_manual_only status_mismatch = true
is_manual_only _ = false

abbrev pub type_code : DifferenceType → ℕ
type_code local_only = 0
type_code channel_only = 1
type_code amount_mismatch = 2
type_code status_mismatch = 3
type_code refund_mismatch = 4

abbrev pub type_beq : DifferenceType → DifferenceType → Bool
type_beq a b = nat_beq (type_code a) (type_code b)

pub type_beq_iff : (a b : DifferenceType) → (type_beq a b ≡ true) ↔ (a ≡ b)
type_beq_iff a b = ground arith

instance abbrev pub type_eq : Eq DifferenceType
type_eq = record { beq = type_beq; beq_iff = type_beq_iff }

-- The texts of `action`: as a difference starts, and as it is dealt with.
pub data Action : Type 0 where
  query_then_book query_then_reverse freeze check_by_hand query_refund_then_book : Action
  query_failed unpaid_not_booked paid_and_booked paid_await_next unpaid_and_reversed : Action
  refund_by_hand refund_query_failed refund_not_confirmed refund_booked : Action

pub record BillRecord : Type 0 where
  pub out_trade_no : String
  pub event_type : FlowEvent
  pub amount : ℕ
  pub status : String
  pub out_refund_no : String

pub record ReconciliationDifference : Type 0 where
  pub diff_type : DifferenceType
  pub out_trade_no : String
  pub event_type : FlowEvent
  pub local_amount : Option ℕ
  pub channel_amount : Option ℕ
  pub local_status : String
  pub channel_status : String
  pub out_refund_no : String
  pub severity : DifferenceSeverity
  pub action : Action
  pub handled : Bool

-- `FlowStatus.value`
abbrev pub status_text : FlowStatus → String
status_text FlowStatus.booked = "BOOKED"
status_text FlowStatus.pending = "PENDING"
status_text FlowStatus.reversed = "REVERSED"
status_text FlowStatus.closed = "CLOSED"

abbrev pub Key : Type 0
Key = String × FlowEvent

abbrev pub flow_key : FlowRecord → Key
flow_key f = (f.out_trade_no, f.event_type)

abbrev pub bill_key : BillRecord → Key
bill_key b = (b.out_trade_no, b.event_type)

abbrev pub difference_key : ReconciliationDifference → Key
difference_key d = (d.out_trade_no, d.event_type)

abbrev pub only_in_bill : BillRecord → ReconciliationDifference
only_in_bill b = record {
  diff_type = channel_only;
  out_trade_no = b.out_trade_no;
  event_type = b.event_type;
  local_amount = none;
  channel_amount = some b.amount;
  local_status = "";
  channel_status = b.status;
  out_refund_no = b.out_refund_no;
  severity = difference_severity channel_only;
  action = query_then_book;
  handled = false;
}

abbrev pub only_in_flows : FlowRecord → ReconciliationDifference
only_in_flows f = record {
  diff_type = local_only;
  out_trade_no = f.out_trade_no;
  event_type = f.event_type;
  local_amount = some f.amount;
  channel_amount = none;
  local_status = status_text f.status;
  channel_status = "";
  out_refund_no = "";
  severity = difference_severity local_only;
  action = query_then_reverse;
  handled = false;
}

abbrev pub mismatch : DifferenceType → Action → FlowRecord → BillRecord → ReconciliationDifference
mismatch kind action f b = record {
  diff_type = kind;
  out_trade_no = f.out_trade_no;
  event_type = f.event_type;
  local_amount = some f.amount;
  channel_amount = some b.amount;
  local_status = status_text f.status;
  channel_status = b.status;
  out_refund_no = "";
  severity = difference_severity kind;
  action = action;
  handled = false;
}

abbrev pub refund_only_in_flows : FlowRecord → ReconciliationDifference
refund_only_in_flows f = record {
  diff_type = refund_mismatch;
  out_trade_no = f.out_trade_no;
  event_type = f.event_type;
  local_amount = some f.amount;
  channel_amount = none;
  local_status = status_text f.status;
  channel_status = "";
  out_refund_no = f.out_refund_no;
  severity = difference_severity refund_mismatch;
  action = query_refund_then_book;
  handled = false;
}

abbrev pub is_booked_or_pending : FlowStatus → Bool
is_booked_or_pending FlowStatus.booked = true
is_booked_or_pending FlowStatus.pending = true
is_booked_or_pending _ = false

abbrev pub status_matches : FlowRecord → BillRecord → Bool
status_matches f b =
    if b.status == "SUCCESS"
    then is_booked_or_pending f.status
    else status_text f.status == b.status

-- The dictionaries by key: of several records under a key, the last one is kept.
abbrev pub flows_by_key : List FlowRecord → Dict Key FlowRecord → Dict Key FlowRecord
flows_by_key [] d = d
flows_by_key (f ∷ fs) d = flows_by_key fs (Dict.put (flow_key f) f d)

abbrev pub bills_by_key : List BillRecord → Dict Key BillRecord → Dict Key BillRecord
bills_by_key [] d = d
bills_by_key (b ∷ bs) d = bills_by_key bs (Dict.put (bill_key b) b d)

-- A bill and the flow under its key: nothing where they agree.
abbrev pub compare_with : BillRecord → Option FlowRecord → List ReconciliationDifference
compare_with b none = only_in_bill b ∷ []
compare_with b (some f) =
    if not (nat_beq f.amount b.amount)
    then mismatch amount_mismatch freeze f b ∷ []
    else if not (status_matches f b)
    then mismatch status_mismatch check_by_hand f b ∷ []
    else []

abbrev pub unbilled : FlowRecord → ReconciliationDifference
unbilled f = if f.event_type == FlowEvent.refund then refund_only_in_flows f else only_in_flows f

-- The first loop: the differences of the bills, in their order.
abbrev pub bill_differences :
    Dict Key FlowRecord → Dict Key BillRecord → List ReconciliationDifference
bill_differences flows [] = []
bill_differences flows ((k, b) ∷ bills) =
    compare_with b (Dict.get k flows) ++ bill_differences flows bills

abbrev pub matches : List ReconciliationDifference → ℕ
matches [] = 1
matches (d ∷ ds) = 0

abbrev pub matched_count : Dict Key FlowRecord → Dict Key BillRecord → ℕ
matched_count flows [] = 0
matched_count flows ((k, b) ∷ bills) =
    matches (compare_with b (Dict.get k flows)) + matched_count flows bills

-- The second loop: what no bill has.
abbrev pub flow_differences :
    Dict Key BillRecord → Dict Key FlowRecord → List ReconciliationDifference
flow_differences bills [] = []
flow_differences bills ((k, f) ∷ flows) =
    (if Dict.contains k bills then [] else unbilled f ∷ []) ++ flow_differences bills flows

abbrev pub differences_of : List BillRecord → List FlowRecord → List ReconciliationDifference
differences_of bills flows =
    let bs = bills_by_key bills [] in
    let fs = flows_by_key flows [] in bill_differences fs bs ++ flow_differences bs fs
