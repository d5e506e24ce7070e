-- ===== src/Examples/Reconciles.antt =====
-- A round of reconciliation at concrete inputs.
use flower_web_infrastructur.Prelude.{
  ℕ, ◌≡◌, refl, ◌==◌, Bool, true, false, none, some, [], ◌∷◌, String, length, keep, string_eq,
  pair_eq,
}
use flower_web_infrastructur.Prelude.Dict
use flower_web_infrastructur.Payment.Status.{PaymentStatus}
use flower_web_infrastructur.Payment.Store.{
  FlowStatus, FlowEvent, FlowRecord, FlowStore, empty_flows, event_eq, find_by_order_and_event,
  find_reversal,
}
use flower_web_infrastructur.Payment.Reconcile.{
  BillRecord, DifferenceType, type_eq, ReconciliationDifference, differences_of, difference_key,
  bill_key, flow_key, only_in_bill, refund_only_in_flows, refund_booked,
}
use flower_web_infrastructur.Payment.Reconcile.Handling.{
  Answer, answered, RefundStatus, raised_value_error, treated, settled, handle_differences,
  auto_refund_book,
}
use flower_web_infrastructur.Payment.Reconcile.Audit.{
  AuditStore, AuditRecord, ReconciliationResult, Round, finished, aborted, reconcile, is_reconciled,
  find_by_channel_and_date,
}
use flower_web_infrastructur.Payment.Reconcile.Audit
use flower_web_infrastructur.Payment.Reconcile.Alignment.{last_of, verdict, differences_of-verdict}
use flower_web_infrastructur.Payment.Reconcile.Confirmed.{handle_differences-unconfirmed}
use flower_web_infrastructur.Payment.Reconcile.Audit.Rounds.{reconcile-recorded}
use flower_web_infrastructur.Payment.Reconcile.Faults.{
  reconcile-reversal_flow, auto_refund_book-nothing,
}

abbrev bill : BillRecord
bill = record {
  out_trade_no = "A1";
  event_type = FlowEvent.pay;
  amount = 500;
  status = "SUCCESS";
  out_refund_no = "";
}

abbrev flow_of : String → FlowEvent → Bool → FlowRecord
flow_of id event is = record {
  out_trade_no = "B2";
  event_type = event;
  amount = 300;
  status = FlowStatus.booked;
  flow_id = id;
  out_refund_no = "R1";
  original_flow_id = "";
  is_reversal = is;
  reversed_at = none;
}

abbrev paid_flow : FlowRecord
paid_flow = flow_of "f1" FlowEvent.pay false

abbrev turned_back : FlowRecord
turned_back = flow_of "f2" FlowEvent.reversal true

abbrev given_back : FlowRecord
given_back = flow_of "f3" FlowEvent.refund false

abbrev with_flow : FlowRecord → FlowStore
with_flow f = record {
  flows = (f.flow_id, f) ∷ [];
  by_key = ((f.out_trade_no, f.event_type), f.flow_id) ∷ [];
}

differences_of-verdict_example :
    keep
      (λ (d : ReconciliationDifference). difference_key d == ("A1", FlowEvent.pay))
      (differences_of (bill ∷ []) (paid_flow ∷ []))
    ≡ verdict
        (last_of bill_key ("A1", FlowEvent.pay) (bill ∷ []))
        (last_of flow_key ("A1", FlowEvent.pay) (paid_flow ∷ []))
differences_of-verdict_example =
    differences_of-verdict ("A1", FlowEvent.pay) (bill ∷ []) (paid_flow ∷ [])

abbrev unpaid : ℕ → String → Answer PaymentStatus
unpaid i order_no = answered PaymentStatus.notpay

abbrev refunded : ℕ → String → Answer RefundStatus
refunded i refund_no = answered RefundStatus.success

abbrev undisturbed : ℕ → FlowStore → FlowStore
undisturbed i s = s

abbrev numbers : ℕ → String
numbers i = "n1"

abbrev clock : ℕ → ℕ
clock i = 7

handle_differences-unconfirmed_example :
    Dict.get
      ("A1", FlowEvent.pay)
      (handle_differences
        (some unpaid)
        (some refunded)
        undisturbed
        numbers
        clock
        (only_in_bill bill ∷ [])
        empty_flows).0.by_key
    ≡ Dict.get ("A1", FlowEvent.pay) empty_flows.by_key
handle_differences-unconfirmed_example =
    handle_differences-unconfirmed (some refunded) undisturbed numbers clock "A1" FlowEvent.pay
      (λ e. cc) (λ e. cc) (λ i s. refl) (some unpaid) (only_in_bill bill ∷ []) empty_flows
      (λ i. refl)

abbrev no_audits : AuditStore
no_audits = record { records = []; by_key = [] }

abbrev counted : ReconciliationResult
counted = record {
  channel = "wechat";
  biz_date = "2026-08-17";
  bill_count = 1;
  local_count = 0;
  matched = 0;
  difference_count = 1;
  difference_types = (DifferenceType.channel_only, 1) ∷ [];
  auto_booked = 0;
  auto_reversed = 0;
  manual_count = 0;
  audit_id = "u1";
  differences = only_in_bill bill ∷ [];
}

abbrev audited : AuditRecord
audited = record {
  audit_id = "u1";
  channel = "wechat";
  biz_date = "2026-08-17";
  total_count = 1;
  difference_count = 0;
  difference_types = (DifferenceType.channel_only, 1) ∷ [];
  differences = only_in_bill bill ∷ [];
}

abbrev one_audit : AuditStore
one_audit = record {
  records = ("u1", audited) ∷ [];
  by_key = (("wechat", "2026-08-17"), audited) ∷ [];
}

round_finished :
    reconcile false
      (some unpaid)
      (some refunded)
      undisturbed
      numbers
      clock
      "u1"
      (bill ∷ [])
      []
      "wechat"
      "2026-08-17"
      empty_flows
      no_audits
    ≡ (empty_flows, one_audit, finished counted)
unfolding reconcile Audit.append
round_finished = refl

reconcile-recorded_example :
    (is_reconciled "wechat" "2026-08-17" one_audit ≡ true)
    × ((audit : AuditRecord) × (find_by_channel_and_date "wechat" "2026-08-17" one_audit
          ≡ some audit)
        × (audit.differences ≡ only_in_bill bill ∷ [])
        × (◌≡◌ {A = ℕ} 1 (length (only_in_bill bill ∷ [])))
        × (audit.difference_count ≡ 0))
reconcile-recorded_example =
    reconcile-recorded false (some unpaid) (some refunded) undisturbed numbers clock "u1"
      (bill ∷ []) [] "wechat" "2026-08-17" empty_flows empty_flows no_audits one_audit counted refl
      round_finished

abbrev reversed_store : FlowStore
reversed_store = with_flow turned_back

turned_back_found :
    find_by_order_and_event "B2" FlowEvent.reversal reversed_store ≡ some turned_back
unfolding find_by_order_and_event
turned_back_found = refl

not_reversed : find_reversal "f2" reversed_store ≡ none
unfolding find_reversal
not_reversed = refl

reconcile-reversal_flow_example :
    reconcile true
      (some unpaid)
      (some refunded)
      undisturbed
      numbers
      clock
      "u1"
      []
      (turned_back ∷ [])
      "wechat"
      "2026-08-17"
      reversed_store
      no_audits
    ≡ (reversed_store, no_audits, aborted raised_value_error)
reconcile-reversal_flow_example =
    reconcile-reversal_flow unpaid refunded undisturbed numbers clock "u1" [] (turned_back ∷ [])
      "wechat" "2026-08-17" reversed_store no_audits turned_back [] refl refl turned_back_found
      not_reversed refl refl

given_back_found :
    find_by_order_and_event "B2" FlowEvent.refund (with_flow given_back) ≡ some given_back
unfolding find_by_order_and_event
given_back_found = refl

auto_refund_book-nothing_example :
    auto_refund_book
      (some unpaid)
      (some refunded)
      undisturbed
      numbers
      clock
      0
      (refund_only_in_flows given_back)
      (record { auto_booked = 0; auto_reversed = 0 })
      (with_flow given_back)
    ≡ (
      with_flow given_back,
      treated
          (settled refund_booked (refund_only_in_flows given_back))
          (record { auto_booked = 1; auto_reversed = 0 }),
    )
auto_refund_book-nothing_example =
    auto_refund_book-nothing unpaid refunded undisturbed numbers clock 0 given_back given_back
      (record { auto_booked = 0; auto_reversed = 0 }) (with_flow given_back) given_back_found refl
      refl refl
