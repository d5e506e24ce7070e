-- ===== src/Payment/Reconcile/Handling.antt =====
-- The settlement of differences in capabilities/payment/reconciliation/reconciliation_service.py, from
-- `_handle_differences` to `_find_original`. The queries of the channel are parameters; `meanwhile` is what
-- other tasks do to the flow store while the query for the i-th difference is awaited, `draw` and `clock`
-- are the number and the time that are drawn for it.
use flower_web_infrastructur.Prelude.{
  ℕ, suc, Bool, true, false, Option, none, some, List, [], ◌∷◌, String, if◌then◌else◌, ◌==◌,
  string_eq,
}
use flower_web_infrastructur.Payment.Status.{PaymentStatus}
use flower_web_infrastructur.Payment.Store.{
  FlowStatus, FlowEvent, FlowRecord, FlowStore, append, find_by_order_and_event,
}
use flower_web_infrastructur.Payment.Reversal.{Reversal, recorded, value_error, reversal_flow}
use flower_web_infrastructur.Payment.Reconcile.{
  DifferenceType, ReconciliationDifference, Action, query_failed, unpaid_not_booked,
  paid_and_booked, paid_await_next, unpaid_and_reversed, refund_by_hand, refund_query_failed,
  refund_not_confirmed, refund_booked,
}

pub data RefundStatus : Type 0 where
  success closed processing abnormal : RefundStatus

-- What a query comes to: an exception, None, or something with a status.
pub data Answer (S : Type 0) : Type 0 where
  raised : Answer S
  nothing : Answer S
  answered : S → Answer S

pub record Tally : Type 0 where
  pub auto_booked : ℕ
  pub auto_reversed : ℕ

pub data Failure : Type 0 where
  raised_value_error raised_assertion_error : Failure

-- How the treatment of a difference ends: with the difference as it is left, or by an exception.
pub data Treated : Type 0 where
  treated : ReconciliationDifference → Tally → Treated
  failed : Failure → Treated

-- How the treatment of all of them ends.
pub data AllTreated : Type 0 where
  all_treated : List ReconciliationDifference → Tally → AllTreated
  all_failed : Failure → AllTreated

abbrev pub is_paid : Answer PaymentStatus → Bool
is_paid (answered PaymentStatus.success) = true
is_paid _ = false

abbrev pub is_refunded : Answer RefundStatus → Bool
is_refunded (answered RefundStatus.success) = true
is_refunded _ = false

abbrev pub is_raised : {S : Type 0} → Answer S → Bool
is_raised raised = true
is_raised _ = false

abbrev pub booked_flow : String → FlowEvent → ℕ → String → FlowRecord
booked_flow trade_no event amount refund_no = record {
  out_trade_no = trade_no;
  event_type = event;
  amount = amount;
  status = FlowStatus.booked;
  flow_id = "";
  out_refund_no = refund_no;
  original_flow_id = "";
  is_reversal = false;
  reversed_at = none;
}

abbrev pub left : Action → ReconciliationDifference → ReconciliationDifference
left a d = record d { action = a }

abbrev pub settled : Action → ReconciliationDifference → ReconciliationDifference
settled a d = record d { action = a; handled = true }

abbrev pub reversed_as :
    ReconciliationDifference → Tally → FlowStore × Reversal → FlowStore × Treated
reversed_as d t (s, recorded f) =
    (s, treated (settled unpaid_and_reversed d) (record t { auto_reversed = suc t.auto_reversed }))
reversed_as d t (s, value_error) = (s, failed raised_value_error)

abbrev pub with_differences :
    ReconciliationDifference → FlowStore × AllTreated → FlowStore × AllTreated
with_differences d (s, all_treated ds t) = (s, all_treated (d ∷ ds) t)
with_differences d (s, all_failed e) = (s, all_failed e)

module _ (query_order : Option (ℕ → String → Answer PaymentStatus))
    (query_refund : Option (ℕ → String → Answer RefundStatus))
    (meanwhile : ℕ → FlowStore → FlowStore) (draw : ℕ → String) (clock : ℕ → ℕ) where
  unfoldable pub auto_book : ℕ → ReconciliationDifference → Tally → FlowStore → FlowStore × Treated
  auto_book i d t s = elim query_order [
    | none ↦ (s, treated d t)
    | some query ↦
        let s' = meanwhile i s in
        if is_raised (query i d.out_trade_no)
        then (s', treated (left query_failed d) t)
        else if is_paid (query i d.out_trade_no)
        then elim d.channel_amount [
          | none ↦ (s', failed raised_assertion_error)
          | some amount ↦ (
            (append (draw i) (booked_flow d.out_trade_no d.event_type amount "") s').0,
            treated (settled paid_and_booked d) (record t { auto_booked = suc t.auto_booked }),
          )
        ]
        else (s', treated (left unpaid_not_booked d) t)
  ]

  unfoldable pub auto_reverse :
      ℕ → ReconciliationDifference → Tally → FlowStore → FlowStore × Treated
  auto_reverse i d t s = elim query_order [
    | none ↦ (s, treated d t)
    | some query ↦
        let s' = meanwhile i s in
        if is_raised (query i d.out_trade_no)
        then (s', treated (left query_failed d) t)
        else if is_paid (query i d.out_trade_no)
        then (s', treated (left paid_await_next d) t)
        else elim (find_by_order_and_event d.out_trade_no d.event_type s') [
          | none ↦ (s', failed raised_value_error)
          | some original ↦ reversed_as d t (reversal_flow (draw i) (clock i) original s')
        ]
  ]

  unfoldable pub auto_refund_book :
      ℕ → ReconciliationDifference → Tally → FlowStore → FlowStore × Treated
  auto_refund_book i d t s = elim query_refund [
    | none ↦ (s, treated (left refund_by_hand d) t)
    | some query ↦
        if d.out_refund_no == ""
        then (s, treated (left refund_by_hand d) t)
        else let s' = meanwhile i s in
          if is_raised (query i d.out_refund_no)
          then (s', treated (left refund_query_failed d) t)
          else if is_refunded (query i d.out_refund_no)
          then elim d.local_amount [
            | none ↦ (s', failed raised_assertion_error)
            | some amount ↦ (
              (append (draw i) (booked_flow d.out_trade_no FlowEvent.refund amount d.out_refund_no)
                  s').0,
              treated (settled refund_booked d) (record t { auto_booked = suc t.auto_booked }),
            )
          ]
          else (s', treated (left refund_not_confirmed d) t)
  ]

  abbrev pub treat :
      ℕ → ReconciliationDifference → DifferenceType → Tally → FlowStore → FlowStore × Treated
  treat i d DifferenceType.amount_mismatch t s = (s, treated d t)
  treat i d DifferenceType.status_mismatch t s = (s, treated d t)
  treat i d DifferenceType.channel_only t s = auto_book i d t s
  treat i d DifferenceType.local_only t s = auto_reverse i d t s
  treat i d DifferenceType.refund_mismatch t s = auto_refund_book i d t s

  -- An exception ends the loop.
  abbrev pub handle_from :
      ℕ → List ReconciliationDifference → Tally → FlowStore → FlowStore × AllTreated
  handle_from i [] t s = (s, all_treated [] t)
  handle_from i (d ∷ ds) t s =
      let (s', end) = treat i d d.diff_type t s in
      elim end [
        | treated d' t' ↦ with_differences d' (handle_from (suc i) ds t' s')
        | failed e ↦ (s', all_failed e)
      ]

  unfoldable pub handle_differences :
      List ReconciliationDifference → FlowStore → FlowStore × AllTreated
  unfolding auto_book auto_reverse auto_refund_book
  handle_differences ds s = handle_from 0 ds (record { auto_booked = 0; auto_reversed = 0 }) s
