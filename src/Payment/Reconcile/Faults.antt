-- ===== src/Payment/Reconcile/Faults.antt =====
-- Where the settlement of reconciliation_service.py does not do what it means to.
use flower_web_infrastructur.Prelude.{
  ℕ, suc, ◌≡◌, refl, ap, ◌∙◌, true, false, none, some, List, ◌∷◌, String, ◌==◌, string_eq,
}
use flower_web_infrastructur.Payment.Status.{PaymentStatus}
use flower_web_infrastructur.Payment.Store.{
  FlowEvent, FlowRecord, FlowStore, find_by_order_and_event, find_reversal,
}
use flower_web_infrastructur.Payment.Store.Flows.{append-again}
use flower_web_infrastructur.Payment.Reversal.{value_error, reversal_flow}
use flower_web_infrastructur.Payment.Reconcile.{
  ReconciliationDifference, BillRecord, only_in_flows, refund_only_in_flows, differences_of,
  refund_booked,
}
use flower_web_infrastructur.Payment.Reconcile.Handling.{
  Answer, RefundStatus, Tally, raised_value_error, Treated, treated, failed, AllTreated, all_failed,
  is_paid, is_refunded, is_raised, booked_flow, settled, auto_reverse, auto_refund_book,
  handle_differences, handle_from,
}
use flower_web_infrastructur.Payment.Reconcile.Audit.{
  AuditStore, aborted, reconcile, audited, opening,
}

module _ (query_order : ℕ → String → Answer PaymentStatus)
    (query_refund : ℕ → String → Answer RefundStatus) (meanwhile : ℕ → FlowStore → FlowStore)
    (draw : ℕ → String) (clock : ℕ → ℕ) where
  reversal_flow-again :
      (uuid : String) (now : ℕ) (f : FlowRecord) (s : FlowStore)
      → f.is_reversal ≡ true
      → find_reversal f.flow_id s ≡ none
      → reversal_flow uuid now f s ≡ (s, value_error)
  unfolding reversal_flow
  reversal_flow-again uuid now f s is absent = rw (absent, reversal_flow) (rw is refl)

  -- A round whose first difference is the flow of a reversal, which no bill has, ends by a ValueError where
  -- the channel does not say that the order is paid: the flow is found, it is itself a reversal, and the
  -- round is not audited.
  pub reconcile-reversal_flow :
      (uuid : String) (bills : List BillRecord) (flows : List FlowRecord)
      (channel biz_date : String) (s : FlowStore) (a : AuditStore) (f : FlowRecord)
      (ds : List ReconciliationDifference)
      → differences_of bills flows ≡ only_in_flows f ∷ ds
      → f.is_reversal ≡ true
      → find_by_order_and_event f.out_trade_no f.event_type (meanwhile 0 s) ≡ some f
      → find_reversal f.flow_id (meanwhile 0 s) ≡ none
      → is_raised (query_order 0 f.out_trade_no) ≡ false
      → is_paid (query_order 0 f.out_trade_no) ≡ false
      → reconcile true
          (some query_order)
          (some query_refund)
          meanwhile
          draw
          clock
          uuid
          bills
          flows
          channel
          biz_date
          s
          a
        ≡ (meanwhile 0 s, a, aborted raised_value_error)
  unfolding reconcile handle_differences auto_reverse
  reconcile-reversal_flow uuid bills flows channel biz_date s a f ds first is found absent answers
        unpaid =
      ap (audited uuid (opening bills flows channel biz_date) a) (
        ap
          (λ xs.
            handle_differences (some query_order) (some query_refund) meanwhile draw clock xs s)
          first
        ∙ stops (record { auto_booked = 0; auto_reversed = 0 }))
    where
      reverse :
          (t : Tally)
          → auto_reverse
              (some query_order)
              (some query_refund)
              meanwhile
              draw
              clock
              0
              (only_in_flows f)
              t
              s
            ≡ (meanwhile 0 s, failed raised_value_error)
      reverse t = rw answers (
          rw unpaid (
            rw (found, auto_reverse)
              (rw (reversal_flow-again (draw 0) (clock 0) f (meanwhile 0 s) is absent) refl)))

      ended : FlowStore → FlowStore × AllTreated
      ended u = (u, all_failed raised_value_error)

      stops :
          (t : Tally)
          → handle_from
              (some query_order)
              (some query_refund)
              meanwhile
              draw
              clock
              0
              (only_in_flows f ∷ ds)
              t
              s
            ≡ (meanwhile 0 s, all_failed raised_value_error)
      stops t =
          rw (reverse t, handle_from) (ap (λ (x : FlowStore × Treated). ended x.0) (reverse t))

  -- The flow of a refund that no bill has stands under the order and event that its booking would take: where
  -- the channel confirms the refund, nothing is booked, and yet the difference counts as booked and handled.
  pub auto_refund_book-nothing :
      (i : ℕ) (f g : FlowRecord) (t : Tally) (s : FlowStore)
      → find_by_order_and_event f.out_trade_no FlowEvent.refund (meanwhile i s) ≡ some g
      → (f.out_refund_no == "") ≡ false
      → is_raised (query_refund i f.out_refund_no) ≡ false
      → is_refunded (query_refund i f.out_refund_no) ≡ true
      → auto_refund_book
          (some query_order)
          (some query_refund)
          meanwhile
          draw
          clock
          i
          (refund_only_in_flows f)
          t
          s
        ≡ (
          meanwhile i s,
          treated
              (settled refund_booked (refund_only_in_flows f))
              (record t { auto_booked = suc t.auto_booked }),
        )
  unfolding auto_refund_book
  auto_refund_book-nothing i f g t s found named answers refunded = rw named (
      rw answers (
        rw refunded (
          rw
            (append-again (draw i)
              (booked_flow f.out_trade_no FlowEvent.refund f.amount f.out_refund_no) (meanwhile i s)
              g found)
            refl)))
