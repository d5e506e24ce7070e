-- ===== src/Payment/Callback/Closing.antt =====
-- Closing an order through payment_channel_template.py, and what the notice of a refund books.
use flower_web_infrastructur.Prelude.{
  ◌≡◌, refl, true, Option, none, some, [], ◌∷◌, String, arith, Option-cases, Bool-cases, ◌⊎◌, inl,
  inr,
}
use flower_web_infrastructur.Payment.Status.{
  PaymentStatus, PaymentEvent, PaymentError, Result, ok, raise, order_state_conflict,
}
use flower_web_infrastructur.Payment.Store.{
  FlowEvent, FlowRecord, FlowStore, LocalOrder, OrderStore, find_by_order_and_event,
}
use flower_web_infrastructur.Payment.Store.Flows.{append-again}
use flower_web_infrastructur.Payment.Channel.{
  Stores, Outcome, persist_flow, to_record, get_local_order,
}
use flower_web_infrastructur.Payment.Callback.{
  Callback, callback_event, verify_and_check, book_callback, handle_callback, callback_context,
  close_order, close_at_channel, is_success, is_closed, Traced, query_order,
}

verify_and_check-flows :
    (c : Callback) (s : Stores) → (verify_and_check c s).0.flow_store ≡ s.flow_store
unfolding verify_and_check
verify_and_check-flows c s = ground arith

book_refund :
    (uuid : String) (c : Callback) (flows : FlowStore) (f : FlowRecord) (o : Outcome (Unit {0}))
    → callback_event c ≡ ok PaymentEvent.refund_success
    → find_by_order_and_event c.out_trade_no FlowEvent.refund flows ≡ some f
    → o.0.flow_store ≡ some flows
    → (book_callback uuid c o).0.flow_store ≡ some flows
unfolding book_callback
book_refund uuid c flows f (s, raise e) event applied h = h
book_refund uuid c flows f (s, ok _) event applied h =
    let again =
      append-again uuid (to_record (callback_context c PaymentEvent.refund_success)) flows f
        applied in
    rw (event, book_callback) (unfold persist_flow in rw (h, persist_flow, again) refl)

-- The notice that a refund succeeded books nothing where the refund was applied for here: the flow
-- of the application keeps its place and its status, and no flow is added.
pub refund_notice_unbooked :
    (uuid : String) (c : Callback) (flows : FlowStore) (orders : Option OrderStore) (f : FlowRecord)
    → callback_event c ≡ ok PaymentEvent.refund_success
    → find_by_order_and_event c.out_trade_no FlowEvent.refund flows ≡ some f
    → let s : Stores = record { flow_store = some flows; order_store = orders } in
      (handle_callback uuid (ok (some c)) s).0.flow_store ≡ some flows
unfolding handle_callback
refund_notice_unbooked uuid c flows orders f event applied =
    let s : Stores = record { flow_store = some flows; order_store = orders } in
    book_refund uuid c flows f (verify_and_check c s) event applied (verify_and_check-flows c s)

-- `queried` shows an order that was paid, or `_do_query_order` raised.
abbrev pub Unsafe : Result (Option PaymentStatus) → Type 0
Unsafe (raise e) = Unit
Unsafe (ok none) = ⊥
Unsafe (ok (some status)) = is_success status ≡ true

-- The channel was asked at most to query, and the call ended in an error and left the stores alone.
abbrev pub IsRefused : Stores → Traced (Unit {0}) → Type 0
IsRefused s (calls, (s', r)) =
    ((calls ≡ []) ⊎ (calls ≡ query_order ∷ [])) × (s' ≡ s) × ((e : PaymentError) × (r ≡ raise e))

Unsafe-IsRefused :
    (uuid trade_no : String) (queried : Result (Option PaymentStatus)) (closing : Result (Unit {0}))
    (s : Stores)
    → Unsafe queried
    → IsRefused s (close_at_channel uuid trade_no queried closing s)
unfolding close_at_channel
Unsafe-IsRefused uuid trade_no (raise e) closing s u = (inr refl, refl, (e, refl))
Unsafe-IsRefused uuid trade_no (ok none) closing s u = absurd u
Unsafe-IsRefused uuid trade_no (ok (some status)) closing s u =
    rw u (inr refl, refl, (order_state_conflict, refl))

closed_of : (s : PaymentStatus) → is_closed s ≡ true → s ≡ PaymentStatus.closed
closed_of s h = ground arith

-- Where the channel cannot be asked or says that the order was paid, `close_order` never asks it to
-- close the order, writes no flow and raises, so that the stores stay as they are; only if the order is
-- CLOSED here already, it answers at once, without a call of the channel.
pub close_order-guarded :
    (uuid trade_no : String) (queried : Result (Option PaymentStatus)) (closing : Result (Unit {0}))
    (s : Stores)
    → Unsafe queried
    → (((local : LocalOrder) × (get_local_order trade_no s ≡ some local)
          × (local.status ≡ PaymentStatus.closed)
          × (close_order uuid trade_no queried closing s ≡ ([], (s, ok tt))))
        ⊎ IsRefused s (close_order uuid trade_no queried closing s))
unfolding close_order
close_order-guarded uuid trade_no queried closing s unsafe =
    let fails = Unsafe-IsRefused uuid trade_no queried closing s unsafe in
    elim (Option-cases (get_local_order trade_no s)) [
      | inl missing ↦ inr (rw (missing, close_order) fails)
      | inr (local, found) ↦ elim (Bool-cases (is_closed local.status)) [
        | inl closed ↦
            inl (local, found, closed_of local.status closed, rw (found, close_order, closed) refl)
        | inr open' ↦ elim (Bool-cases (is_success local.status)) [
          | inl paid ↦
              inr (
                rw (found, close_order, open', paid) (inl refl, refl, (order_state_conflict, refl)))
          | inr unpaid ↦ inr (rw (found, close_order, open', unpaid) fails)
        ]
      ]
    ]
