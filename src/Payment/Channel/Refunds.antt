-- ===== src/Payment/Channel/Refunds.antt =====
-- Refunds through payment_channel_template.py over its in-memory stores.
use flower_web_infrastructur.Prelude.{
  ◌+◌, ◌≤◌, ◌<◌, ◌≡◌, ◌≢◌, refl, ◌∙◌, sym, true, false, none, some, List, [], ◌∷◌, String, arith,
  if◌then◌else◌, ltb, ◌==◌, string_eq, pair_eq, Bool-cases, ==_ne, All, ◌⊎◌, inl, inr,
}
use flower_web_infrastructur.Prelude.Dict.{get-put_self}
use flower_web_infrastructur.Payment.Status.{Result, ok, raise, common_conflict}
use flower_web_infrastructur.Payment.Store.{
  FlowEvent, FlowRecord, FlowStore, pending, event_eq, LocalOrder, OrderStore,
  find_by_order_and_event, sum_refunded, append, find_by_flow_id, find_by_out_trade_no,
}
use flower_web_infrastructur.Payment.Store.Flows.{
  append-again, append-sum_refunded, append-new, filed_id,
}
use flower_web_infrastructur.Payment.Channel.{
  Stores, RefundRequest, get_local_order, check_refund_total, check_refund_idempotency, refund,
  refund_context, to_record, supports, persist_flow,
}

-- Both stores are there.
abbrev pub stores_of : FlowStore → OrderStore → Stores
stores_of flows orders = record { flow_store = some flows; order_store = some orders }

module _ {A : Type 0} (capabilities : List String)
    (can_refund : supports capabilities "refund" ≡ true) where
  -- What the checks let through, the channel refunds and the store is asked to book.
  refund-accepted :
      (uuid : String) (r : RefundRequest) (a : A) (s : Stores)
      → check_refund_idempotency r s ≡ ok tt
      → refund capabilities uuid r (ok a) s ≡ (persist_flow uuid (refund_context r) s, ok a)
  unfolding refund
  refund-accepted uuid r a s h = rw (can_refund, h, refund) refl

-- For an order that is known, and a refund number under which no refund flow is found, only the
-- total is checked.
check-total :
    (r : RefundRequest) (flows : FlowStore) (orders : OrderStore) (local : LocalOrder)
    → r.out_trade_no ≢ ""
    → find_by_out_trade_no r.out_trade_no orders ≡ some local
    → find_by_order_and_event r.out_refund_no FlowEvent.refund flows ≡ none
    → check_refund_idempotency r (stores_of flows orders) ≡ (
        if ltb local.amount (sum_refunded r.out_trade_no flows + r.refund_amount)
        then raise common_conflict
        else ok tt)
unfolding check_refund_idempotency get_local_order
check-total r flows orders local named known new =
    let n : (r.out_trade_no == "") ≡ false = ==_ne r.out_trade_no "" named in
    rw (new, check_refund_idempotency, n, check_refund_total, known) refl

-- The flow of a refund that was applied for and is not confirmed.
abbrev pub applied_for : String → RefundRequest → FlowRecord
applied_for uuid r = record {
  out_trade_no = r.out_trade_no;
  event_type = FlowEvent.refund;
  amount = r.refund_amount;
  status = pending;
  flow_id = uuid;
  out_refund_no = r.out_refund_no;
  original_flow_id = "";
  is_reversal = false;
  reversed_at = none;
}

-- A record without a number is found under its order and event, with the number drawn for it.
append-found :
    (uuid : String) (r : FlowRecord) (flows : FlowStore)
    → find_by_order_and_event r.out_trade_no r.event_type flows ≡ none
    → find_by_order_and_event r.out_trade_no r.event_type (append uuid r flows).0
      ≡ some (record r { flow_id = filed_id uuid r })
unfolding find_by_order_and_event
append-found uuid r flows new = rw (append-new uuid r flows new) (
    rw
      (
        get-put_self (r.out_trade_no, r.event_type) (filed_id uuid r) flows.by_key,
        find_by_order_and_event,
      )
      (get-put_self (filed_id uuid r) (record r { flow_id = filed_id uuid r }) _))

-- A refund of the order whose own number no refund flow stands under, and that fits beside what the
-- store has booked.
abbrev pub Fits : String → FlowStore → LocalOrder → String × RefundRequest → Type 0
Fits trade_no flows local (uuid, r) =
    (r.out_trade_no ≡ trade_no)
    × (find_by_order_and_event r.out_refund_no FlowEvent.refund flows ≡ none)
    × (sum_refunded trade_no flows + r.refund_amount ≤ local.amount)

module _ {A : Type 0} (capabilities : List String)
    (can_refund : supports capabilities "refund" ≡ true) where
  -- The first refund of a known order is judged by its amount: within the order's amount it is
  -- passed to the channel and filed as a refund flow that is PENDING, with its amount and its own
  -- number, under the order, which adds it to what the order has refunded; beyond it is a conflict,
  -- and nothing changes. The number drawn for the flow must not be in use,
  -- and no refund flow may stand under the refund's own number.
  pub refund-first :
      (uuid : String) (r : RefundRequest) (a : A) (flows : FlowStore) (orders : OrderStore)
      (local : LocalOrder)
      → r.out_trade_no ≢ ""
      → find_by_out_trade_no r.out_trade_no orders ≡ some local
      → find_by_order_and_event r.out_refund_no FlowEvent.refund flows ≡ none
      → find_by_order_and_event r.out_trade_no FlowEvent.refund flows ≡ none
      → find_by_flow_id uuid flows ≡ none
      → ((sum_refunded r.out_trade_no flows + r.refund_amount ≤ local.amount)
          × ((flows' : FlowStore) × (refund capabilities uuid r (ok a) (stores_of flows orders)
                ≡ (stores_of flows' orders, ok a))
              × (find_by_order_and_event r.out_trade_no FlowEvent.refund flows'
                  ≡ some (applied_for uuid r))
              × (sum_refunded r.out_trade_no flows'
                  ≡ sum_refunded r.out_trade_no flows + r.refund_amount)))
        ⊎ ((local.amount < sum_refunded r.out_trade_no flows + r.refund_amount)
            × (refund capabilities uuid r (ok a) (stores_of flows orders)
                ≡ (stores_of flows orders, raise common_conflict)))
  refund-first uuid r a flows orders local named known new first fresh =
      let s : Stores = stores_of flows orders in
      let check = check-total r flows orders local named known new in
      elim (Bool-cases (ltb local.amount (sum_refunded r.out_trade_no flows + r.refund_amount))) [
        | inl over ↦
            inr ((ground arith), (unfold refund in rw (can_refund, check, over, refund) refl))
        | inr within ↦
            let flows' : FlowStore = (append uuid (to_record (refund_context r)) flows).0 in
            let passed : check_refund_idempotency r s ≡ ok tt = check ∙ rw within refl in
            inl (
              (ground arith),
              (
                flows',
                refund-accepted capabilities can_refund uuid r a s passed
                    ∙ (unfold persist_flow in refl),
                append-found uuid (to_record (refund_context r)) flows first,
                append-sum_refunded uuid (to_record (refund_context r)) flows refl refl first fresh,
              ),
            )
      ]

  -- Refunds one after the other, each with its drawn number.
  pub refunds : List (String × RefundRequest) → A → Stores → Stores
  refunds [] a s = s
  refunds ((uuid, r) ∷ rs) a s = refunds rs a (refund capabilities uuid r (ok a) s).0

  pub answers : List (String × RefundRequest) → A → Stores → List (Result A)
  answers [] a s = []
  answers ((uuid, r) ∷ rs) a s =
      (refund capabilities uuid r (ok a) s).1 ∷ answers rs a (refund capabilities uuid r (ok a) s).0

  module _ (trade_no : String) (flows : FlowStore) (orders : OrderStore) (local : LocalOrder) where
    refund_again :
        (uuid : String) (r : RefundRequest) (a : A) (f : FlowRecord)
        → trade_no ≢ ""
        → find_by_out_trade_no trade_no orders ≡ some local
        → find_by_order_and_event trade_no FlowEvent.refund flows ≡ some f
        → Fits trade_no flows local (uuid, r)
        → refund capabilities uuid r (ok a) (stores_of flows orders)
          ≡ (stores_of flows orders, ok a)
    refund_again uuid r a f named known booked fits =
        let s : Stores = stores_of flows orders in
        let named' : r.out_trade_no ≢ "" = λ e. named (sym fits.0 ∙ e) in
        let known' : find_by_out_trade_no r.out_trade_no orders ≡ some local = rw fits.0 known in
        let within : ltb local.amount (sum_refunded r.out_trade_no flows + r.refund_amount)
            ≡ false =
          rw fits.0 (let h = fits.2 in ground arith) in
        let passed : check_refund_idempotency r s ≡ ok tt =
          check-total r flows orders local named' known' fits.1 ∙ rw within refl in
        let again : append uuid (to_record (refund_context r)) flows ≡ (flows, f) =
          append-again uuid (to_record (refund_context r)) flows f (rw fits.0 booked) in
        let kept : persist_flow uuid (refund_context r) s ≡ s =
          unfold persist_flow in rw again refl in
        refund-accepted capabilities can_refund uuid r a s passed ∙ rw kept refl

    -- Once an order has one refund flow, later refunds are not booked under it: any number of them,
    -- each of which fits beside the booked amount, goes through to the channel, and the stores stay
    -- as they are, so that the refunds together may pass the order's amount.
    pub refunds_unbounded :
        (rs : List (String × RefundRequest)) (a : A) (f : FlowRecord)
        → trade_no ≢ ""
        → find_by_out_trade_no trade_no orders ≡ some local
        → find_by_order_and_event trade_no FlowEvent.refund flows ≡ some f
        → All (Fits trade_no flows local) rs
        → (refunds rs a (stores_of flows orders) ≡ stores_of flows orders)
          × All (λ answer. answer ≡ ok a) (answers rs a (stores_of flows orders))
    unfolding refunds answers
    refunds_unbounded [] a f named known booked fits = (refl, tt)
    refunds_unbounded ((uuid, r) ∷ rs) a f named known booked (fit, fits) =
        rw (refund_again uuid r a f named known booked fit)
          (let (p, q) = refunds_unbounded rs a f named known booked fits in (p, (refl, q)))
