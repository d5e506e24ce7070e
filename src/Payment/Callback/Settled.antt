-- ===== src/Payment/Callback/Settled.antt =====
-- What callbacks and closings through payment_channel_template.py do to orders and flows.
use text.Mathlib.TextEquality.{eq_iff}
use flower_web_infrastructur.Prelude.{
  ◌≡◌, refl, ◌∙◌, sym, false, Option, none, some, List, [], ◌∷◌, String, arith, ◌==◌, nat_beq,
  nat_beq_iff, string_eq, Option-cases, Bool-cases, ◌⊎◌, inl, inr,
}
use flower_web_infrastructur.Prelude.Dict
use flower_web_infrastructur.Prelude.Dict.{get-put, get-put_self}
use flower_web_infrastructur.Payment.Status.{
  PaymentStatus, PaymentEvent, PaymentError, Result, ok, raise, target, ◌>>=◌, chain_returned,
}
use flower_web_infrastructur.Payment.Status.Paths.{Reaches, here, next, Paid, Reaches-Paid}
use flower_web_infrastructur.Payment.Store.{
  FlowStore, LocalOrder, OrderStore, find_by_out_trade_no, update_status,
}
use flower_web_infrastructur.Payment.Channel.{Stores, Outcome, FlowContext, persist_flow}
use flower_web_infrastructur.Payment.Callback.{
  Callback, callback_event, attach_differs, check_callback, verify_in, verify_and_check,
  book_callback, handle_callback, validate_callback, callback_context,
}

-- A callback fits an order, and leads it to a new status.
pub record Accepts (c : Callback) (local : LocalOrder) (status : PaymentStatus) : Type 0 where
  pub event : PaymentEvent
  pub known : callback_event c ≡ ok event
  pub paid_amount : c.amount ≡ local.amount
  pub same_attach : attach_differs c local ≡ false
  pub legal : target local.status event ≡ ok status

check_callback-Accepts :
    (c : Callback) (local : LocalOrder) (status : PaymentStatus)
    → check_callback c local ≡ ok status
    → Accepts c local status
unfolding check_callback
check_callback-Accepts c local status h = elim (Bool-cases (nat_beq c.amount local.amount)) [
  | inr differs ↦ absurd (ground arith)
  | inl same ↦ elim (Bool-cases (attach_differs c local)) [
    | inl differs ↦ absurd (ground arith)
    | inr fits ↦
        let h' : (callback_event c >>= target local.status) ≡ ok status =
          rw (same, fits, check_callback) at h in
        let (event, known, legal) = chain_returned (callback_event c) (target local.status) h' in
        record {
          event = event;
          known = known;
          paid_amount = (nat_beq_iff c.amount local.amount).0 same;
          same_attach = fits;
          legal = legal;
        }
  ]
]

update_status-of :
    (trade_no : String) (status : PaymentStatus) (orders : OrderStore) (local : LocalOrder)
    → find_by_out_trade_no trade_no orders ≡ some local
    → (update_status trade_no status orders).0
      ≡ Dict.put trade_no (record local { status = status }) orders
unfolding update_status find_by_out_trade_no
update_status-of trade_no status orders local h =
    let h' : Dict.get trade_no orders ≡ some local = h in rw (h', update_status) refl

-- What `verify_in` does where it does not raise: the callback's order moves on, and no other order
-- changes.
pub record Settles (c : Callback) (orders orders' : OrderStore) : Type 0 where
  pub local : LocalOrder
  pub status : PaymentStatus
  pub found : find_by_out_trade_no c.out_trade_no orders ≡ some local
  pub accepts : Accepts c local status
  pub written : orders' ≡ Dict.put c.out_trade_no (record local { status = status }) orders

verify_in-Settles :
    (c : Callback) (orders orders' : OrderStore)
    → verify_in c orders ≡ ok orders'
    → Settles c orders orders'
unfolding verify_in
verify_in-Settles c orders orders' h =
    elim (Option-cases (find_by_out_trade_no c.out_trade_no orders)) [
      | inl missing ↦ absurd (ground arith)
      | inr (local, found) ↦
          let step : PaymentStatus → Result OrderStore =
            λ status. ok (update_status c.out_trade_no status orders).0 in
          let h' : (check_callback c local >>= step) ≡ ok orders' = rw (found, verify_in) at h in
          let (status, checked, done) = chain_returned (check_callback c local) step h' in
          record {
            local = local;
            status = status;
            found = found;
            accepts = check_callback-Accepts c local status checked;
            written =
                let e : (update_status c.out_trade_no status orders).0 ≡ orders' = cc in
                sym e ∙ update_status-of c.out_trade_no status orders local found;
          }
    ]

-- A callback is either refused, and neither store changes; or it fits its order in amount and
-- attachment, its event is a legal one for the order's status, and the order alone takes the status
-- that this event leads to.
pub validate_callback_cases :
    (c : Callback) (flows : Option FlowStore) (orders : OrderStore)
    → let s : Stores = record { flow_store = flows; order_store = some orders } in
      ((e : PaymentError) × (validate_callback c s ≡ (s, raise e)))
      ⊎ ((orders' : OrderStore) × (validate_callback c s
            ≡ (record { flow_store = flows; order_store = some orders' }, ok c))
          × Settles c orders orders')
unfolding validate_callback verify_and_check
validate_callback_cases c flows orders = go (verify_in c orders) refl
  where
    s : Stores
    s = record { flow_store = flows; order_store = some orders }

    go :
        (r : Result OrderStore)
        → verify_in c orders ≡ r
        → ((e : PaymentError) × (validate_callback c s ≡ (s, raise e)))
          ⊎ ((orders' : OrderStore) × (validate_callback c s
                ≡ (record { flow_store = flows; order_store = some orders' }, ok c))
              × Settles c orders orders')
    go (raise e) h = inl (e, rw (h, validate_callback, verify_and_check) refl)
    go (ok orders') h = inr (
      orders',
      rw (h, validate_callback, verify_and_check) refl,
      verify_in-Settles c orders orders' h,
    )

-- Every order is still there, with its amount, in a status that its old one leads to.
abbrev pub Evolves : OrderStore → OrderStore → Type 0
Evolves orders orders' =
    (trade_no : String) (o : LocalOrder)
    → find_by_out_trade_no trade_no orders ≡ some o
    → (o' : LocalOrder) × (find_by_out_trade_no trade_no orders' ≡ some o')
      × (o'.amount ≡ o.amount)
      × Reaches o.status o'.status

Settles-Evolves :
    (c : Callback) (orders orders' : OrderStore) → Settles c orders orders' → Evolves orders orders'
unfolding find_by_out_trade_no
Settles-Evolves c orders orders' v trade_no o h = elim (Bool-cases (c.out_trade_no == trade_no)) [
  | inl this ↦
      let same : c.out_trade_no ≡ trade_no = (eq_iff c.out_trade_no trade_no).0 this in
      let e : v.local ≡ o =
        let f : Dict.get c.out_trade_no orders ≡ some v.local = v.found in
        let g : Dict.get c.out_trade_no orders ≡ some o = rw same h in cc in
      (
        record o { status = v.status },
        rw (v.written, get-put, this, e) refl,
        refl,
        rw (← e) (next v.accepts.event here v.accepts.legal),
      )
  | inr other ↦ (o, rw (v.written, get-put, other) h, refl, here)
]

pub persist_flow-orders :
    (uuid : String) (ctx : FlowContext) (s : Stores)
    → (persist_flow uuid ctx s).order_store ≡ s.order_store
unfolding persist_flow
persist_flow-orders uuid ctx s = ground arith

book_callback-orders :
    (uuid : String) (c : Callback) (o : Outcome (Unit {0}))
    → (book_callback uuid c o).0.order_store ≡ o.0.order_store
unfolding book_callback
book_callback-orders uuid c (s, raise e) = refl
book_callback-orders uuid c (s, ok _) = go (callback_event c) refl
  where
    go :
        (r : Result PaymentEvent)
        → callback_event c ≡ r
        → (book_callback uuid c (s, ok tt)).0.order_store ≡ s.order_store
    go (raise e) h = rw (h, book_callback) refl
    go (ok event) h = rw (h, book_callback) (persist_flow-orders uuid (callback_context c event) s)

Evolves-refl : (orders : OrderStore) → Evolves orders orders
Evolves-refl orders trade_no o h = (o, h, refl, here)

verify_and_check-Evolves :
    (c : Callback) (s : Stores) (orders : OrderStore)
    → s.order_store ≡ some orders
    → (orders' : OrderStore) × ((verify_and_check c s).0.order_store ≡ some orders')
      × Evolves orders orders'
unfolding verify_and_check
verify_and_check-Evolves c s orders h = go (verify_in c orders) refl
  where
    go :
        (r : Result OrderStore)
        → verify_in c orders ≡ r
        → (orders' : OrderStore) × ((verify_and_check c s).0.order_store ≡ some orders')
          × Evolves orders orders'
    go (raise e) k = (orders, rw (h, verify_and_check, k) h, Evolves-refl orders)
    go (ok orders') k = (
      orders',
      rw (h, verify_and_check, k) refl,
      Settles-Evolves c orders orders' (verify_in-Settles c orders orders' k),
    )

handle_callback-Evolves :
    (uuid : String) (parsed : Result (Option Callback)) (s : Stores) (orders : OrderStore)
    → s.order_store ≡ some orders
    → (orders' : OrderStore) × ((handle_callback uuid parsed s).0.order_store ≡ some orders')
      × Evolves orders orders'
unfolding handle_callback
handle_callback-Evolves uuid (raise e) s orders h = (orders, h, Evolves-refl orders)
handle_callback-Evolves uuid (ok none) s orders h = (orders, h, Evolves-refl orders)
handle_callback-Evolves uuid (ok (some c)) s orders h =
    let (orders', at, v) = verify_and_check-Evolves c s orders h in
    (orders', book_callback-orders uuid c (verify_and_check c s) ∙ at, v)

-- A series of callbacks, whatever each of them answers.
pub handle_callbacks : List (String × Result (Option Callback)) → Stores → Stores
handle_callbacks [] s = s
handle_callbacks ((uuid, parsed) ∷ rest) s = handle_callbacks rest (handle_callback uuid parsed s).0

-- Whatever callbacks come, in any order, repeated, forged or wrong: an order whose money has arrived
-- is still there afterwards, with its amount, and its money has still arrived.
pub handle_callbacks-Paid :
    (cs : List (String × Result (Option Callback))) (s : Stores) (orders : OrderStore)
    (trade_no : String) (o : LocalOrder)
    → s.order_store ≡ some orders
    → find_by_out_trade_no trade_no orders ≡ some o
    → Paid o.status
    → (orders' : OrderStore) × (o' : LocalOrder) × ((handle_callbacks cs s).order_store
        ≡ some orders')
      × (find_by_out_trade_no trade_no orders' ≡ some o')
      × (o'.amount ≡ o.amount)
      × Paid o'.status
unfolding handle_callbacks
handle_callbacks-Paid [] s orders trade_no o h found p = (orders, o, h, found, refl, p)
handle_callbacks-Paid ((uuid, parsed) ∷ cs) s orders trade_no o h found p =
    let (orders', h', v) = handle_callback-Evolves uuid parsed s orders h in
    let (o', found', amount, reach) = v trade_no o found in
    let (orders'', o'', h'', found'', amount', p'') =
      handle_callbacks-Paid cs (handle_callback uuid parsed s).0 orders' trade_no o' h' found'
        (Reaches-Paid p reach) in
    (orders'', o'', h'', found'', amount' ∙ amount, p'')
