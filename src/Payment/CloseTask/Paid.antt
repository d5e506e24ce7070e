-- ===== src/Payment/CloseTask/Paid.antt =====
-- What a round of Payment/CloseTask.antt makes of orders that are paid.
use flower_web_infrastructur.Prelude.{
  ℕ, suc, ◌≡◌, inl, inr, refl, Option, some, List, [], ◌∷◌, String, arith, Option-cases, string_eq,
}
use flower_web_infrastructur.Prelude.Dict
use flower_web_infrastructur.Prelude.Dict.{Dict, get-put_self}
use flower_web_infrastructur.Payment.Status.{PaymentStatus, Result, ok, raise, order_state_conflict}
use flower_web_infrastructur.Payment.Store.{
  LocalOrder, find_by_out_trade_no, update_status, find_expired,
}
use flower_web_infrastructur.Payment.Channel.{Stores, Outcome, get_local_order}
use flower_web_infrastructur.Payment.Callback.{close_order}
use flower_web_infrastructur.Payment.Callback.{close_at_channel, close_context}
use flower_web_infrastructur.Payment.Callback.Settled.{persist_flow-orders}
use flower_web_infrastructur.Prelude.{◌==◌, false, Bool-cases, inl, inr, ◌∙◌, suc}
use flower_web_infrastructur.Prelude.Dict.{get-put}
use text.Mathlib.TextEquality.{eq_iff}
use flower_web_infrastructur.Payment.CloseTask.{
  Turn, set_closed, close_turn, close_each, close_expired_orders,
}

-- The order is here and paid.
abbrev pub IsPaid : String → Stores → Type 0
IsPaid trade_no s =
    (o : LocalOrder) × (get_local_order trade_no s ≡ some o) × (o.status ≡ PaymentStatus.success)

close_order-paid :
    (uuid trade_no : String) (queried : Result (Option PaymentStatus)) (closing : Result (Unit {0}))
    (s : Stores)
    → IsPaid trade_no s
    → (close_order uuid trade_no queried closing s).1 ≡ (s, raise order_state_conflict)
unfolding close_order
close_order-paid uuid trade_no queried closing s (o, found, paid) =
    rw (found, close_order, paid) refl

-- A turn for an order that was paid since the scan neither closes nor counts it: what it leaves is what
-- other tasks make of the stores.
pub close_turn-paid :
    (t : Turn) (trade_no : String) (s : Stores)
    → IsPaid trade_no s
    → close_turn t trade_no s ≡ (t.during s, 0)
unfolding close_turn
close_turn-paid t trade_no s paid =
    let e = close_order-paid t.uuid trade_no t.queried t.closing s paid in
    rw (e, close_turn) (rw e refl)

set_closed-closed :
    (trade_no : String) (s : Stores) (o : LocalOrder)
    → get_local_order trade_no s ≡ some o
    → get_local_order trade_no (set_closed trade_no s)
      ≡ some (record o { status = PaymentStatus.closed })
unfolding set_closed get_local_order find_by_out_trade_no update_status
set_closed-closed trade_no s o there = elim (Option-cases s.order_store) [
  | inl missing ↦ ground arith
  | inr (orders, e) ↦
      let found : Dict.get trade_no orders ≡ some o = ground arith in
      let closed = get-put_self trade_no (record o { status = PaymentStatus.closed }) orders in
      ground (arith, closed)
]

-- Where the close went through, the order is CLOSED after the turn, whatever other tasks made of it in
-- between: also where it was paid while the close was awaited.
pub close_turn-overwrites :
    (t : Turn) (trade_no : String) (s s' : Stores) (o : LocalOrder)
    → (close_order t.uuid trade_no t.queried t.closing s).1 ≡ (s', ok tt)
    → get_local_order trade_no (t.during s') ≡ some o
    → get_local_order trade_no (close_turn t trade_no s).0
      ≡ some (record o { status = PaymentStatus.closed })
unfolding close_turn
close_turn-overwrites t trade_no s s' o closes there =
    let e : close_turn t trade_no s ≡ (set_closed trade_no (t.during s'), 1) =
      rw (closes, close_turn) (rw closes refl) in
    rw e (set_closed-closed trade_no (t.during s') o there)

close_at_channel-orders :
    (uuid trade_no : String) (queried : Result (Option PaymentStatus)) (closing : Result (Unit {0}))
    (s : Stores)
    → (close_at_channel uuid trade_no queried closing s).1.0.order_store ≡ s.order_store
unfolding close_at_channel
close_at_channel-orders uuid trade_no queried closing s =
    ground (arith, persist_flow-orders uuid (close_context trade_no) s)

close_order-orders :
    (uuid trade_no : String) (queried : Result (Option PaymentStatus)) (closing : Result (Unit {0}))
    (s : Stores)
    → (close_order uuid trade_no queried closing s).1.0.order_store ≡ s.order_store
unfolding close_order
close_order-orders uuid trade_no queried closing s =
    ground (arith, close_at_channel-orders uuid trade_no queried closing s)

-- Only the orders of the stores count for whether one is paid.
IsPaid-same :
    (trade_no : String) (s s' : Stores)
    → s'.order_store ≡ s.order_store
    → IsPaid trade_no s
    → IsPaid trade_no s'
unfolding get_local_order
IsPaid-same trade_no s s' e (o, found, paid) = (o, rw e found, paid)

set_closed-other :
    (trade_no other : String) (s : Stores)
    → (trade_no == other) ≡ false
    → get_local_order other (set_closed trade_no s) ≡ get_local_order other s
unfolding set_closed get_local_order find_by_out_trade_no update_status
set_closed-other trade_no other s apart = elim (Option-cases s.order_store) [
  | inl missing ↦ ground arith
  | inr (orders, e) ↦ elim (Option-cases (Dict.get trade_no orders)) [
    | inl unknown ↦ ground arith
    | inr (o, found) ↦
        let kept = get-put trade_no other (record o { status = PaymentStatus.closed }) orders in
        ground (arith, kept)
  ]
]

close_turn-other :
    (t : Turn) (trade_no other : String) (s : Stores)
    → (trade_no == other) ≡ false
    → get_local_order other (close_turn t trade_no s).0
      ≡ get_local_order other (t.during (close_order t.uuid trade_no t.queried t.closing s).1.0)
unfolding close_turn
close_turn-other t trade_no other s apart =
    go (close_order t.uuid trade_no t.queried t.closing s).1 refl
  where
    go :
        (r : Outcome (Unit {0}))
        → (close_order t.uuid trade_no t.queried t.closing s).1 ≡ r
        → get_local_order other (close_turn t trade_no s).0 ≡ get_local_order other (t.during r.0)
    go (s', ok u) e =
        rw (e, close_turn) (rw e (set_closed-other trade_no other (t.during s') apart))
    go (s', raise x) e = rw (e, close_turn) (rw e refl)

-- What other tasks do while each turn waits leaves the order paid.
abbrev pub Keeps : String → (ℕ → Turn) → Type 0
Keeps trade_no turns =
    (i : ℕ) (s : Stores) → IsPaid trade_no s → IsPaid trade_no ((turns i).during s)

close_turn-IsPaid :
    (t : Turn) (trade_no paid_no : String) (s : Stores)
    → ((s' : Stores) → IsPaid paid_no s' → IsPaid paid_no (t.during s'))
    → IsPaid paid_no s
    → IsPaid paid_no (close_turn t trade_no s).0
close_turn-IsPaid t trade_no paid_no s keeps p = elim (Bool-cases (trade_no == paid_no)) [
  | inl same ↦
      let e : trade_no ≡ paid_no = (eq_iff trade_no paid_no).0 same in
      let stays = close_turn-paid t paid_no s p in rw e (rw stays (keeps s p))
  | inr apart ↦
      let s' : Stores = (close_order t.uuid trade_no t.queried t.closing s).1.0 in
      let p' =
        IsPaid-same paid_no s s' (close_order-orders t.uuid trade_no t.queried t.closing s) p in
      let (o, found, paid) = keeps s' p' in
      (o, close_turn-other t trade_no paid_no s apart ∙ found, paid)
]

close_each-IsPaid :
    (turns : ℕ → Turn) (i : ℕ) (orders : List LocalOrder) (paid_no : String) (s : Stores)
    → Keeps paid_no turns
    → IsPaid paid_no s
    → IsPaid paid_no (close_each turns i orders s).0
unfolding close_each
close_each-IsPaid turns i [] paid_no s keeps p = p
close_each-IsPaid turns i (o ∷ orders) paid_no s keeps p =
    close_each-IsPaid turns (suc i) orders paid_no (close_turn (turns i) o.out_trade_no s).0 keeps
      (close_turn-IsPaid (turns i) o.out_trade_no paid_no s (keeps i) p)

-- A round of the task never closes an order that is paid when the round starts, whatever the channel
-- answers for any order, as long as what other tasks do meanwhile leaves the order paid.
pub close_expired_orders-IsPaid :
    (turns : ℕ → Turn) (expire_before limit : ℕ) (paid_no : String) (s : Stores)
    → Keeps paid_no turns
    → IsPaid paid_no s
    → IsPaid paid_no (close_expired_orders turns expire_before limit s).0
unfolding close_expired_orders
close_expired_orders-IsPaid turns expire_before limit paid_no s keeps p =
    elim (Option-cases s.order_store) [
      | inl missing ↦ rw (missing, close_expired_orders) p
      | inr (orders, e) ↦
          rw (e, close_expired_orders)
            (close_each-IsPaid turns 0 (find_expired expire_before limit orders) paid_no s keeps p)
    ]
