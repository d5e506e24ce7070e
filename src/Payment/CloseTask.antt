-- ===== src/Payment/CloseTask.antt =====
-- capabilities/payment/payment_close_task.py: the round that closes the orders that have expired. The
-- channel's local store is the task's own. Other tasks may run while a close is awaited. Log lines
-- and metrics are left out.
pub mod Paid
use flower_web_infrastructur.Prelude.{
  ℕ, suc, ◌+◌, ◌≡◌, inl, inr, refl, Option, none, some, List, [], ◌∷◌, String, arith, Option-cases,
  string_eq,
}
use flower_web_infrastructur.Prelude.Dict
use flower_web_infrastructur.Prelude.Dict.{Dict, get-put_self}
use flower_web_infrastructur.Payment.Status.{PaymentStatus, Result, ok, raise, order_state_conflict}
use flower_web_infrastructur.Payment.Store.{
  LocalOrder, find_by_out_trade_no, update_status, find_expired,
}
use flower_web_infrastructur.Payment.Channel.{Stores, Outcome, get_local_order}
use flower_web_infrastructur.Payment.Callback.{close_order}

-- What a turn meets: the number it draws, how the channel's query and close end, and what other tasks
-- make of the stores between the checks of `close_order` and the update.
pub record Turn : Type 0 where
  pub uuid : String
  pub queried : Result (Option PaymentStatus)
  pub closing : Result (Unit {0})
  pub during : Stores → Stores

unfoldable pub set_closed : String → Stores → Stores
set_closed trade_no s = elim s.order_store [
  | none ↦ s
  | some orders ↦ record s {
    order_store = some (update_status trade_no PaymentStatus.closed orders).0;
  }
]

-- One turn of the loop; the number counts the order if it was closed.
unfoldable pub close_turn : Turn → String → Stores → Stores × ℕ
close_turn t trade_no s =
    let (s', r) = (close_order t.uuid trade_no t.queried t.closing s).1 in
    elim r [ ok _ ↦ (set_closed trade_no (t.during s'), 1) | raise e ↦ (t.during s', 0) ]

unfoldable pub close_each : (ℕ → Turn) → ℕ → List LocalOrder → Stores → Stores × ℕ
close_each turns i [] s = (s, 0)
close_each turns i (o ∷ orders) s =
    let (s', n) = close_turn (turns i) o.out_trade_no s in
    let (s'', m) = close_each turns (suc i) orders s' in (s'', n + m)

unfoldable pub close_expired_orders : (ℕ → Turn) → ℕ → ℕ → Stores → Stores × ℕ
close_expired_orders turns expire_before limit s = elim s.order_store [
  | none ↦ (s, 0)
  | some orders ↦ close_each turns 0 (find_expired expire_before limit orders) s
]
