-- ===== src/Payment/Channel/Prepay.antt =====
-- New payments through payment_channel_template.py over its in-memory stores.
use flower_web_infrastructur.Prelude.{
  ◌≡◌, ◌≢◌, refl, true, false, Option, none, some, String, arith, ◌==◌, string_eq, pair_eq,
  Option-cases, Bool-cases, ◌⊎◌, inl, inr,
}
use text.Mathlib.TextEquality.{eq_iff}
use flower_web_infrastructur.Prelude.Dict.{get-put, get-put_self}
use flower_web_infrastructur.Payment.Status.{PaymentStatus, ok, raise, order_state_conflict}
use flower_web_infrastructur.Payment.Store.{
  FlowStore, event_eq, LocalOrder, OrderStore, find_by_out_trade_no, save,
}
use flower_web_infrastructur.Payment.Channel.{
  Stores, PrepayRequest, forbids_prepay, check_idempotency, get_local_order, prepay, new_order,
}

prepay-saved :
    {A : Type 0} (r : PrepayRequest) (a : A) (flows : Option FlowStore) (orders : OrderStore)
    (other : String)
    → let s : Stores = record { flow_store = flows; order_store = some orders } in
      check_idempotency r.out_trade_no s ≡ ok tt
      → (orders' : OrderStore) × (prepay r (ok a) s
          ≡ (record { flow_store = flows; order_store = some orders' }, ok a))
        × (find_by_out_trade_no r.out_trade_no orders' ≡ some (new_order r))
        × ((r.out_trade_no ≡ other)
            ⊎ (find_by_out_trade_no other orders' ≡ find_by_out_trade_no other orders))
unfolding find_by_out_trade_no save
prepay-saved r a flows orders other passed =
    let orders' : OrderStore = save (new_order r) orders in
    (
      orders',
      (unfold prepay in rw (passed, prepay) refl),
      get-put_self r.out_trade_no (new_order r) orders,
      elim (Bool-cases (r.out_trade_no == other)) [
        | inl same ↦ inl ((eq_iff r.out_trade_no other).0 same)
        | inr differs ↦ inr (rw (get-put, differs) refl)
      ],
    )

-- The statuses in which a new payment is refused, and those in which it is not.
abbrev pub IsBusy : PaymentStatus → Type 0
IsBusy status =
    (status ≡ PaymentStatus.success)
    ⊎ (status ≡ PaymentStatus.userpaying)
    ⊎ (status ≡ PaymentStatus.exception)

abbrev pub IsIdle : PaymentStatus → Type 0
IsIdle status =
    (status ≢ PaymentStatus.success)
    × (status ≢ PaymentStatus.userpaying)
    × (status ≢ PaymentStatus.exception)

forbids_prepay-IsBusy : (status : PaymentStatus) → forbids_prepay status ≡ true → IsBusy status
forbids_prepay-IsBusy PaymentStatus.success h = inl refl
forbids_prepay-IsBusy PaymentStatus.userpaying h = inr (inl refl)
forbids_prepay-IsBusy PaymentStatus.exception h = inr (inr refl)
forbids_prepay-IsBusy _ h = absurd (cc)

forbids_prepay-IsIdle : (status : PaymentStatus) → forbids_prepay status ≡ false → IsIdle status
forbids_prepay-IsIdle status h = (
  (λ e. absurd (ground (arith, e, h))),
  (λ e. absurd (ground (arith, e, h))),
  (λ e. absurd (ground (arith, e, h))),
)

-- A new payment that the channel accepts is refused, with no change, if the order is known with
-- SUCCESS, USERPAYING or EXCEPTION, and only then. An order that is not known, or is known with any
-- other status, REFUND and CLOSED included, gives way to a NOTPAY order of the same number with the
-- new amount; no other order changes.
pub prepay_cases :
    {A : Type 0} (r : PrepayRequest) (a : A) (flows : Option FlowStore) (orders : OrderStore)
    (other : String)
    → let s : Stores = record { flow_store = flows; order_store = some orders } in
      ((local : LocalOrder) × (find_by_out_trade_no r.out_trade_no orders ≡ some local)
        × IsBusy local.status
        × (prepay r (ok a) s ≡ (s, raise order_state_conflict)))
      ⊎ (((find_by_out_trade_no r.out_trade_no orders ≡ none)
            ⊎ ((local : LocalOrder) × (find_by_out_trade_no r.out_trade_no orders ≡ some local)
                × IsIdle local.status))
          × ((orders' : OrderStore) × (prepay r (ok a) s
                ≡ (record { flow_store = flows; order_store = some orders' }, ok a))
              × (find_by_out_trade_no r.out_trade_no orders' ≡ some (new_order r))
              × ((r.out_trade_no ≡ other)
                  ⊎ (find_by_out_trade_no other orders' ≡ find_by_out_trade_no other orders))))
prepay_cases r a flows orders other =
    let s : Stores = record { flow_store = flows; order_store = some orders } in
    elim (Option-cases (find_by_out_trade_no r.out_trade_no orders)) [
      | inl missing ↦ inr (
        inl missing,
        prepay-saved r a flows orders other
            (unfold check_idempotency get_local_order in rw (missing, check_idempotency) refl),
      )
      | inr (local, found) ↦ elim (Bool-cases (forbids_prepay local.status)) [
        | inl forbidden ↦ inl (
          local,
          found,
          forbids_prepay-IsBusy local.status forbidden,
          (unfold prepay check_idempotency get_local_order in
              rw (found, prepay, check_idempotency, forbidden) refl),
        )
        | inr allowed ↦ inr (
          inr (local, found, forbids_prepay-IsIdle local.status allowed),
          prepay-saved r a flows orders other (
              unfold check_idempotency get_local_order in
              rw (found, check_idempotency, allowed) refl),
        )
      ]
    ]
