-- ===== src/Payment/Status.antt =====
-- capabilities/payment/payment_state_machine.py, payment_status.py and the error codes of
-- payment_error_code.py that the payment skeleton raises.
pub mod Paths
use flower_web_infrastructur.Prelude.{
  ◌≡◌, refl, Bool, true, false, Option, none, some, if◌then◌else◌,
}

pub data PaymentStatus : Type 0 where
  success refund notpay closed revoked payerror userpaying exception : PaymentStatus

pub data PaymentEvent : Type 0 where
  pay_success pay_failed pay_timeout close confirm_failed confirm_exceed : PaymentEvent
  reconcile_success reconcile_failed refund_success refund_partial : PaymentEvent

-- The codes that are raised here, E4-COMMON conflict included; an exception of the channel's own.
pub data PaymentError : Type 0 where
  sign_verify_failed amount_mismatch order_state_conflict capability_unsupported : PaymentError
  common_conflict channel_exception : PaymentError

-- A call that may raise.
pub data Result {κ} (T : Type κ) : Type κ where
  raise : PaymentError → Result T
  ok : T → Result T

infixl 5 ◌>>=◌
abbrev pub ◌>>=◌ {κ ℓ} : {T : Type κ} {U : Type ℓ} → Result T → (T → Result U) → Result U
raise e >>= next = raise e
ok t >>= next = next t

-- What the first call of a chain returned, where the chain returned.
pub chain_returned {κ ℓ} :
    {T : Type κ} {U : Type ℓ} {u : U} (first : Result T) (next : T → Result U)
    → (first >>= next) ≡ ok u
    → (t : T) × (first ≡ ok t) × (next t ≡ ok u)
chain_returned (raise e) next stopped = cc
chain_returned (ok t) next returned = (t, refl, returned)

-- `_TRANSITIONS`
unfoldable pub transition : PaymentStatus → PaymentEvent → Option PaymentStatus
transition notpay pay_success = some success
transition notpay pay_failed = some payerror
transition notpay pay_timeout = some closed
transition notpay close = some closed
transition userpaying pay_success = some success
transition userpaying pay_failed = some payerror
transition userpaying confirm_failed = some closed
transition userpaying confirm_exceed = some exception
transition exception reconcile_success = some success
transition exception reconcile_failed = some closed
transition success refund_success = some refund
transition success refund_partial = some success
transition _ _ = none

-- `_IDEMPOTENT_PAIRS`
unfoldable pub is_idempotent_repeat : PaymentStatus → PaymentEvent → Bool
is_idempotent_repeat success pay_success = true
is_idempotent_repeat success refund_partial = true
is_idempotent_repeat refund refund_success = true
is_idempotent_repeat closed close = true
is_idempotent_repeat _ _ = false

abbrev pub or_conflict : Option PaymentStatus → Result PaymentStatus
or_conflict none = raise order_state_conflict
or_conflict (some s) = ok s

unfoldable pub target : PaymentStatus → PaymentEvent → Result PaymentStatus
unfolding transition is_idempotent_repeat
target current event =
    if is_idempotent_repeat current event
    then ok current
    else or_conflict (transition current event)

unfoldable pub is_terminal : PaymentStatus → Bool
is_terminal success = true
is_terminal closed = true
is_terminal revoked = true
is_terminal refund = true
is_terminal _ = false
