-- ===== src/Payment/Status/Paths.antt =====
-- Where the payment state machine of payment_state_machine.py can lead.
use flower_web_infrastructur.Prelude.{◌≡◌, refl, ◌⊎◌, true, arith}
use flower_web_infrastructur.Payment.Status.{
  PaymentStatus, success, refund, notpay, closed, revoked, payerror, PaymentEvent, pay_success,
  close, refund_success, refund_partial, ok, target, is_terminal, is_idempotent_repeat,
}

-- A status and those that accepted events lead to from it.
pub data Reaches (s : PaymentStatus) : PaymentStatus → Type 0 where
  here : Reaches s s
  next : {t u : PaymentStatus} (e : PaymentEvent) → Reaches s t → target t e ≡ ok u → Reaches s u

-- The money has arrived, even if it went back afterwards.
abbrev pub Paid : PaymentStatus → Type 0
Paid success = Unit
Paid refund = Unit
Paid _ = ⊥

-- Money has not arrived and will not.
abbrev pub Abandoned : PaymentStatus → Type 0
Abandoned closed = Unit
Abandoned revoked = Unit
Abandoned _ = ⊥

target-Paid :
    (s : PaymentStatus) (e : PaymentEvent) {t : PaymentStatus} → Paid s → target s e ≡ ok t → Paid t
unfolding target
target-Paid success e p h = ground arith
target-Paid refund e p h = ground arith
target-Paid _ e p h = absurd p

target-Abandoned :
    (s : PaymentStatus) (e : PaymentEvent) {t : PaymentStatus}
    → Abandoned s
    → target s e ≡ ok t
    → t ≡ s
unfolding target
target-Abandoned closed e p h = ground arith
target-Abandoned revoked e p h = ground arith
target-Abandoned _ e p h = absurd p

-- A status in which the money has arrived never leads to one in which it has not: whatever events
-- are accepted from SUCCESS or REFUND, the order stays in one of these two.
pub Reaches-Paid : {s t : PaymentStatus} → Paid s → Reaches s t → Paid t
Reaches-Paid p here = p
Reaches-Paid p (next {t = t} e r h) = target-Paid t e (Reaches-Paid p r) h

-- A CLOSED or REVOKED order keeps its status whatever events are accepted.
pub Reaches-Abandoned : {s t : PaymentStatus} → Abandoned s → Reaches s t → t ≡ s
Reaches-Abandoned p here = refl
Reaches-Abandoned {s} p (next {t = t} {u = u} e r h) =
    let same : t ≡ s = Reaches-Abandoned p r in same-step same e h
  where
    same-step : t ≡ s → (e' : PaymentEvent) → target t e' ≡ ok u → u ≡ s
    same-step q e' k = target-Abandoned s e' p (rw q at k)

-- The statuses that an order takes which starts with NOTPAY.
abbrev pub Ordinary : PaymentStatus → Type 0
Ordinary notpay = Unit
Ordinary success = Unit
Ordinary refund = Unit
Ordinary closed = Unit
Ordinary payerror = Unit
Ordinary _ = ⊥

target-Ordinary :
    (s : PaymentStatus) (e : PaymentEvent) {t : PaymentStatus}
    → Ordinary s
    → target s e ≡ ok t
    → Ordinary t
unfolding target
target-Ordinary notpay e p h = ground arith
target-Ordinary success e p h = ground arith
target-Ordinary refund e p h = ground arith
target-Ordinary closed e p h = ground arith
target-Ordinary payerror e p h = ground arith
target-Ordinary _ e p h = absurd p

-- From the NOTPAY with which an order is saved, events lead to SUCCESS, REFUND, CLOSED and PAYERROR
-- at most: never to USERPAYING, to REVOKED, or to the EXCEPTION that reconciliation is to settle.
pub notpay-Ordinary : {t : PaymentStatus} → Reaches notpay t → Ordinary t
notpay-Ordinary here = tt
notpay-Ordinary (next {t = t} e r h) = target-Ordinary t e (notpay-Ordinary r) h

-- The events that a channel may deliver more than once.
abbrev pub Repeatable : PaymentEvent → Type 0
Repeatable pay_success = Unit
Repeatable close = Unit
Repeatable refund_success = Unit
Repeatable refund_partial = Unit
Repeatable _ = ⊥

-- A repeated notice changes nothing and is no error: if one of the events pay success, close and
-- refund (whole or partial) was accepted and led to a status, it is accepted there as a repeat and leads to the same status.
pub target-repeat :
    (s : PaymentStatus) (e : PaymentEvent) {t : PaymentStatus}
    → Repeatable e
    → target s e ≡ ok t
    → (is_idempotent_repeat t e ≡ true) × (target t e ≡ ok t)
unfolding target
target-repeat s pay_success r h = ground arith
target-repeat s close r h = ground arith
target-repeat s refund_success r h = ground arith
target-repeat s refund_partial r h = ground arith
target-repeat s _ r h = absurd r

-- Terminal are exactly the statuses in which the money has arrived or which were given up, and an
-- accepted event leads from a terminal status to a terminal one.
pub target-terminal :
    (s : PaymentStatus) (e : PaymentEvent) {t : PaymentStatus}
    → is_terminal s ≡ true
    → target s e ≡ ok t
    → (Paid s ⊎ Abandoned s) × (is_terminal t ≡ true)
unfolding target is_terminal
target-terminal s e p h = (ground arith, ground arith)
