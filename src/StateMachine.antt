-- ===== src/StateMachine.antt =====
-- capabilities/state_machine: state_machine.py, state_router.py and state_route_params.py. The two tables of a
-- router are fields, since they are meant to be constant; a handler is any function of the state, the
-- parameters and the world (a database, say) that it may change.
pub mod Engine
pub mod Registry
use flower_web_infrastructur.Prelude.{
  ℕ, Bool, true, false, Option, none, some, [], String, length, Eq, string_eq,
}
use flower_web_infrastructur.Prelude.Dict
use flower_web_infrastructur.Prelude.Dict.{Dict}

-- StateRouteParams over values of any type.
abbrev pub StateRouteParams : Type 0 → Type 0
StateRouteParams V = Dict String V

module _ {V : Type 0} where
  abbrev pub create : StateRouteParams V
  create = []

  abbrev pub add_param : String → V → StateRouteParams V → StateRouteParams V
  add_param key value p = Dict.put key value p

  abbrev pub or_default : Option V → V → V
  or_default none default = default
  or_default (some v) default = v

  abbrev pub get_param : String → V → StateRouteParams V → V
  get_param key default p = or_default (Dict.get key p) default

  abbrev pub contains : String → StateRouteParams V → Bool
  contains key p = Dict.contains key p

  abbrev pub size : StateRouteParams V → ℕ
  size p = length p

-- The exceptions: the codes of StateMachineErrorCode, the TypeError of fire, and a handler's own.
pub data Error (X : Type 0) : Type 0 where
  empty_state empty_parameter illegal_state_transition event_router_error type_error : Error X
  handler_error : X → Error X

pub data Result (X T : Type 0) : Type 0 where
  raise : Error X → Result X T
  ok : T → Result X T

-- What the call of a handler comes to: an exception, a target that may be None, or a coroutine, whose await
-- changes the world in its turn.
pub data Called (S W X : Type 0) : Type 0 where
  raised : X → Called S W X
  returned : Option S → Called S W X
  coroutine : (W → W × Result X (Option S)) → Called S W X

pub record StateRouter (S E V W X : Type 0) : Type 0 where
  pub state_event_target_config : Dict S (Dict E S)
  pub event_dispatcher : Dict E (S → StateRouteParams V → W → W × Called S W X)

module _ {S E V W X : Type 0} ⦃es : Eq S⦄ ⦃ee : Eq E⦄ where
  abbrev pub is_legal : StateRouter S E V W X → S → E → Bool
  is_legal r s event = elim (Dict.get s r.state_event_target_config) [
    | none ↦ false
    | some event2target ↦ Dict.contains event event2target
  ]

  -- `_validate`: what it raises.
  abbrev pub validate :
      StateRouter S E V W X → Option S → E → Option (StateRouteParams V) → Option (Error X)
  validate r none event params = some empty_state
  validate r (some s) event none = some empty_parameter
  validate r (some s) event (some params) = elim (is_legal r s event) [
    | true ↦ none
    | false ↦ some illegal_state_transition
  ]

  -- `route` without the handler's call: `none` is EVENT_ROUTER_ERROR.
  abbrev pub route :
      StateRouter S E V W X → E → S → StateRouteParams V → W → Option (W × Called S W X)
  route r event s params w = elim (Dict.get event r.event_dispatcher) [
    | none ↦ none
    | some handler ↦ some (handler s params w)
  ]

abbrev pub ensure_target : {S X : Type 0} → Option S → Result X S
ensure_target none = raise empty_state
ensure_target (some s) = ok s

module _ {S W X : Type 0} where
  -- The end of `fire`: a coroutine is closed, not run.
  abbrev pub settle : W × Called S W X → W × Result X S
  settle (w, raised x) = (w, raise (handler_error x))
  settle (w, returned target) = (w, ensure_target target)
  settle (w, coroutine run) = (w, raise type_error)

  abbrev pub awaited : W × Result X (Option S) → W × Result X S
  awaited (w, raise e) = (w, raise e)
  awaited (w, ok target) = (w, ensure_target target)

  -- The end of `fire_async`.
  abbrev pub settle_async : W × Called S W X → W × Result X S
  settle_async (w, raised x) = (w, raise (handler_error x))
  settle_async (w, returned target) = (w, ensure_target target)
  settle_async (w, coroutine run) = awaited (run w)

module _ {S E V W X : Type 0} ⦃es : Eq S⦄ ⦃ee : Eq E⦄ where
  abbrev pub fire_valid :
      StateRouter S E V W X
      → (W × Called S W X → W × Result X S)
      → Option S
      → E
      → Option (StateRouteParams V)
      → W
      → W × Result X S
  fire_valid r finish none event params w = (w, raise empty_state)
  fire_valid r finish (some s) event none w = (w, raise empty_parameter)
  fire_valid r finish (some s) event (some params) w = elim (route r event s params w) [
    | none ↦ (w, raise event_router_error)
    | some called ↦ finish called
  ]

  -- `fire` and `fire_async` differ in how they end.
  abbrev pub fire_with :
      StateRouter S E V W X
      → (W × Called S W X → W × Result X S)
      → Option S
      → E
      → Option (StateRouteParams V)
      → W
      → W × Result X S
  fire_with r finish s event params w = elim (validate r s event params) [
    | some e ↦ (w, raise e)
    | none ↦ fire_valid r finish s event params w
  ]

  unfoldable pub fire :
      StateRouter S E V W X → Option S → E → Option (StateRouteParams V) → W → W × Result X S
  fire r s event params w = fire_with r settle s event params w

  unfoldable pub fire_async :
      StateRouter S E V W X → Option S → E → Option (StateRouteParams V) → W → W × Result X S
  fire_async r s event params w = fire_with r settle_async s event params w
