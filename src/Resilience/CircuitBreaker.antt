-- ===== src/Resilience/CircuitBreaker.antt =====
-- infra/resilience/circuit_breaker.py, circuit_breaker_config.py and circuit_breaker_state_enum.py.
-- A method takes the breaker and the readings of the monotonic clock that it makes, and returns
-- the new breaker beside its result; the lock makes `can_execute` and `_record` atomic. Durations
-- are whole ticks, and a rate threshold is a fraction. The children prove what a run keeps
-- (Invariant), what the window holds (Window) and what a call returns (Execute).
pub mod Invariant
pub mod Window
pub mod Execute
use flower_web_infrastructur.Prelude.{
  ℕ, suc, ◌+◌, ◌-◌, ◌*◌, Bool, true, false, not, ◌||◌, List, [], ◌∷◌, ◌++◌, length, count_if,
  Option, none, some, ltb, leb, if◌then◌else◌,
}

pub data State : Type 0 where
  closed opened half_open : State

-- A threshold is the fraction of `rate_num` over `rate_den`. The capacity of the window is
-- `window_rest + 1`: an empty window, on which the rates divide by zero, is not modelled.
pub record Config : Type 0 where
  pub failure_rate_num : ℕ
  pub failure_rate_den : ℕ
  pub slow_call_rate_num : ℕ
  pub slow_call_rate_den : ℕ
  pub slow_call_duration_threshold : ℕ
  pub wait_duration_in_open_state : ℕ
  pub permitted_calls_in_half_open_state : ℕ
  pub minimum_number_of_calls : ℕ
  pub window_rest : ℕ

abbrev pub window_size : Config → ℕ
window_size c = suc c.window_rest

-- The defaults, with ticks of a tenth of a second.
abbrev pub default_config : Config
default_config = record {
  failure_rate_num = 1;
  failure_rate_den = 2;
  slow_call_rate_num = 4;
  slow_call_rate_den = 5;
  slow_call_duration_threshold = 10;
  wait_duration_in_open_state = 300;
  permitted_calls_in_half_open_state = 5;
  minimum_number_of_calls = 10;
  window_rest = 19;
}

-- What a call was: (success, slow).
abbrev pub Sample : Type 0
Sample = Bool × Bool

pub record Breaker : Type 0 where
  pub state : State
  pub window : List Sample
  pub open_until : ℕ
  pub half_open_inflight : ℕ

abbrev pub init : Breaker
init = record { state = State.closed; window = []; open_until = 0; half_open_inflight = 0 }

abbrev pub drop_first : List Sample → List Sample
drop_first [] = []
drop_first (y ∷ ys) = ys

-- `deque.append` at a maximal length: the oldest sample leaves.
unfoldable pub append_sample : Config → Sample → List Sample → List Sample
append_sample c x w =
    if ltb (length w) (window_size c) then w ++ x ∷ [] else drop_first (w ++ x ∷ [])

-- The second half of `can_execute`, in the state after a possible move to half open.
unfoldable pub admit : Config → Breaker → Breaker × Bool
admit c b = elim b.state [
  | half_open ↦
      if leb c.permitted_calls_in_half_open_state b.half_open_inflight
      then (b, false)
      else (record b { half_open_inflight = b.half_open_inflight + 1 }, true)
  | _ ↦ (b, true)
]

unfoldable pub can_execute : Config → ℕ → Breaker → Breaker × Bool
unfolding admit
can_execute c now b = elim b.state [
  | opened ↦
      if leb b.open_until now
      then admit c (record b { state = State.half_open; half_open_inflight = 0 })
      else (b, false)
  | _ ↦ admit c b
]

abbrev pub failed : Sample → Bool
failed x = not x.0

abbrev pub slow : Sample → Bool
slow x = x.1

-- `failure_rate >= threshold or slow_rate >= threshold`, with the fractions multiplied out.
unfoldable pub exceeds : Config → List Sample → Bool
exceeds c w =
    leb (c.failure_rate_num * length w) (count_if failed w * c.failure_rate_den)
    || leb (c.slow_call_rate_num * length w) (count_if slow w * c.slow_call_rate_den)

-- `_record` for a closed breaker, after the sample was appended.
unfoldable pub evaluate : Config → ℕ → Breaker → Breaker
evaluate c now b =
    if ltb (length b.window) c.minimum_number_of_calls
    then b
    else if exceeds c b.window
    then record b { state = State.opened; open_until = now + c.wait_duration_in_open_state }
    else b

-- `now` is the clock where `_record` reads it, to open the breaker.
unfoldable pub record_call : Config → ℕ → Sample → Breaker → Breaker
unfolding evaluate
record_call c now x b =
    let b' = record b { window = append_sample c x b.window } in
    elim b.state [
      | half_open ↦
          if x.0
          then record b' {
            state = State.closed;
            window = [];
            half_open_inflight = b.half_open_inflight - 1;
          }
          else record b' {
            state = State.opened;
            open_until = now + c.wait_duration_in_open_state;
            half_open_inflight = b.half_open_inflight - 1;
          }
      | opened ↦ b'
      | closed ↦ evaluate c now b'
    ]

-- What threads do to a breaker: each event is one atomic section.
pub data Event : Type 0 where
  ask : ℕ → Event
  finish : ℕ → Sample → Event

-- The new breaker, and the answer of `can_execute` if that was the event.
unfoldable pub step : Config → Event → Breaker → Breaker × Option Bool
step c (ask now) b = let (b', ok) = can_execute c now b in (b', some ok)
step c (finish now x) b = (record_call c now x b, none)

unfoldable pub run : Config → List Event → Breaker → Breaker
run c [] b = b
run c (e ∷ es) b = run c es (step c e b).0
