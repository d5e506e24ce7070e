-- ===== src/Examples/Resilients.antt =====
-- The breaker, the limiter and the retries at concrete inputs.
use flower_web_infrastructur.Prelude.{
  ◌⊎◌, ℕ, zero, suc, ◌+◌, ◌-◌, ◌*◌, ◌≤◌, ◌≡◌, ◌≢◌, refl, Bool, true, false, none, List, [], ◌∷◌,
  String, All, arith,
}
use flower_web_infrastructur.Resilience.CircuitBreaker.{
  Config, can_execute, append_sample, exceeds, State, Breaker, Event, ask, finish, run, record_call,
  window_size, default_config, init,
}
use flower_web_infrastructur.Resilience.CircuitBreaker.Invariant.{
  IsValid, let_through, run-IsValid, answers, asks,
}
use flower_web_infrastructur.Resilience.CircuitBreaker.Window.{last, Judged, record_call-Judged}
use flower_web_infrastructur.Resilience.CircuitBreaker.Execute.{
  Outcome, Times, execute_sync, execute_async, permit_returned, interrupts, interrupts_exhaust,
}
use flower_web_infrastructur.Resilience.TokenBucket
use flower_web_infrastructur.Resilience.TokenBucket.{
  Limiter, serve, serve-granted-le, try_acquire, retry_after_seconds, Foretells, retry_after-exact,
}
use flower_web_infrastructur.Resilience.Retry.{
  RetryConfig, Attempt, Follows, wrapper, assertion_error, wrapper-Follows,
}

abbrev half_open_breaker : Breaker
half_open_breaker = record {
  state = State.half_open;
  window = [];
  open_until = 300;
  half_open_inflight = 1;
}

-- One failure opens the breaker for five ticks, and two calls may probe it.
abbrev touchy : Config
touchy = record default_config {
  wait_duration_in_open_state = 5;
  permitted_calls_in_half_open_state = 2;
  minimum_number_of_calls = 1;
}

abbrev calls : List Event
calls = ask 10 ∷ finish 11 (false, false) ∷ ask 12 ∷ ask 16 ∷ ask 17 ∷ ask 18 ∷ []

probed : let_through touchy calls init 0 ≡ 2
unfolding let_through can_execute record_call append_sample exceeds
probed = refl

run-IsValid_example : IsValid touchy (let_through touchy calls init 0) (run touchy calls init)
run-IsValid_example = run-IsValid touchy calls

record_call-Judged_example :
    Judged default_config 7
      (last (window_size default_config) ((true, false) ∷ []))
      (record_call default_config 7 (true, false) init)
    × ((record_call default_config 7 (true, false) init).window
        ≡ last (window_size default_config) ((true, false) ∷ []))
record_call-Judged_example = record_call-Judged default_config 7 (true, false) init [] refl refl

abbrev times : Times
times = record { asked = 400; start = 400; stop = 420; recorded = 420 }

abbrev raising : Outcome String String
raising = Outcome.raises "boom"

permit_returned_example :
    ((execute_sync default_config times
        (λ b. b)
        raising
        none
        half_open_breaker).0.half_open_inflight
      ≡ 1)
    × (((execute_async default_config times
            (λ b. b)
            raising
            none
            half_open_breaker).0.half_open_inflight
          ≡ 1)
        ⊎ (raising ≡ Outcome.interrupted))
permit_returned_example = permit_returned default_config times none raising half_open_breaker refl

interrupts_exhaust_example :
    All
      (λ (answer : Bool). answer ≡ false)
      (answers default_config
        (asks (500 ∷ 600 ∷ []))
        (interrupts {A = String} {E = String} default_config times none 4 half_open_breaker))
interrupts_exhaust_example =
    interrupts_exhaust default_config times none 4 half_open_breaker (500 ∷ 600 ∷ []) refl refl

abbrev limits : TokenBucket.Config
limits = record { qps = 2; burst = 10 }

serve-granted-le_example :
    ((serve limits ((1, 4) ∷ (2, 9) ∷ []) (TokenBucket.init limits 0)).1
        + (serve limits ((1, 4) ∷ (2, 9) ∷ []) (TokenBucket.init limits 0)).0.tokens
      ≤ 10 + (2 - 0) * 2)
    × ((serve limits ((1, 4) ∷ (2, 9) ∷ []) (TokenBucket.init limits 0)).0.tokens ≤ 10)
serve-granted-le_example =
    serve-granted-le limits 0 ((1, 4) ∷ (2, 9) ∷ []) (omega arith, (omega arith, tt))

abbrev retries : RetryConfig
retries = record { max_retries = 3; base_delay = 1; backoff_factor = 2 }

abbrev flaky : ℕ → Attempt String Bool
flaky zero = Attempt.raises true
flaky (suc n) = Attempt.returns "fine"

abbrev same : Bool → Bool
same b = b

wrapper-Follows_example :
    (n : ℕ) × Follows retries same flaky 0 (wrapper retries same flaky) n n
    × ((wrapper retries same flaky).answer ≢ assertion_error)
wrapper-Follows_example = wrapper-Follows retries same flaky
