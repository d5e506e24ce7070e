-- ===== src/Resilience/CircuitBreaker/Execute.antt =====
-- `_run_fallback`, `_execute_sync`, `_execute_async`, `execute` and `execute_async` of
-- infra/resilience/circuit_breaker.py. The protected function and the fallback are given by how
-- they end. What other threads do to the breaker while the function runs is the argument
-- `during`; the fallback is taken to leave the breaker alone.
use flower_web_infrastructur.Prelude.{
  ℕ, zero, suc, ◌+◌, ◌-◌, ◌<◌, ◌≡◌, ◌⊎◌, inl, inr, refl, Bool, true, false, Option, none, some,
  List, [], ◌∷◌, All, ltb, arith, if◌then◌else◌,
}
use flower_web_infrastructur.Resilience.CircuitBreaker.{
  opened, half_open, Config, Breaker, can_execute, record_call,
}
use flower_web_infrastructur.Resilience.CircuitBreaker.Invariant.{asks, answers}

-- How the protected function ends: with a value, an `Exception`, `CancelledError`, or another
-- `BaseException`.
pub data Outcome {ℓ} (A E : Type ℓ) : Type ℓ where
  returns : A → Outcome A E
  raises : E → Outcome A E
  cancelled : Outcome A E
  interrupted : Outcome A E

-- How an awaited fallback ends.
pub data Awaited {ℓ} (A E : Type ℓ) : Type ℓ where
  resolves : A → Awaited A E
  throws : E → Awaited A E

-- What the fallback does when it is called.
pub data Fallback {ℓ} (A E : Type ℓ) : Type ℓ where
  gives : A → Fallback A E
  gives_awaitable : Awaited A E → Fallback A E
  fails : E → Fallback A E

-- What the caller sees.
pub data Reply {ℓ} (A E : Type ℓ) : Type ℓ where
  value : A → Reply A E
  raised : E → Reply A E
  raised_cancelled : Reply A E
  raised_interrupt : Reply A E
  circuit_open_error : Reply A E
  type_error : Reply A E

-- The readings of the clock: in `can_execute`, before the call, after it, and in `_record`.
pub record Times : Type 0 where
  pub asked : ℕ
  pub start : ℕ
  pub stop : ℕ
  pub recorded : ℕ

abbrev pub is_slow : Config → Times → Bool
is_slow c t = ltb c.slow_call_duration_threshold (t.stop - t.start)

module _ {ℓ} {A E : Type ℓ} where
  unfoldable pub run_fallback : Option (Fallback A E) → Reply A E
  run_fallback none = circuit_open_error
  run_fallback (some (gives a)) = value a
  run_fallback (some (gives_awaitable w)) = type_error
  run_fallback (some (fails e)) = raised e

  abbrev pub await : Awaited A E → Reply A E
  await (resolves a) = value a
  await (throws e) = raised e

  unfoldable pub run_fallback_async : Option (Fallback A E) → Reply A E
  run_fallback_async none = circuit_open_error
  run_fallback_async (some (gives a)) = value a
  run_fallback_async (some (gives_awaitable w)) = await w
  run_fallback_async (some (fails e)) = raised e

  -- An `Exception` goes on to the caller if there is no fallback.
  abbrev pub or_raise : Option (Fallback A E) → E → Reply A E → Reply A E
  or_raise none e r = raised e
  or_raise (some f) e r = r

module _ {ℓ} {A E : Type ℓ} (c : Config) (t : Times) (during : Breaker → Breaker) where
  -- The part of `_execute_sync` behind the permission.
  unfoldable pub call_sync : Outcome A E → Option (Fallback A E) → Breaker → Breaker × Reply A E
  call_sync (returns a) f b = (record_call c t.recorded (true, is_slow c t) (during b), value a)
  call_sync (raises e) f b =
      (record_call c t.recorded (false, is_slow c t) (during b), or_raise f e (run_fallback f))
  call_sync cancelled f b =
      (record_call c t.recorded (false, is_slow c t) (during b), raised_cancelled)
  call_sync interrupted f b =
      (record_call c t.recorded (false, is_slow c t) (during b), raised_interrupt)

  unfoldable pub execute_sync : Outcome A E → Option (Fallback A E) → Breaker → Breaker × Reply A E
  unfolding call_sync
  execute_sync o f b =
      let (b', ok) = can_execute c t.asked b in
      if ok then call_sync o f b' else (b', run_fallback f)

  -- The part of `_execute_async` behind the permission: only `CancelledError` and `Exception` are
  -- caught.
  unfoldable pub call_async : Outcome A E → Option (Fallback A E) → Breaker → Breaker × Reply A E
  call_async (returns a) f b = (record_call c t.recorded (true, is_slow c t) (during b), value a)
  call_async (raises e) f b = (
    record_call c t.recorded (false, is_slow c t) (during b),
    or_raise f e (run_fallback_async f),
  )
  call_async cancelled f b =
      (record_call c t.recorded (false, is_slow c t) (during b), raised_cancelled)
  call_async interrupted f b = (during b, raised_interrupt)

  unfoldable pub execute_async : Outcome A E → Option (Fallback A E) → Breaker → Breaker × Reply A E
  unfolding call_async
  execute_async o f b =
      let (b', ok) = can_execute c t.asked b in
      if ok then call_async o f b' else (b', run_fallback_async f)

  -- The public `execute` refuses a coroutine function before anything else.
  unfoldable pub execute :
      Bool → Outcome A E → Option (Fallback A E) → Breaker → Breaker × Reply A E
  unfolding execute_sync
  execute true o f b = (b, type_error)
  execute false o f b = execute_sync o f b

module _ {ℓ} {A E : Type ℓ} (c : Config) (t : Times) (o : Outcome A E) where
  -- While the waiting time of an open breaker runs, neither way to call reaches the function: the
  -- breaker stays as it is and the caller gets the fallback's answer, or `CircuitOpenError` where
  -- there is none, whatever the function would have done.
  pub open_degrades :
      (during : Breaker → Breaker) (f : Option (Fallback A E)) (b : Breaker)
      → b.state ≡ opened
      → t.asked < b.open_until
      → (execute c t during false o f b ≡ (b, run_fallback f))
        × (execute_async c t during o f b ≡ (b, run_fallback_async f))
  unfolding execute execute_async can_execute
  open_degrades during f b s h = (ground arith, ground arith)

-- Every recorded sample of a half-open breaker takes one permit away.
record_call-half_open :
    (c : Config) (now : ℕ) (x : Bool × Bool) (b : Breaker)
    → b.state ≡ half_open
    → (record_call c now x b).half_open_inflight ≡ b.half_open_inflight - 1
unfolding record_call
record_call-half_open c now x b s = ground arith

-- Asked in the half-open state, a breaker refuses and stays as it is, or gives one permit out.
half_open_cases :
    (c : Config) (now : ℕ) (b : Breaker)
    → b.state ≡ half_open
    → (can_execute c now b ≡ (b, false))
      ⊎ (can_execute c now b ≡ (record b { half_open_inflight = b.half_open_inflight + 1 }, true))
unfolding can_execute
half_open_cases c now b s = ground arith

module _ {ℓ} {A E : Type ℓ} (c : Config) (t : Times) (f : Option (Fallback A E)) where
  sync_returned :
      (o : Outcome A E) (b : Breaker)
      → b.state ≡ half_open
      → (call_sync c t (λ b'. b') o f b).0.half_open_inflight ≡ b.half_open_inflight - 1
  unfolding call_sync
  sync_returned (returns a) b s = record_call-half_open c t.recorded (true, is_slow c t) b s
  sync_returned _ b s = record_call-half_open c t.recorded (false, is_slow c t) b s

  async_returned :
      (o : Outcome A E) (b : Breaker)
      → b.state ≡ half_open
      → ((call_async c t (λ b'. b') o f b).0.half_open_inflight ≡ b.half_open_inflight - 1)
        ⊎ (o ≡ interrupted)
  unfolding call_async
  async_returned (returns a) b s = inl (record_call-half_open c t.recorded (true, is_slow c t) b s)
  async_returned interrupted b s = inr refl
  async_returned _ b s = inl (record_call-half_open c t.recorded (false, is_slow c t) b s)

  -- A call through a half-open breaker that no other thread touches meanwhile gives its permit
  -- back: a synchronous one however the function ends, and an awaited one unless the function ends
  -- by a `BaseException` other than `CancelledError`.
  pub permit_returned :
      (o : Outcome A E) (b : Breaker)
      → b.state ≡ half_open
      → ((execute_sync c t (λ b'. b') o f b).0.half_open_inflight ≡ b.half_open_inflight)
        × (((execute_async c t (λ b'. b') o f b).0.half_open_inflight ≡ b.half_open_inflight)
            ⊎ (o ≡ interrupted))
  unfolding execute_sync execute_async
  permit_returned o b s = elim (half_open_cases c t.asked b s) [
    | inl no_call ↦ rw no_call (refl, inl refl)
    | inr call ↦
        let b' : Breaker = record b { half_open_inflight = b.half_open_inflight + 1 } in
        let p = sync_returned o b' s in
        rw call (
          omega arith,
          (elim (async_returned o b' s) [ inl q ↦ inl (omega arith) | inr ended ↦ inr ended ]),
        )
  ]

  -- `n` awaited calls, one after the other, each ended by such a `BaseException`.
  pub interrupts : ℕ → Breaker → Breaker
  interrupts zero b = b
  interrupts (suc n) b = interrupts n (execute_async c t (λ b'. b') interrupted f b).0

full_rejects :
    (c : Config) (ts : List ℕ) (b : Breaker)
    → b.state ≡ half_open
    → b.half_open_inflight ≡ c.permitted_calls_in_half_open_state
    → All (λ answer. answer ≡ false) (answers c (asks ts) b)
unfolding answers
full_rejects c [] b s h = tt
full_rejects c (t ∷ ts) b s h =
    let same : can_execute c t b ≡ (b, false) = unfold can_execute in ground arith in
    rw same (refl, full_rejects c ts b s h)

module _ {ℓ} {A E : Type ℓ} (c : Config) (t : Times) (f : Option (Fallback A E)) where
  interrupt_leaks :
      (b : Breaker)
      → b.state ≡ half_open
      → b.half_open_inflight < c.permitted_calls_in_half_open_state
      → (execute_async c t (λ b'. b') interrupted f b).0
        ≡ record b { half_open_inflight = b.half_open_inflight + 1 }
  unfolding execute_async can_execute
  interrupt_leaks b s h = ground arith

  -- Awaited calls that end by a `BaseException` other than `CancelledError` keep their permits:
  -- once as many of them as there were free permits have ended in a half-open breaker, it refuses
  -- every later call at any time, as long as no recorded call brings it out of that state.
  pub interrupts_exhaust :
      (n : ℕ) (b : Breaker) (ts : List ℕ)
      → b.state ≡ half_open
      → b.half_open_inflight + n ≡ c.permitted_calls_in_half_open_state
      → All (λ answer. answer ≡ false) (answers c (asks ts) (interrupts c t f n b))
  unfolding interrupts
  interrupts_exhaust zero b ts s h = full_rejects c ts b s (omega arith)
  interrupts_exhaust (suc n) b ts s h = rw (interrupt_leaks b s (omega arith)) (
      interrupts_exhaust n (record b { half_open_inflight = b.half_open_inflight + 1 }) ts s
        (omega arith))
