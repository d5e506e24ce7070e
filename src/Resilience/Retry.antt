-- ===== src/Resilience/Retry.antt =====
-- infra/resilience/retry.py. The decorated function is given by how each of its attempts ends; the
-- synchronous and the awaited wrapper run the same loop. Delays are whole ticks, and the backoff
-- factor is a whole number. `max_retries` is not negative.
use flower_web_infrastructur.Prelude.{
  ℕ, zero, suc, ◌+◌, ◌*◌, ◌^◌, ◌≤◌, ◌<◌, ◌≡◌, ◌≢◌, refl, ap, Bool, true, false, not, ◌||◌, List, [],
  ◌∷◌, ◌⊎◌, inl, inr, leb, arith, if◌then◌else◌, Bool-cases,
}

pub record RetryConfig : Type 0 where
  pub max_retries : ℕ
  pub base_delay : ℕ
  pub backoff_factor : ℕ

-- The kinds of exception that `_is_transient` tells apart; the two of httpx count only where
-- httpx can be imported.
pub data Exception : Type 0 where
  connection_error timeout_error httpx_timeout httpx_transport other_error : Exception

unfoldable pub is_transient : Bool → Exception → Bool
is_transient httpx connection_error = true
is_transient httpx timeout_error = true
is_transient httpx httpx_timeout = httpx
is_transient httpx httpx_transport = httpx
is_transient httpx other_error = false

-- How an attempt ends; a `BaseException` that is no `Exception` is not caught.
pub data Attempt {ℓ} (A E : Type ℓ) : Type ℓ where
  returns : A → Attempt A E
  raises : E → Attempt A E
  interrupted : Attempt A E

-- How the wrapper ends. `assertion_error` stands for the lines behind the loop.
pub data Answer {ℓ} (A E : Type ℓ) : Type ℓ where
  returned : A → Answer A E
  raised : E → Answer A E
  raised_interrupt : Answer A E
  assertion_error : Answer A E

-- The answer, the number of calls made, and the delays slept through in their order.
pub record Trace {ℓ} (A E : Type ℓ) : Type ℓ where
  pub answer : Answer A E
  pub calls : ℕ
  pub sleeps : List ℕ

abbrev pub delay : RetryConfig → ℕ → ℕ
delay c attempt = c.base_delay * c.backoff_factor ^ attempt

module _ {ℓ} {A E : Type ℓ} (c : RetryConfig) (retry_on : E → Bool) (func : ℕ → Attempt A E) where
  abbrev pub ends : Answer A E → Trace A E
  ends a = record { answer = a; calls = 1; sleeps = [] }

  abbrev pub sleep : ℕ → Trace A E → Trace A E
  sleep d t = record { answer = t.answer; calls = suc t.calls; sleeps = d ∷ t.sleeps }

  -- One turn of the loop: `rest` is what the later turns do.
  abbrev pub turn : ℕ → Attempt A E → Trace A E → Trace A E
  turn attempt (returns a) rest = ends (returned a)
  turn attempt (raises e) rest =
      if leb c.max_retries attempt || not (retry_on e)
      then ends (raised e)
      else sleep (delay c attempt) rest
  turn attempt interrupted rest = ends raised_interrupt

  -- `for attempt in range(...)`, with the number of turns that are left.
  unfoldable pub loop : ℕ → ℕ → Trace A E
  loop zero attempt = record { answer = assertion_error; calls = 0; sleeps = [] }
  loop (suc left) attempt = let rest = loop left (suc attempt) in turn attempt (func attempt) rest

  pub wrapper : Trace A E
  wrapper = loop (suc c.max_retries) 0

  -- How the last attempt, of index `n`, is answered: its value, its interrupt, or its exception
  -- where that is not to be retried or the retries are used up.
  abbrev pub Final : ℕ → Attempt A E → Answer A E → Type ℓ
  Final n (returns a) r = r ≡ returned a
  Final n (raises e) r = (r ≡ raised e) × ((n ≡ c.max_retries) ⊎ (retry_on e ≡ false))
  Final n interrupted r = r ≡ raised_interrupt

  abbrev pub Retryable : Attempt A E → Type 0
  Retryable (raises e) = retry_on e ≡ true
  Retryable _ = ⊥

  -- The delays of the attempts from `i` on, `k` of them.
  abbrev pub backoffs : ℕ → ℕ → List ℕ
  backoffs i zero = []
  backoffs i (suc k) = delay c i ∷ backoffs (suc i) k

  -- `k` attempts from `i` on fail with exceptions that are to be retried.
  abbrev pub AllRetryable : ℕ → ℕ → Type 0
  AllRetryable i zero = Unit
  AllRetryable i (suc k) = Retryable (func i) × AllRetryable (suc i) k

  -- The trace from attempt `i` on: `k` retries and the last attempt, `n`.
  pub record Follows (i : ℕ) (t : Trace A E) (k n : ℕ) : Type ℓ where
    pub index : i + k ≡ n
    pub within : n ≤ c.max_retries
    pub counted : t.calls ≡ k + 1
    pub slept : t.sleeps ≡ backoffs i k
    pub before : AllRetryable i k
    pub final : Final n (func n) t.answer

  ends-Follows :
      (i : ℕ) (r : Answer A E) → i ≤ c.max_retries → Final i (func i) r → Follows i (ends r) 0 i
  ends-Follows i r h f = record {
    index = omega arith;
    within = h;
    counted = omega arith;
    slept = refl;
    before = tt;
    final = f;
  }

  sleep-Follows :
      (i k n : ℕ) (t : Trace A E)
      → Retryable (func i)
      → Follows (suc i) t k n
      → Follows i (sleep (delay c i) t) (suc k) n
  sleep-Follows i k n t r v = record {
    index = omega (arith, v.index);
    within = v.within;
    counted = omega (arith, v.counted);
    slept = ap (λ (l : List ℕ). delay c i ∷ l) v.slept;
    before = (r, v.before);
    final = v.final;
  }

  turn-Follows :
      (i : ℕ) (a : Attempt A E) (rest : Trace A E)
      → func i ≡ a
      → i ≤ c.max_retries
      → (i < c.max_retries → (k : ℕ) × (n : ℕ) × Follows (suc i) rest k n)
      → (k : ℕ) × (n : ℕ) × Follows i (turn i a rest) k n
  turn-Follows i (returns a) rest e h ih = (0, i, ends-Follows i (returned a) h (rw e refl))
  turn-Follows i interrupted rest e h ih = (0, i, ends-Follows i raised_interrupt h (rw e refl))
  turn-Follows i (raises x) rest e h ih = elim (Bool-cases (leb c.max_retries i)) [
    | inl last ↦ rw last (0, i, ends-Follows i (raised x) h (rw e (refl, inl (ground arith))))
    | inr more ↦ elim (Bool-cases (retry_on x)) [
      | inr no_retry ↦
          rw (more, no_retry) (0, i, ends-Follows i (raised x) h (rw e (refl, inr no_retry)))
      | inl retry ↦
          let (k, n, v) = ih (ground arith) in
          rw (more, retry) (suc k, n, sleep-Follows i k n rest (rw e retry) v)
    ]
  ]

  loop-Follows :
      (left i : ℕ)
      → i + left ≡ c.max_retries
      → (k : ℕ) × (n : ℕ) × Follows i (loop (suc left) i) k n
  unfolding loop
  loop-Follows zero i h =
      turn-Follows i (func i) (loop zero (suc i)) refl (omega arith) (λ m. absurd (omega arith))
  loop-Follows (suc left) i h =
      turn-Follows i (func i) (loop (suc left) (suc i)) refl (omega arith)
        (λ m. loop-Follows left (suc i) (omega arith))

  Final-answers : (n : ℕ) (a : Attempt A E) (r : Answer A E) → Final n a r → r ≢ assertion_error
  Final-answers n (returns a) r f = λ e. cc
  Final-answers n (raises x) r f = λ e. let g = f.0 in cc
  Final-answers n interrupted r f = λ e. cc

  -- The wrapper makes some number `n + 1` of calls, at most `max_retries + 1`: the first `n` failed
  -- with exceptions to be retried, each followed by a sleep of `base_delay * backoff_factor ** i`,
  -- and the last decides the answer. That is its value, its interrupt, or its exception if this is
  -- not to be retried or the retries are used up. The lines behind the loop are never reached.
  pub wrapper-Follows : (n : ℕ) × Follows 0 wrapper n n × (wrapper.answer ≢ assertion_error)
  unfolding wrapper
  wrapper-Follows =
      let (k, n, v) = loop-Follows c.max_retries 0 (omega arith) in
      let e : k ≡ n = omega (arith, v.index) in
      (n, rw e at v, Final-answers n (func n) (loop (suc c.max_retries) 0).answer v.final)
