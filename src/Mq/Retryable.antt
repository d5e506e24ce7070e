-- ===== src/Mq/Retryable.antt =====
-- capabilities/mq/retryable_consumer.py. The handler is given by how each of its attempts ends. Delays
-- are whole seconds, and a dead letter is known by its retry count; whether the broker takes it does
-- not matter, since a failure is only logged.
use flower_web_infrastructur.Prelude.{
  ℕ, subst, zero, suc, ◌+◌, ◌-◌, ◌*◌, ◌^◌, ◌<◌, ◌≡◌, refl, Bool, true, false, List, [], ◌∷◌, leb,
  arith, if◌then◌else◌, inl, inr, Bool-cases, ap,
}

pub record Config : Type 0 where
  pub max_retries : ℕ
  pub retry_backoff_seconds : ℕ

-- How an attempt ends: it returns, or raises `NonRetryableError` or another exception.
pub data Attempt : Type 0 where
  returns : Attempt
  non_retryable : Attempt
  retryable : Attempt

-- The answer, the calls of the handler, the delays between them, and the retry counts of the dead
-- letters that were sent.
pub record Trace : Type 0 where
  pub answer : Bool
  pub calls : ℕ
  pub sleeps : List ℕ
  pub dead_letters : List ℕ

abbrev pub delay : Config → ℕ → ℕ
delay c attempt = c.retry_backoff_seconds * 2 ^ attempt

abbrev pub success : Trace
success = record { answer = true; calls = 1; sleeps = []; dead_letters = [] }

abbrev pub to_dlq : ℕ → Trace
to_dlq retry_count = record {
  answer = false;
  calls = 1;
  sleeps = [];
  dead_letters = retry_count ∷ [];
}

abbrev pub after : ℕ → Trace → Trace
after d t = record {
  answer = t.answer;
  calls = suc t.calls;
  sleeps = d ∷ t.sleeps;
  dead_letters = t.dead_letters;
}

-- One turn of the loop: `rest` is what the later turns do.
abbrev pub turn : Config → ℕ → Attempt → Trace → Trace
turn c attempt returns rest = success
turn c attempt non_retryable rest = to_dlq (attempt + 1)
turn c attempt retryable rest =
    if leb c.max_retries (attempt + 1) then to_dlq (attempt + 1) else after (delay c attempt) rest

-- `for attempt in range(max_retries)`, with the number of turns that are left.
unfoldable pub loop : Config → (ℕ → Attempt) → ℕ → ℕ → Trace
loop c handler zero attempt = record { answer = false; calls = 0; sleeps = []; dead_letters = [] }
loop c handler (suc left) attempt =
    let rest = loop c handler left (suc attempt) in turn c attempt (handler attempt) rest

unfoldable pub consume : Config → (ℕ → Attempt) → Trace
unfolding loop
consume c handler = loop c handler c.max_retries 0

-- How the last attempt, of index `n`, ends the loop.
abbrev pub Final : Config → ℕ → Attempt → Trace → Type 0
Final c n returns t = (t.answer ≡ true) × (t.dead_letters ≡ [])
Final c n non_retryable t = (t.answer ≡ false) × (t.dead_letters ≡ suc n ∷ [])
Final c n retryable t = (t.answer ≡ false) × (t.dead_letters ≡ suc n ∷ []) × (suc n ≡ c.max_retries)

abbrev pub backoffs : Config → ℕ → ℕ → List ℕ
backoffs c i zero = []
backoffs c i (suc k) = delay c i ∷ backoffs c (suc i) k

abbrev pub AllRetryable : (ℕ → Attempt) → ℕ → ℕ → Type 0
AllRetryable handler i zero = Unit
AllRetryable handler i (suc k) = (handler i ≡ retryable) × AllRetryable handler (suc i) k

-- The trace from attempt `i` on: `k` attempts that are retried, and the last one, `n`.
pub record Follows (c : Config) (handler : ℕ → Attempt) (i : ℕ) (t : Trace) (k n : ℕ) : Type 0 where
  pub index : i + k ≡ n
  pub within : n < c.max_retries
  pub counted : t.calls ≡ k + 1
  pub slept : t.sleeps ≡ backoffs c i k
  pub before : AllRetryable handler i k
  pub final : Final c n (handler n) t

module _ (c : Config) (handler : ℕ → Attempt) where
  at_once :
      (i : ℕ) (t : Trace)
      → i < c.max_retries
      → t.calls ≡ 1
      → t.sleeps ≡ []
      → Final c i (handler i) t
      → Follows c handler i t 0 i
  at_once i t h one quiet f = record {
    index = omega arith;
    within = h;
    counted = omega arith;
    slept = quiet;
    before = tt;
    final = f;
  }

  later :
      (i k n : ℕ) (t : Trace)
      → handler i ≡ retryable
      → Follows c handler (suc i) t k n
      → Follows c handler i (after (delay c i) t) (suc k) n
  later i k n t r v = record {
    index = omega (arith, v.index);
    within = v.within;
    counted = omega (arith, v.counted);
    slept = ap (λ (l : List ℕ). delay c i ∷ l) v.slept;
    before = (r, v.before);
    final = keep_final n (handler n) t v.final;
  }
    where
      keep_final :
          (j : ℕ) (a : Attempt) (u : Trace) → Final c j a u → Final c j a (after (delay c i) u)
      keep_final j returns u f = f
      keep_final j non_retryable u f = f
      keep_final j retryable u f = f

  turn-Follows :
      (i : ℕ) (a : Attempt) (rest : Trace)
      → handler i ≡ a
      → i < c.max_retries
      → (suc i < c.max_retries → (k : ℕ) × (n : ℕ) × Follows c handler (suc i) rest k n)
      → (k : ℕ) × (n : ℕ) × Follows c handler i (turn c i a rest) k n
  turn-Follows i returns rest e h ih = (0, i, at_once i success h refl refl (rw e (refl, refl)))
  turn-Follows i non_retryable rest e h ih = (
    0,
    i,
    at_once i (to_dlq (i + 1)) h refl refl (rw e (refl, ap (λ (m : ℕ). m ∷ []) (omega arith))),
  )
  turn-Follows i retryable rest e h ih = elim (Bool-cases (leb c.max_retries (i + 1))) [
    | inl last ↦ rw last (
      0,
      i,
      at_once i (to_dlq (i + 1)) h refl refl
          (rw e (refl, ap (λ (m : ℕ). m ∷ []) (omega arith), ground arith)),
    )
    | inr more ↦ let (k, n, v) = ih (ground arith) in rw more (suc k, n, later i k n rest e v)
  ]

  loop-Follows :
      (left i : ℕ)
      → i + suc left ≡ c.max_retries
      → (k : ℕ) × (n : ℕ) × Follows c handler i (loop c handler (suc left) i) k n
  unfolding loop
  loop-Follows zero i h =
      turn-Follows i (handler i) (loop c handler zero (suc i)) refl (omega arith)
        (λ m. absurd (omega arith))
  loop-Follows (suc left) i h =
      turn-Follows i (handler i) (loop c handler (suc left) (suc i)) refl (omega arith)
        (λ m. loop-Follows left (suc i) (omega arith))

  loop-Follows_from :
      (left : ℕ)
      → suc left ≡ c.max_retries
      → (n : ℕ) × Follows c handler 0 (loop c handler c.max_retries 0) n n
  loop-Follows_from left e =
      let (k, n, v) =
        subst (λ (m : ℕ). (k : ℕ) × (n : ℕ) × Follows c handler 0 (loop c handler m 0) k n) e
          (loop-Follows left 0 (omega arith)) in
      (
        n,
        subst (λ (j : ℕ). Follows c handler 0 (loop c handler c.max_retries 0) j n)
            (omega (arith, v.index)) v,
      )

  -- With at least one retry the consumer makes some number `n + 1` of calls, at most `max_retries`:
  -- the first `n` failed with retryable errors, each followed by a delay that doubles, and the last
  -- decides. It returned, and the answer is true with no dead letter; or it failed, for good or as the
  -- last one allowed, and the answer is false with exactly one dead letter, of retry count `n + 1`.
  pub consume-Follows : 0 < c.max_retries → (n : ℕ) × Follows c handler 0 (consume c handler) n n
  unfolding consume
  consume-Follows h = loop-Follows_from (c.max_retries - 1) (omega arith)

-- Where no retries are configured the message is given up without a call of the handler and without a
-- dead letter.
pub consume-zero :
    (c : Config) (handler : ℕ → Attempt)
    → c.max_retries ≡ 0
    → ((consume c handler).calls ≡ 0)
      × ((consume c handler).dead_letters ≡ [])
      × ((consume c handler).answer ≡ false)
unfolding consume
consume-zero c handler h = rw h (refl, refl, refl)
