-- ===== src/Resilience/CircuitBreaker/Invariant.antt =====
-- What every run of circuit_breaker.py keeps, and when calls are let through.
use flower_web_infrastructur.Prelude.{
  ℕ, suc, ◌+◌, ◌≤◌, ◌<◌, min, ◌≡◌, refl, ◌∙◌, true, false, List, [], ◌∷◌, All, length,
  length-append, arith, Bool, if◌then◌else◌,
}
use flower_web_infrastructur.Resilience.CircuitBreaker.{
  closed, opened, half_open, Config, window_size, Sample, Breaker, init, drop_first, append_sample,
  can_execute, record_call, Event, ask, finish, step, run,
}

abbrev is_half_open : Breaker → Bool
is_half_open b = elim b.state [ closed ↦ false | opened ↦ false | half_open ↦ true ]

abbrev one_if : Bool → ℕ
one_if true = 1
one_if false = 0

-- How many calls a run has let through in the half-open state since it was last entered, where `n` is
-- the number before the run: a call is counted by its answer alone.
unfoldable pub let_through : Config → List Event → Breaker → ℕ → ℕ
let_through c [] b n = n
let_through c (ask now ∷ es) b n =
    let (b', ok) = can_execute c now b in
    let_through c es b'
      (if is_half_open b' then (if is_half_open b then n else 0) + one_if ok else n)
let_through c (finish now x ∷ es) b n = let_through c es (record_call c now x b) n

-- `n` calls were let through since the half-open state was last entered.
pub record IsValid (c : Config) (n : ℕ) (b : Breaker) : Type 0 where
  pub bounded : length b.window ≤ window_size c
  pub permits : n ≤ c.permitted_calls_in_half_open_state
  pub counted : is_half_open b ≡ true → b.half_open_inflight ≡ n

length-drop_first : (w : List Sample) → length (drop_first w) + 1 ≤ length w + 1
length-drop_first [] = omega arith
length-drop_first (x ∷ w) = omega arith

length-append_sample-le :
    (c : Config) (x : Sample) (w : List Sample)
    → length w ≤ window_size c
    → length (append_sample c x w) ≤ window_size c
unfolding append_sample
length-append_sample-le c x [] h = ground arith
length-append_sample-le c x (y ∷ w) h = ground (arith, length-append w (x ∷ []))

can_execute-IsValid :
    (c : Config) (now n : ℕ) (b : Breaker)
    → IsValid c n b
    → IsValid c
        (if is_half_open (can_execute c now b).0
          then (if is_half_open b then n else 0) + one_if (can_execute c now b).1
          else n)
        (can_execute c now b).0
unfolding can_execute
can_execute-IsValid c now n b v =
    let h = v.counted in
    record {
      bounded = ground (arith, v.bounded);
      permits = let p = v.permits in ground (arith, p, h);
      counted = λ e. ground (arith, h, e);
    }

record_call-IsValid :
    (c : Config) (now n : ℕ) (x : Sample) (b : Breaker)
    → IsValid c n b
    → IsValid c n (record_call c now x b)
unfolding record_call
record_call-IsValid c now n x b v = record {
  bounded = ground (arith, length-append_sample-le c x b.window v.bounded);
  permits = v.permits;
  counted = λ e. let h = v.counted in ground (arith, h, e);
}

run-IsValid_from :
    (c : Config) (es : List Event) (n : ℕ) (b : Breaker)
    → IsValid c n b
    → IsValid c (let_through c es b n) (run c es b)
unfolding run let_through step
run-IsValid_from c [] n b v = v
run-IsValid_from c (ask now ∷ es) n b v =
    run-IsValid_from c es _ (can_execute c now b).0 (can_execute-IsValid c now n b v)
run-IsValid_from c (finish now x ∷ es) n b v =
    run-IsValid_from c es n (record_call c now x b) (record_call-IsValid c now n x b v)

-- However the calls of all threads interleave, a new breaker never keeps more samples than its
-- window has room for, and never lets more calls through in the half-open state, counted from when
-- that state was last entered, than the configuration permits; while it is half open its counter is
-- the number of those calls.
pub run-IsValid :
    (c : Config) (es : List Event) → IsValid c (let_through c es init 0) (run c es init)
run-IsValid c es =
    run-IsValid_from c es 0 init
      (record { bounded = omega arith; permits = omega arith; counted = λ h. absurd (cc) })

-- The clock reading of an event lies before `until`.
abbrev pub Before : ℕ → Event → Type 0
Before until (ask now) = now < until
Before until (finish now x) = now < until

-- The answers of `can_execute` along a run.
unfoldable pub answers : Config → List Event → Breaker → List Bool
unfolding step
answers c [] b = []
answers c (ask now ∷ es) b = (can_execute c now b).1 ∷ answers c es (can_execute c now b).0
answers c (finish now x ∷ es) b = answers c es (record_call c now x b)

stays_open :
    (c : Config) (e : Event) (b : Breaker)
    → b.state ≡ opened
    → Before b.open_until e
    → ((step c e b).0.state ≡ opened) × ((step c e b).0.open_until ≡ b.open_until)
unfolding step can_execute record_call
stays_open c (ask now) b o h = ground arith
stays_open c (finish now x) b o h = ground arith

-- Whatever calls are asked for or finish before the waiting time of an open breaker is over, it
-- stays open with the same waiting time and lets none of them through.
pub open_rejects :
    (c : Config) (es : List Event) (b : Breaker)
    → b.state ≡ opened
    → All (Before b.open_until) es
    → ((run c es b).state ≡ opened)
      × ((run c es b).open_until ≡ b.open_until)
      × All (λ answer. answer ≡ false) (answers c es b)
unfolding run answers
open_rejects c [] b o h = (o, refl, tt)
open_rejects c (ask now ∷ es) b o h =
    let (o', same) = stays_open c (ask now) b o h.0 in
    let (a, k, rest) = open_rejects c es (can_execute c now b).0 o' (rw same h.1) in
    (a, k ∙ same, ((unfold can_execute in ground arith), rest))
open_rejects c (finish now x ∷ es) b o h =
    let (o', same) = stays_open c (finish now x) b o h.0 in
    let (a, k, rest) = open_rejects c es (record_call c now x b) o' (rw same h.1) in
    (a, k ∙ same, rest)

-- `n` questions, one after the other, at times that `due` lists.
abbrev pub asks : List ℕ → List Event
asks [] = []
asks (t ∷ ts) = ask t ∷ asks ts

abbrev pub admitted : List Bool → ℕ
admitted [] = 0
admitted (a ∷ rest) = if a then suc (admitted rest) else admitted rest

-- One question of a half-open breaker: where it leads and what it answers.
half_open_ask :
    (c : Config) (t : ℕ) (b : Breaker)
    → b.state ≡ half_open
    → b.half_open_inflight ≤ c.permitted_calls_in_half_open_state
    → ((can_execute c t b).0.state ≡ half_open)
      × ((can_execute c t b).0.half_open_inflight
          ≡ min (suc b.half_open_inflight) c.permitted_calls_in_half_open_state)
      × (admitted ((can_execute c t b).1 ∷ []) + b.half_open_inflight
          ≡ (can_execute c t b).0.half_open_inflight)
unfolding can_execute
half_open_ask c t b o h = ground arith

half_open_answers :
    (c : Config) (ts : List ℕ) (b : Breaker)
    → b.state ≡ half_open
    → b.half_open_inflight ≤ c.permitted_calls_in_half_open_state
    → admitted (answers c (asks ts) b) + b.half_open_inflight
      ≡ min (length ts + b.half_open_inflight) c.permitted_calls_in_half_open_state
unfolding answers
half_open_answers c [] b o h = omega arith
half_open_answers c (t ∷ ts) b o h =
    let (o', n, m) = half_open_ask c t b o h in
    let ih = half_open_answers c ts (can_execute c t b).0 o' (omega arith) in ground arith

-- Once the waiting time of an open breaker is over, of any number of calls that ask before the
-- first of them has finished exactly as many as are permitted in the half-open state go through,
-- or all of them where they are fewer.
pub probes_permitted :
    (c : Config) (t : ℕ) (ts : List ℕ) (b : Breaker)
    → b.state ≡ opened
    → b.open_until ≤ t
    → admitted (answers c (asks (t ∷ ts)) b)
      ≡ min (length (t ∷ ts)) c.permitted_calls_in_half_open_state
unfolding answers
probes_permitted c t ts b o h =
    let b' : Breaker = record b { state = half_open; half_open_inflight = 0 } in
    let same : can_execute c t b ≡ can_execute c t b' = unfold can_execute in ground arith in
    rw same (let ih = half_open_answers c (t ∷ ts) b' refl (omega arith) in omega arith)
