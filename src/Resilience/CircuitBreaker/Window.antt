-- ===== src/Resilience/CircuitBreaker/Window.antt =====
-- The window of circuit_breaker.py against the whole history of samples since it was last cleared.
use flower_web_infrastructur.Prelude.{
  ℕ, zero, suc, ◌+◌, ◌-◌, ◌*◌, ◌≤◌, ◌≡◌, refl, true, false, List, [], ◌∷◌, ◌++◌, length,
  length-append, arith, count_if, ltb, ◌↔◌, ◌⊎◌, Bool-cases, inl, inr,
}
use flower_web_infrastructur.Resilience.CircuitBreaker.{
  closed, opened, Config, window_size, Sample, Breaker, drop_first, append_sample, exceeds,
  evaluate, record_call, failed, slow,
}

abbrev drop : ℕ → List Sample → List Sample
drop zero w = w
drop (suc n) [] = []
drop (suc n) (x ∷ w) = drop n w

-- The last `n` samples of a history.
abbrev pub last : ℕ → List Sample → List Sample
last n h = drop (length h - n) h

length-drop : (n : ℕ) (h : List Sample) → length (drop n h) ≡ length h - n
length-drop zero h = omega arith
length-drop (suc n) [] = omega arith
length-drop (suc n) (x ∷ h) = omega (arith, length-drop n h)

drop-append :
    (n : ℕ) (h : List Sample) (x : Sample)
    → n ≤ length h
    → drop n (h ++ x ∷ []) ≡ drop n h ++ x ∷ []
drop-append zero h x k = refl
drop-append (suc n) [] x k = absurd (omega arith)
drop-append (suc n) (y ∷ h) x k = drop-append n h x (omega arith)

drop_first-drop : (n : ℕ) (h : List Sample) → drop_first (drop n h) ≡ drop (suc n) h
drop_first-drop zero [] = refl
drop_first-drop zero (x ∷ h) = refl
drop_first-drop (suc n) [] = refl
drop_first-drop (suc n) (x ∷ h) = drop_first-drop n h

-- A window that holds the last samples of a history holds the last samples of the longer history
-- after one more sample.
pub append_sample-last :
    (c : Config) (x : Sample) (h : List Sample)
    → append_sample c x (last (window_size c) h) ≡ last (window_size c) (h ++ x ∷ [])
unfolding append_sample
append_sample-last c x h = elim (Bool-cases (ltb (length h) (window_size c))) [
  | inl short ↦
      let e : length h - window_size c ≡ 0 = ground arith in
      let e' : length (h ++ x ∷ []) - window_size c ≡ 0 =
        ground (arith, length-append h (x ∷ [])) in
      rw (e, e', short)
  | inr full ↦
      let n : ℕ = length h - window_size c in
      let e : ltb (length (drop n h)) (window_size c) ≡ false = ground (arith, length-drop n h) in
      let e' : length (h ++ x ∷ []) - window_size c ≡ suc n =
        ground (arith, length-append h (x ∷ [])) in
      rw (e, e', ← drop-append n h x (omega arith)) (drop_first-drop n (h ++ x ∷ []))
]

-- The error rate or the slow-call rate of the samples has reached its threshold, and there are
-- enough of them to judge.
abbrev pub Trips : Config → List Sample → Type 0
Trips c w =
    (c.minimum_number_of_calls ≤ length w)
    × ((c.failure_rate_num * length w ≤ count_if failed w * c.failure_rate_den)
        ⊎ (c.slow_call_rate_num * length w ≤ count_if slow w * c.slow_call_rate_den))

exceeds_iff :
    (c : Config) (w : List Sample)
    → (exceeds c w ≡ true) ↔ (
        (c.failure_rate_num * length w ≤ count_if failed w * c.failure_rate_den)
        ⊎ (c.slow_call_rate_num * length w ≤ count_if slow w * c.slow_call_rate_den))
unfolding exceeds
exceeds_iff c w = ground arith

-- The breaker `b'` opened at `now`, and the samples `w` trip it; or it stayed closed, and they do
-- not.
abbrev pub Judged : Config → ℕ → List Sample → Breaker → Type 0
Judged c now w b' =
    (Trips c w × (b'.state ≡ opened) × (b'.open_until ≡ now + c.wait_duration_in_open_state))
    ⊎ (¬ Trips c w × (b'.state ≡ closed))

evaluate-Judged :
    (c : Config) (now : ℕ) (b : Breaker)
    → b.state ≡ closed
    → Judged c now b.window (evaluate c now b) × ((evaluate c now b).window ≡ b.window)
unfolding evaluate
evaluate-Judged c now b o = elim (Bool-cases (ltb (length b.window) c.minimum_number_of_calls)) [
  | inl few ↦ (inr ((λ t. absurd (ground (arith, t.0))), ground arith), ground arith)
  | inr enough ↦ elim (Bool-cases (exceeds c b.window)) [
    | inl over ↦ (
      inl ((ground arith, (exceeds_iff c b.window).0 over), ground arith, ground arith),
      ground arith,
    )
    | inr under ↦ (
      inr ((λ t. absurd (let e = (exceeds_iff c b.window).1 t.1 in cc)), ground arith),
      ground arith,
    )
  ]
]

-- A closed breaker whose window holds the last samples of a history `h` holds after one more
-- sample the last samples of the longer history. It opens, for the configured wait from `now`, if
-- there are enough of those and their error rate or slow-call rate has reached its threshold, and
-- stays closed otherwise.
pub record_call-Judged :
    (c : Config) (now : ℕ) (x : Sample) (b : Breaker) (h : List Sample)
    → b.state ≡ closed
    → b.window ≡ last (window_size c) h
    → Judged c now (last (window_size c) (h ++ x ∷ [])) (record_call c now x b)
      × ((record_call c now x b).window ≡ last (window_size c) (h ++ x ∷ []))
unfolding record_call
record_call-Judged c now x b h o held =
    let b' : Breaker = record b { window = last (window_size c) (h ++ x ∷ []) } in
    let same : record_call c now x b ≡ evaluate c now b' =
      ground (arith, append_sample-last c x h) in
    rw same (evaluate-Judged c now b' o)
