-- ===== src/Resilience/TokenBucket.antt =====
-- infra/resilience/token_bucket_rate_limiter.py and rate_limit_config.py. Time is counted in ticks
-- and tokens in whole units, `qps` units to a tick, where the source has floats; a wait is the
-- fraction that the source divides out. The lock makes each method atomic.
use flower_web_infrastructur.Prelude.{
  ℕ, ◌+◌, ◌-◌, ◌*◌, ◌≤◌, min, ◌≡◌, ◌↔◌, refl, ap, ◌∙◌, Bool-cases, inl, inr, Bool, true, false,
  List, [], ◌∷◌, leb, arith, if◌then◌else◌,
}

pub record Config : Type 0 where
  pub qps : ℕ
  pub burst : ℕ

pub record Limiter : Type 0 where
  pub capacity : ℕ
  pub tokens : ℕ
  pub last_refill : ℕ

unfoldable pub init : Config → ℕ → Limiter
init c now = record { capacity = c.burst; tokens = c.burst; last_refill = now }

unfoldable pub refill : Config → ℕ → Limiter → Limiter
refill c now l = record l {
  tokens = min l.capacity (l.tokens + (now - l.last_refill) * c.qps);
  last_refill = now;
}

unfoldable pub try_acquire : Config → ℕ → ℕ → Limiter → Limiter × Bool
unfolding refill
try_acquire c now tokens l =
    let l' = refill c now l in
    if leb tokens l'.tokens then (record l' { tokens = l'.tokens - tokens }, true) else (l', false)

unfoldable pub acquire_or_false : Config → ℕ → Limiter → Limiter × Bool
unfolding try_acquire
acquire_or_false c now l = try_acquire c now 1 l

-- The answer of `retry_after_seconds`: 0.0, infinity, or the quotient of two numbers.
pub data Wait : Type 0 where
  none_needed : Wait
  never : Wait
  ratio : ℕ → ℕ → Wait

unfoldable pub retry_after_seconds : Config → ℕ → ℕ → Limiter → Limiter × Wait
unfolding refill
retry_after_seconds c now tokens l =
    let l' = refill c now l in
    let deficit = tokens - l'.tokens in
    if leb tokens l'.tokens
    then (l', none_needed)
    else if leb c.qps 0
    then (l', never)
    else (l', ratio deficit c.qps)

pub record IsValid (l : Limiter) : Type 0 where
  pub within : l.tokens ≤ l.capacity

-- A request: when it comes, and how many tokens it asks for.
abbrev pub Request : Type 0
Request = ℕ × ℕ

-- The limiter after a series of requests, and the tokens it handed out.
unfoldable pub serve : Config → List Request → Limiter → Limiter × ℕ
serve c [] l = (l, 0)
serve c ((now, n) ∷ rs) l =
    let (l', ok) = try_acquire c now n l in
    let (l'', granted) = serve c rs l' in (l'', (if ok then n else 0) + granted)

-- The clock is monotonic.
abbrev pub InOrder : ℕ → List Request → Type 0
InOrder t [] = Unit
InOrder t ((now, n) ∷ rs) = (t ≤ now) × InOrder now rs

-- The time of the last request, or `t` where there is none.
abbrev pub end_time : ℕ → List Request → ℕ
end_time t [] = t
end_time t ((now, n) ∷ rs) = end_time now rs

try_acquire_account :
    (c : Config) (now n : ℕ) (l : Limiter)
    → IsValid l
    → l.last_refill ≤ now
    → let (l', ok) = try_acquire c now n l in
      IsValid l'
      × (l'.last_refill ≡ now)
      × (l'.capacity ≡ l.capacity)
      × ((if ok then n else 0) + l'.tokens ≤ l.tokens + (now - l.last_refill) * c.qps)
unfolding try_acquire
try_acquire_account c now n l v h = (ground arith, ground arith, ground arith, ground arith)

end_time-le : (t : ℕ) (rs : List Request) → InOrder t rs → t ≤ end_time t rs
end_time-le t [] o = omega arith
end_time-le t ((now, n) ∷ rs) o = omega (arith, end_time-le now rs o.1)

distrib : (a b d q : ℕ) → a ≤ b → b ≤ d → (b - a) * q + (d - b) * q ≡ (d - a) * q
distrib a b d q h k =
    let m : ℕ = b - a in
    let n : ℕ = d - b in let e : d - a ≡ m + n = omega arith in rw e (omega arith)

serve_account :
    (c : Config) (rs : List Request) (l : Limiter)
    → IsValid l
    → InOrder l.last_refill rs
    → let (l', granted) = serve c rs l in
      IsValid l'
      × (l'.capacity ≡ l.capacity)
      × (granted + l'.tokens ≤ l.tokens + (end_time l.last_refill rs - l.last_refill) * c.qps)
unfolding serve
serve_account c [] l v o = (v, refl, omega arith)
serve_account c ((now, n) ∷ rs) l v o =
    let (v', at, cap, account) = try_acquire_account c now n l v o.0 in
    let l' : Limiter = (try_acquire c now n l).0 in
    let (v'', cap', account') = serve_account c rs l' v' (rw at o.1) in
    let end : end_time l'.last_refill rs ≡ end_time now rs = ap (λ t. end_time t rs) at in
    let d = distrib l.last_refill now (end_time now rs) c.qps o.0 (end_time-le now rs o.1) in
    let account'' : (serve c rs l').1 + (serve c rs l').0.tokens
        ≤ l'.tokens + (end_time now rs - now) * c.qps =
      rw at at (rw end at account') in
    (v'', cap' ∙ cap, omega (arith, d))

-- Whatever is asked for, a new limiter never hands out more tokens than its burst and what it
-- refills from its start to the last request; what is left never exceeds the burst.
pub serve-granted-le :
    (c : Config) (start : ℕ) (rs : List Request)
    → InOrder start rs
    → let (l', granted) = serve c rs (init c start) in
      (granted + l'.tokens ≤ c.burst + (end_time start rs - start) * c.qps) × (l'.tokens ≤ c.burst)
unfolding init
serve-granted-le c start rs o =
    let l : Limiter = init c start in
    let (v, cap, account) = serve_account c rs l (omega arith) o in (account, rw cap at v.within)

-- What an answer of `retry_after_seconds` foretells of a request that comes `wait` ticks later.
abbrev pub Foretells : Wait → ℕ → Bool → Type 0
Foretells none_needed wait ok = ok ≡ true
Foretells never wait ok = ok ≡ false
Foretells (ratio d q) wait ok = (ok ≡ true) ↔ (d ≤ wait * q)

-- After `retry_after_seconds` a request for as many tokens, no more than the bucket can hold, that
-- comes `wait` ticks later and finds no other request in between succeeds if no wait was asked
-- for, fails if the answer was infinity, and otherwise succeeds exactly if `wait` is at least the
-- quotient that was answered.
pub retry_after-exact :
    (c : Config) (now n wait : ℕ) (l : Limiter)
    → IsValid l
    → n ≤ l.capacity
    → let (l', answer) = retry_after_seconds c now n l in
      Foretells answer wait (try_acquire c (now + wait) n l').1
unfolding retry_after_seconds try_acquire
retry_after-exact c now n wait l v h = elim (Bool-cases (leb n (refill c now l).tokens)) [
  | inl enough ↦ rw enough (ground arith)
  | inr short ↦ elim (Bool-cases (leb c.qps 0)) [
    | inl dry ↦ rw (short, dry) (let z : c.qps ≡ 0 = ground arith in ground arith)
    | inr flows ↦ rw (short, flows) ((λ ok. ground arith), (λ long. ground arith))
  ]
]
