-- ===== src/Ai/Quota/Passes.antt =====
-- How many calls the quotas of Ai/Quota.antt let pass in one window.
use flower_web_infrastructur.Prelude.{
  ℕ, ◌+◌, ◌≤◌, ◌<◌, ◌≡◌, ◌⊎◌, inl, inr, refl, Bool, true, false, ◌&&◌, ◌||◌, Option, none, some,
  pair_beq_iff, List, [], ◌∷◌, leb, string_eq, pair_eq, ◌==◌, All, arith, if◌then◌else◌, Bool-cases,
}
use flower_web_infrastructur.Prelude.Dict
use flower_web_infrastructur.Prelude.Dict.{Dict, get-put, get-put_self}
use flower_web_infrastructur.Ai.Quota.{
  QuotaCounter, Key, QuotaStore, drop_expired, counted, incr, QuotaConfig, Reply, judge,
  check_and_consume, consume_usage, allowed, value_error, rate_limited, quota_exhausted,
}

drop_expired-get :
    (now : ℕ) (key : Key) (c : QuotaCounter) (t : ℕ) (s : QuotaStore)
    → now < t
    → Dict.get key s ≡ some (c, t)
    → Dict.get key (drop_expired now s) ≡ some (c, t)
unfolding drop_expired
drop_expired-get now key c t [] m h = cc
drop_expired-get now key c t ((k, (c', t')) ∷ s) m h =
    ground (arith, drop_expired-get now key c t s)

-- The calls and the end of the window that a key has, if its window is open.
abbrev calls_of : Option (QuotaCounter × ℕ) → ℕ
calls_of none = 0
calls_of (some (c, t)) = c.calls

-- A call of check_and_consume (`checks`) or of consume_usage.
pub record Use : Type 0 where
  pub now : ℕ
  pub key : Key
  pub checks : Bool
  pub tokens : ℕ
  pub cost : ℕ

unfoldable pub apply : QuotaConfig → Use → QuotaStore → QuotaStore × Reply
apply cfg u s =
    if u.checks
    then check_and_consume cfg u.now u.key u.tokens u.cost s
    else consume_usage cfg u.now u.key u.tokens u.cost s

abbrev is_allowed : Reply → Bool
is_allowed allowed = true
is_allowed value_error = false
is_allowed rate_limited = false
is_allowed quota_exhausted = false

-- How many checks of a key pass.
unfoldable pub passes : QuotaConfig → Key → List Use → QuotaStore → ℕ
passes cfg key [] s = 0
passes cfg key (u ∷ us) s =
    let (s', r) = apply cfg u s in
    let rest = passes cfg key us s' in
    if u.key == key && (u.checks && is_allowed r) then rest + 1 else rest

abbrev added : QuotaCounter → QuotaCounter → QuotaCounter
added c used = record {
  calls = c.calls + used.calls;
  tokens = c.tokens + used.tokens;
  cost = c.cost + used.cost;
}

incr-other :
    (now : ℕ) (j key : Key) (used : QuotaCounter) (window : ℕ) (c : QuotaCounter) (t : ℕ)
    (s : QuotaStore)
    → now < t
    → Dict.get key s ≡ some (c, t)
    → (j == key) ≡ false
    → Dict.get key (incr now j used window s).0 ≡ some (c, t)
unfolding incr
incr-other now j key used window c t s m h other =
    rw
      (
        get-put j key (counted now used window (Dict.get j (drop_expired now s)))
            (drop_expired now s),
        other,
      )
      (drop_expired-get now key c t s m h)

incr-same :
    (now : ℕ) (key : Key) (used : QuotaCounter) (window : ℕ) (c : QuotaCounter) (t : ℕ)
    (s : QuotaStore)
    → now < t
    → Dict.get key s ≡ some (c, t)
    → (Dict.get key (incr now key used window s).0 ≡ some (added c used, t))
      × ((incr now key used window s).1 ≡ added c used)
unfolding incr counted
incr-same now key used window c t s m h =
    let later : leb t now ≡ false = ground arith in
    rw (drop_expired-get now key c t s m h, later)
      (get-put_self key (added c used, t) (drop_expired now s), refl)

-- What a call under the key `j` makes of the counter `c` of a key whose window ends at `t`.
abbrev Counts : QuotaConfig → Key → Key → Bool → QuotaCounter → ℕ → QuotaStore → Reply → Type 0
Counts cfg j key checks c t s r =
    (c' : QuotaCounter) × (Dict.get key s ≡ some (c', t))
    × (c.calls ≤ c'.calls)
    × (((j == key && (checks && is_allowed r)) ≡ false)
        ⊎ ((c'.calls ≡ c.calls + 1) × (c'.calls ≤ cfg.max_calls)))

judge-allowed :
    (cfg : QuotaConfig) (c : QuotaCounter)
    → 0 < cfg.max_calls
    → (is_allowed (judge cfg c) ≡ false) ⊎ (c.calls ≤ cfg.max_calls)
unfolding judge
judge-allowed cfg c h = ground arith

module _ (cfg : QuotaConfig) (now : ℕ) (j key : Key) (tokens cost : ℕ) (c : QuotaCounter) (t : ℕ)
    (s : QuotaStore) (positive : 0 < cfg.max_calls) (m : now < t)
    (h : Dict.get key s ≡ some (c, t)) where
  check_and_consume-Counts :
      Counts cfg j key true c t
        (check_and_consume cfg now j tokens cost s).0
        (check_and_consume cfg now j tokens cost s).1
  unfolding check_and_consume
  check_and_consume-Counts = elim (Bool-cases (j.0 == "" || j.1 == "")) [
    | inl bad ↦ rw bad (c, h, omega arith, inl (ground arith))
    | inr good ↦ rw good (elim (Bool-cases (j == key)) [
      | inr other ↦ (
        c,
        incr-other now j key _ cfg.window_seconds c t s m h other,
        omega arith,
        inl (rw other refl),
      )
      | inl same ↦
          let e : j ≡ key = (pair_beq_iff j key).0 same in
          rw e (
            let used : QuotaCounter = record { calls = 1; tokens = tokens; cost = cost } in
            let (f, g) = incr-same now key used cfg.window_seconds c t s m h in
            (
              added c used,
              f,
              omega arith,
              elim (judge-allowed cfg (added c used) positive) [
                | inl over ↦ inl (rw (g, over) (ground arith))
                | inr fits ↦ inr (omega arith, fits)
              ],
            ))
    ])
  ]

  consume_usage-Counts :
      Counts cfg j key false c t
        (consume_usage cfg now j tokens cost s).0
        (consume_usage cfg now j tokens cost s).1
  unfolding consume_usage
  consume_usage-Counts = elim (Bool-cases (j.0 == "" || j.1 == "")) [
    | inl bad ↦ rw bad (c, h, omega arith, inl (ground arith))
    | inr good ↦ rw good (elim (Bool-cases (j == key)) [
      | inr other ↦ (
        c,
        incr-other now j key _ cfg.window_seconds c t s m h other,
        omega arith,
        inl (rw other refl),
      )
      | inl same ↦
          let e : j ≡ key = (pair_beq_iff j key).0 same in
          rw e (
            let used : QuotaCounter = record { calls = 0; tokens = tokens; cost = cost } in
            let (f, g) = incr-same now key used cfg.window_seconds c t s m h in
            (added c used, f, omega arith, inl (ground arith)))
    ])
  ]

apply-Counts :
    (cfg : QuotaConfig) (u : Use) (key : Key) (c : QuotaCounter) (t : ℕ) (s : QuotaStore)
    → 0 < cfg.max_calls
    → u.now < t
    → Dict.get key s ≡ some (c, t)
    → Counts cfg u.key key u.checks c t (apply cfg u s).0 (apply cfg u s).1
unfolding apply
apply-Counts cfg u key c t s positive m h = by_kind u.checks
  where
    by_kind :
        (b : Bool)
        → Counts cfg u.key key b c t
            (if b
              then check_and_consume cfg u.now u.key u.tokens u.cost s
              else consume_usage cfg u.now u.key u.tokens u.cost s).0
            (if b
              then check_and_consume cfg u.now u.key u.tokens u.cost s
              else consume_usage cfg u.now u.key u.tokens u.cost s).1
    by_kind true = check_and_consume-Counts cfg u.now u.key key u.tokens u.cost c t s positive m h
    by_kind false = consume_usage-Counts cfg u.now u.key key u.tokens u.cost c t s positive m h

-- Where a limit on calls is set and a key has an open window, then whatever is called before the
-- window ends, under this key and others and in any order, either no check of the key passes, or the
-- checks that pass and the calls counted before are together at most the limit.
pub passes-bounded :
    (cfg : QuotaConfig) (key : Key) (c : QuotaCounter) (t : ℕ) (us : List Use) (s : QuotaStore)
    → 0 < cfg.max_calls
    → Dict.get key s ≡ some (c, t)
    → All (λ (u : Use). u.now < t) us
    → (passes cfg key us s ≡ 0) ⊎ (passes cfg key us s + c.calls ≤ cfg.max_calls)
unfolding passes
passes-bounded cfg key c t [] s positive h before = inl refl
passes-bounded cfg key c t (u ∷ us) s positive h before =
    let (c', kept, grows, counted) = apply-Counts cfg u key c t s positive before.0 h in
    let rest = passes-bounded cfg key c' t us (apply cfg u s).0 positive kept before.1 in
    elim counted [ inl quiet ↦ rw quiet (ground arith) | inr (one, fits) ↦ ground arith ]
