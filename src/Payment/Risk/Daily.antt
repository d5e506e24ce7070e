-- ===== src/Payment/Risk/Daily.antt =====
-- What the guard of Payment/Risk.antt promises of the daily limit, and what its store does to the counts
-- of long windows.
use flower_web_infrastructur.Prelude.{
  ℕ, ◌+◌, ◌≤◌, ◌<◌, ◌≡◌, ◌⊎◌, inl, inr, refl, Bool, true, false, ◌&&◌, none, some, List, [], ◌∷◌,
  String, nat_beq, nat_eq, string_eq, pair_eq, ◌==◌, subst, arith, if◌then◌else◌, Bool-cases,
  pair_beq_iff,
}
use flower_web_infrastructur.Prelude.Dict
use flower_web_infrastructur.Prelude.Dict.{Dict, get-put, get-put_self}
use flower_web_infrastructur.Payment.Risk.{
  is_passed, template_eq, Key, Counters, bucket, is_stale, cleanup, or_zero, add_and_get, LimitRule,
  Request, check_split, check_frequency, check_monthly, check_daily, check_prepay, daily, monthly,
  frequency, split,
}

-- What is counted for good under a key.
abbrev pub spent : Key → Counters → ℕ
spent key d = or_zero (Dict.get (key, 0) d)

is_stale-permanent : (now : ℕ) (key : Key) → is_stale now (key, 0) ≡ false
unfolding is_stale
is_stale-permanent now key = refl

cleanup-permanent :
    (now : ℕ) (key : Key) (d : Counters) → Dict.get (key, 0) (cleanup now d) ≡ Dict.get (key, 0) d
unfolding cleanup
cleanup-permanent now key [] = refl
cleanup-permanent now key ((k, n) ∷ d) = elim (Bool-cases (k == (key, 0))) [
  | inl same ↦
      let e : k ≡ (key, 0) = (pair_beq_iff k (key, 0)).0 same in
      let fresh : is_stale now k ≡ false = rw e (is_stale-permanent now key) in
      rw (fresh, same) refl
  | inr other ↦ elim (Bool-cases (is_stale now k)) [
    | inl old ↦ rw (old, other) (cleanup-permanent now key d)
    | inr fresh ↦ rw (fresh, other) (cleanup-permanent now key d)
  ]
]

cleanup-stale :
    (now b : ℕ) (key : Key) (d : Counters)
    → is_stale now (key, b) ≡ true
    → Dict.get (key, b) (cleanup now d) ≡ none
unfolding cleanup
cleanup-stale now b key [] h = refl
cleanup-stale now b key ((k, n) ∷ d) h = elim (Bool-cases (k == (key, b))) [
  | inl same ↦
      let e : k ≡ (key, b) = (pair_beq_iff k (key, b)).0 same in
      rw (e, h) (cleanup-stale now b key d h)
  | inr other ↦ elim (Bool-cases (is_stale now k)) [
    | inl old ↦ rw old (cleanup-stale now b key d h)
    | inr fresh ↦ rw (fresh, other) (cleanup-stale now b key d h)
  ]
]

is_stale-old :
    (now b : ℕ) (key : Key) → 0 < b → b + 1 < bucket 3600 now → is_stale now (key, b) ≡ true
unfolding is_stale
is_stale-old now b key positive old = ground arith

-- A window of 7200 seconds or more has its count thrown away as soon as it is written: with `b` the
-- window's bucket at two times, below the hour's bucket at the first by more than one, a count
-- added at the second time answers with what is added alone, whatever was counted.
pub window_count_lost :
    (now later window b amount more : ℕ) (key : Key) (d : Counters)
    → 0 < b
    → bucket window now ≡ b
    → bucket window later ≡ b
    → b + 1 < bucket 3600 now
    → (add_and_get later key more window (add_and_get now key amount window d).0).1 ≡ more
unfolding add_and_get
window_count_lost now later window b amount more key d positive e f old =
    let stale : is_stale now (key, b) ≡ true = is_stale-old now b key positive old in
    rw (e, f, cleanup-stale now b key _ stale) (omega arith)

-- A count for good grows by what is added to it, and not by what is added under another key.
spent-add :
    (now : ℕ) (key : Key) (amount : ℕ) (d : Counters)
    → (spent key (add_and_get now key amount 0 d).0 ≡ spent key d + amount)
      × ((add_and_get now key amount 0 d).1 ≡ spent key d + amount)
unfolding add_and_get bucket
spent-add now key amount d =
    (rw (cleanup-permanent now key _, get-put_self (key, 0) _ d) refl, refl)

spent-other :
    (now : ℕ) (j key : Key) (amount window : ℕ) (d : Counters)
    → (j == key) ≡ false
    → spent key (add_and_get now j amount window d).0 ≡ spent key d
unfolding add_and_get
spent-other now j key amount window d other =
    rw (cleanup-permanent now key _, get-put (j, bucket window now) (key, 0) _ d, other) refl

abbrev pub daily_key : ℕ → String → ℕ → Key
daily_key user_id channel today = (daily, (user_id, (channel, today)))

module _ (rule : LimitRule) (r : Request) (user_id : ℕ) (channel : String) (today : ℕ) where
  check_split-spent :
      (d : Counters)
      → spent (daily_key user_id channel today) (check_split rule r d).0
        ≡ spent (daily_key user_id channel today) d
  unfolding check_split
  check_split-spent d = ground (
    arith,
    spent-other r.now (split, (r.user_id, (r.channel, 0))) (daily_key user_id channel today) 1
        (if nat_beq rule.frequency_window_seconds 0 then 3600 else rule.frequency_window_seconds) d
        refl,
  )

  check_frequency-spent :
      (d : Counters)
      → spent (daily_key user_id channel today) (check_frequency rule r d).0
        ≡ spent (daily_key user_id channel today) d
  unfolding check_frequency
  check_frequency-spent d =
      let k : Key = (frequency, (r.user_id, (r.channel, 0))) in
      ground (
        arith,
        spent-other r.now k (daily_key user_id channel today) 1 rule.frequency_window_seconds d
            refl,
        check_split-spent d,
        check_split-spent (add_and_get r.now k 1 rule.frequency_window_seconds d).0,
      )

  check_monthly-spent :
      (d : Counters)
      → spent (daily_key user_id channel today) (check_monthly rule r d).0
        ≡ spent (daily_key user_id channel today) d
  unfolding check_monthly
  check_monthly-spent d =
      let k : Key = (monthly, (r.user_id, (r.channel, r.month))) in
      ground (
        arith,
        spent-other r.now k (daily_key user_id channel today) r.amount 0 d refl,
        check_frequency-spent d,
        check_frequency-spent (add_and_get r.now k r.amount 0 d).0,
      )

  -- The request is of this user, channel and day.
  abbrev is_for : Bool
  is_for = daily_key r.user_id r.channel r.today == daily_key user_id channel today

  check_prepay-spent :
      (limit : ℕ) (d : Counters)
      → rule.daily_limit ≡ some limit
      → ((spent (daily_key user_id channel today) d
            ≤ spent (daily_key user_id channel today) (check_prepay rule r d).0)
          × ((is_for && is_passed (check_prepay rule r d).1) ≡ false))
        ⊎ ((spent (daily_key user_id channel today) d + r.amount
              ≡ spent (daily_key user_id channel today) (check_prepay rule r d).0)
            × (spent (daily_key user_id channel today) d + r.amount ≤ limit))
  unfolding check_prepay check_daily
  check_prepay-spent limit d e =
      let k : Key = daily_key r.user_id r.channel r.today in
      let mon = check_monthly-spent (add_and_get r.now k r.amount 0 d).0 in
      elim (Bool-cases is_for) [
        | inr other ↦
            let kept = spent-other r.now k (daily_key user_id channel today) r.amount 0 d other in
            ground (arith, kept, mon)
        | inl same ↦
            let at : k ≡ daily_key user_id channel today =
              (pair_beq_iff k (daily_key user_id channel today)).0 same in
            let (grown, total) = spent-add r.now k r.amount d in
            let grown' : spent (daily_key user_id channel today)
                  (add_and_get r.now k r.amount 0 d).0
                ≡ spent (daily_key user_id channel today) d + r.amount =
              subst
                (λ (j : Key). spent j (add_and_get r.now k r.amount 0 d).0 ≡ spent j d + r.amount)
                at grown in
            let total' : (add_and_get r.now k r.amount 0 d).1
                ≡ spent (daily_key user_id channel today) d + r.amount =
              subst (λ (j : Key). (add_and_get r.now k r.amount 0 d).1 ≡ spent j d + r.amount) at
                total in
            ground (arith, grown', total', mon)
      ]

-- The amounts of a user, channel and day that the guard lets pass, together.
unfoldable pub accepted : LimitRule → ℕ → String → ℕ → List Request → Counters → ℕ
accepted rule user_id channel today [] d = 0
accepted rule user_id channel today (r ∷ rs) d =
    let (d', v) = check_prepay rule r d in
    let rest = accepted rule user_id channel today rs d' in
    if is_for rule r user_id channel today && is_passed v then rest + r.amount else rest

-- Whatever requests come, of any users, channels, days and times, the amounts of one user, channel and
-- day that pass are together at most the daily limit, with what was counted before; or they are 0.
pub accepted-daily_limit :
    (rule : LimitRule) (limit user_id : ℕ) (channel : String) (today : ℕ) (rs : List Request)
    (d : Counters)
    → rule.daily_limit ≡ some limit
    → (accepted rule user_id channel today rs d ≡ 0)
      ⊎ (accepted rule user_id channel today rs d + spent (daily_key user_id channel today) d
          ≤ limit)
unfolding accepted
accepted-daily_limit rule limit user_id channel today [] d e = inl refl
accepted-daily_limit rule limit user_id channel today (r ∷ rs) d e =
    let rest =
      accepted-daily_limit rule limit user_id channel today rs (check_prepay rule r d).0 e in
    elim (check_prepay-spent rule r user_id channel today limit d e) [
      | inl (grows, quiet) ↦ rw quiet (ground arith)
      | inr (one, fits) ↦ ground arith
    ]
