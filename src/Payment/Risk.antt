-- ===== src/Payment/Risk.antt =====
-- capabilities/payment/risk: limit_counter_store.py, the LimitRule of payment_limit_config.py and
-- payment_risk_guard.py. Amounts are whole cents, the ratio of a suspicious amount is a fraction, and
-- times are whole seconds. A key is its template with what is filled in: the user, the channel and the
-- day or the month. The guard's successive awaits are taken at one time, the lock makes each
-- add_and_get atomic, and log lines and messages are left out.
pub mod Daily
use flower_web_infrastructur.Prelude.{
  ℕ, ◌+◌, ◌-◌, ◌*◌, ◌/◌, ◌≤◌, ◌<◌, ◌≡◌, ◌↔◌, ◌⊎◌, inl, inr, refl, Bool, true, false, not, ◌&&◌,
  Option, none, some, List, [], ◌∷◌, String, leb, ltb, nat_beq, nat_eq, string_eq, pair_eq, Eq,
  ◌==◌, subst, arith, if◌then◌else◌, Bool-cases, pair_beq_iff,
}
use flower_web_infrastructur.Prelude.Dict
use flower_web_infrastructur.Prelude.Dict.{Dict, get-put, get-put_self}

pub data Template : Type 0 where
  daily monthly frequency split : Template

abbrev pub template_code : Template → ℕ
template_code daily = 0
template_code monthly = 1
template_code frequency = 2
template_code split = 3

abbrev pub template_beq : Template → Template → Bool
template_beq a b = nat_beq (template_code a) (template_code b)

pub template_beq_iff : (a b : Template) → (template_beq a b ≡ true) ↔ (a ≡ b)
template_beq_iff a b = ground arith

instance abbrev pub template_eq : Eq Template
template_eq = record { beq = template_beq; beq_iff = template_beq_iff }

-- A template with the user, the channel, and the day or the month (0 where there is none).
abbrev pub Key : Type 0
Key = Template × (ℕ × (String × ℕ))

-- (key, bucket) -> the count
abbrev pub Counters : Type 0
Counters = Dict (Key × ℕ) ℕ

unfoldable pub bucket : ℕ → ℕ → ℕ
bucket window_seconds now = if leb window_seconds 0 then 0 else now / window_seconds

unfoldable pub is_stale : ℕ → Key × ℕ → Bool
unfolding bucket
is_stale now k = not (k.1 == 0) && ltb k.1 (bucket 3600 now - 1)

unfoldable pub cleanup : ℕ → Counters → Counters
cleanup now [] = []
cleanup now ((k, n) ∷ d) = if is_stale now k then cleanup now d else (k, n) ∷ cleanup now d

abbrev pub or_zero : Option ℕ → ℕ
or_zero none = 0
or_zero (some n) = n

unfoldable pub add_and_get : ℕ → Key → ℕ → ℕ → Counters → Counters × ℕ
add_and_get now key amount window_seconds d =
    let total = or_zero (Dict.get (key, bucket window_seconds now) d) + amount in
    (cleanup now (Dict.put (key, bucket window_seconds now) total d), total)

pub record LimitRule : Type 0 where
  pub per_transaction : Option ℕ
  pub daily_limit : Option ℕ
  pub monthly_limit : Option ℕ
  pub frequency_window_seconds : ℕ
  pub max_attempts : ℕ
  pub suspicious_split_count : ℕ
  pub suspicious_split_ratio_num : ℕ
  pub suspicious_split_ratio_den : ℕ

pub data Verdict : Type 0 where
  passed limit_exceeded frequency_limited risk_blocked : Verdict

pub record Request : Type 0 where
  pub now : ℕ
  pub today : ℕ
  pub month : ℕ
  pub user_id : ℕ
  pub channel : String
  pub amount : ℕ

-- The checks of `check_prepay` in their order, each with those after it.
unfoldable pub check_split : LimitRule → Request → Counters → Counters × Verdict
check_split rule r d = elim rule.per_transaction [
  | none ↦ (d, passed)
  | some single ↦
      if ltb 0 rule.suspicious_split_count
        && leb (single * rule.suspicious_split_ratio_num)
            (r.amount * rule.suspicious_split_ratio_den)
      then (let window =
            if nat_beq rule.frequency_window_seconds 0
            then 3600
            else rule.frequency_window_seconds in
          let (d', count) = add_and_get r.now (split, (r.user_id, (r.channel, 0))) 1 window d in
          (d', (if leb rule.suspicious_split_count count then risk_blocked else passed)))
      else (d, passed)
]

unfoldable pub check_frequency : LimitRule → Request → Counters → Counters × Verdict
check_frequency rule r d =
    if ltb 0 rule.frequency_window_seconds && ltb 0 rule.max_attempts
    then (let (d', attempts) =
          add_and_get r.now (frequency, (r.user_id, (r.channel, 0))) 1 rule.frequency_window_seconds
            d in
        if ltb rule.max_attempts attempts then (d', frequency_limited) else check_split rule r d')
    else check_split rule r d

unfoldable pub check_monthly : LimitRule → Request → Counters → Counters × Verdict
check_monthly rule r d = elim rule.monthly_limit [
  | none ↦ check_frequency rule r d
  | some limit ↦
      let (d', total) =
        add_and_get r.now (monthly, (r.user_id, (r.channel, r.month))) r.amount 0 d in
      if ltb limit total then (d', limit_exceeded) else check_frequency rule r d'
]

unfoldable pub check_daily : LimitRule → Request → Counters → Counters × Verdict
check_daily rule r d = elim rule.daily_limit [
  | none ↦ check_monthly rule r d
  | some limit ↦
      let (d', total) = add_and_get r.now (daily, (r.user_id, (r.channel, r.today))) r.amount 0 d in
      if ltb limit total then (d', limit_exceeded) else check_monthly rule r d'
]

unfoldable pub exceeds_single : LimitRule → Request → Bool
exceeds_single rule r = elim rule.per_transaction [
  | none ↦ false
  | some single ↦ ltb single r.amount
]

unfoldable pub check_prepay : LimitRule → Request → Counters → Counters × Verdict
check_prepay rule r d = if exceeds_single rule r then (d, limit_exceeded) else check_daily rule r d

abbrev pub is_passed : Verdict → Bool
is_passed passed = true
is_passed limit_exceeded = false
is_passed frequency_limited = false
is_passed risk_blocked = false
