-- ===== src/Ai/Quota.antt =====
-- capabilities/ai/quota: in_memory_quota_store.py with the QuotaCounter of quota_store.py,
-- quota_config.py and quota_manager.py. Costs are whole units of the smallest price, times whole
-- seconds, and a key is the pair of scope and value, where the source joins them into one text, under
-- which two pairs may meet. The lock makes each `incr` atomic, the counter
-- that it returns is read before another call can change it, and log lines are left out.
pub mod Passes
use flower_web_infrastructur.Prelude.{
  ℕ, zero, suc, ◌+◌, ◌≤◌, ◌<◌, ◌≡◌, ◌⊎◌, inl, inr, refl, Bool, true, false, not, ◌&&◌, ◌||◌, Option,
  none, some, pair_beq_iff, List, [], ◌∷◌, String, leb, ltb, string_eq, pair_eq, Eq, ◌==◌, ==_refl,
  All, arith, if◌then◌else◌, Bool-cases, Option-cases,
}
use flower_web_infrastructur.Prelude.Dict
use flower_web_infrastructur.Prelude.Dict.{Dict, get-put, get-put_self}

pub record QuotaCounter : Type 0 where
  pub calls : ℕ
  pub tokens : ℕ
  pub cost : ℕ

abbrev pub Key : Type 0
Key = String × String

-- key -> (counter, expire_at)
abbrev pub QuotaStore : Type 0
QuotaStore = Dict Key (QuotaCounter × ℕ)

unfoldable pub drop_expired : ℕ → QuotaStore → QuotaStore
drop_expired now [] = []
drop_expired now ((k, (c, t)) ∷ s) =
    if leb t now then drop_expired now s else (k, (c, t)) ∷ drop_expired now s

-- The counter of the window with `calls`, `tokens` and `cost` added, or a new window.
unfoldable pub counted : ℕ → QuotaCounter → ℕ → Option (QuotaCounter × ℕ) → QuotaCounter × ℕ
counted now used window_seconds none = (used, now + window_seconds)
counted now used window_seconds (some (c, t)) =
    if leb t now then (used, now + window_seconds) else (
      record {
        calls = c.calls + used.calls;
        tokens = c.tokens + used.tokens;
        cost = c.cost + used.cost;
      },
      t,
    )

unfoldable pub incr : ℕ → Key → QuotaCounter → ℕ → QuotaStore → QuotaStore × QuotaCounter
incr now key used window_seconds s =
    let s' = drop_expired now s in
    let item = counted now used window_seconds (Dict.get key s') in (Dict.put key item s', item.0)

pub record QuotaConfig : Type 0 where
  pub max_calls : ℕ
  pub max_tokens : ℕ
  pub max_cost : ℕ
  pub window_seconds : ℕ

-- What the manager's methods end with: ValueError, E1-RATE-000 and E4-AI-005 are the errors.
pub data Reply : Type 0 where
  allowed value_error rate_limited quota_exhausted : Reply

unfoldable pub judge : QuotaConfig → QuotaCounter → Reply
judge cfg c =
    if ltb 0 cfg.max_calls && ltb cfg.max_calls c.calls
    then rate_limited
    else if ltb 0 cfg.max_tokens && ltb cfg.max_tokens c.tokens
    then rate_limited
    else if ltb 0 cfg.max_cost && ltb cfg.max_cost c.cost
    then quota_exhausted
    else allowed

unfoldable pub check_and_consume : QuotaConfig → ℕ → Key → ℕ → ℕ → QuotaStore → QuotaStore × Reply
check_and_consume cfg now key tokens cost s =
    if key.0 == "" || key.1 == ""
    then (s, value_error)
    else (let (s', c) =
          incr now key (record { calls = 1; tokens = tokens; cost = cost }) cfg.window_seconds s in
        (s', judge cfg c))

unfoldable pub consume_usage : QuotaConfig → ℕ → Key → ℕ → ℕ → QuotaStore → QuotaStore × Reply
consume_usage cfg now key tokens cost s =
    if key.0 == "" || key.1 == ""
    then (s, value_error)
    else (let (s', c) =
          incr now key (record { calls = 0; tokens = tokens; cost = cost }) cfg.window_seconds s in
        (s', allowed))
