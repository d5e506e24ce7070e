-- ===== src/Examples/Services.antt =====
-- The cache, quotas, numbers, web and load balancing at concrete inputs.
use flower_web_infrastructur.Prelude.{
  ℕ, ◌+◌, ◌≤◌, ◌≡◌, ◌⊎◌, refl, true, none, some, List, [], ◌∷◌, String, length, arith, string_eq,
}
use flower_web_infrastructur.Cache.{CacheConfig}
use flower_web_infrastructur.Cache.Bound.{Operation, set_op, get_op, run, run-length-le}
use flower_web_infrastructur.Ai.Quota.{QuotaConfig, QuotaCounter, QuotaStore}
use flower_web_infrastructur.Ai.Quota.Passes.{Use, passes, passes-bounded}
use flower_web_infrastructur.Utils.Snowflake.{Generator, next_free, IsValid}
use flower_web_infrastructur.Utils.Snowflake.Order.{ids, Ascending, ids-Ascending}
use flower_web_infrastructur.Web.Idempotency.Replays.{IsTypeOf, dispatch-twice}
use flower_web_infrastructur.Web.Idempotency.{
  IdempotencyStore, Response, dispatch_keyed, try_occupy, expire_occupied, expire_results, handled,
  replayed,
}

abbrev small : CacheConfig
small = record {
  max_size = 2;
  default_ttl = 300;
  remote_default_ttl = 900;
  local_ttl_ratio_num = 1;
  local_ttl_ratio_den = 3;
  default_ttl_jitter_seconds = 0;
}

abbrev writes : List (Operation ℕ)
writes =
    set_op 0 "a" 1 none none 0
    ∷ set_op 1 "b" 2 none none 0
    ∷ get_op 2 "a"
    ∷ set_op 3 "c" 3 none none 0
    ∷ []

run-length-le_example : length (run small writes []) ≤ 2
run-length-le_example = run-length-le small writes [] (omega arith)

abbrev quota : QuotaConfig
quota = record { max_calls = 2; max_tokens = 0; max_cost = 0; window_seconds = 60 }

abbrev counted_once : QuotaCounter
counted_once = record { calls = 1; tokens = 5; cost = 0 }

abbrev quotas : QuotaStore
quotas = (("user", "u1"), (counted_once, 60)) ∷ []

abbrev check_at : ℕ → Use
check_at t = record { now = t; key = ("user", "u1"); checks = true; tokens = 1; cost = 0 }

passes-bounded_example :
    (passes quota ("user", "u1") (check_at 5 ∷ check_at 6 ∷ []) quotas ≡ 0)
    ⊎ (passes quota ("user", "u1") (check_at 5 ∷ check_at 6 ∷ []) quotas + 1 ≤ 2)
passes-bounded_example =
    passes-bounded quota ("user", "u1") counted_once 60 (check_at 5 ∷ check_at 6 ∷ []) quotas
      (omega arith) refl (omega arith, (omega arith, tt))

abbrev worker : ℕ → Generator
worker w = record { worker_id = w; sequence = 0; last_timestamp = none }

worker-IsValid : (w : ℕ) → w ≤ 1023 → IsValid (worker w)
worker-IsValid w h = (h, omega arith, λ last e. absurd cc)

abbrev instant : ℕ
instant = 1704067200005

ids-Ascending_example :
    Ascending (next_free (worker 3)) (ids (worker 3) ((instant ∷ []) ∷ (instant ∷ []) ∷ []))
ids-Ascending_example =
    ids-Ascending (worker 3) ((instant ∷ []) ∷ (instant ∷ []) ∷ []) (worker-IsValid 3 (omega arith))
      ((omega arith, tt), ((omega arith, tt), tt))

abbrev answer : Response
answer = record { status_code = 201; headers = ("location", "/orders/1") ∷ []; body = "{}" }

abbrev nothing_kept : IdempotencyStore
nothing_kept = record { occupied = []; results = [] }

first_occupies : (try_occupy 0 "k" 60 nothing_kept).1 ≡ true
unfolding try_occupy expire_occupied expire_results
first_occupies = refl

dispatch-twice_example :
    ((dispatch_keyed 60 0 5 "k" "h" (some answer) (λ s. s) nothing_kept).1 ≡ handled answer)
    × ((t : String) × IsTypeOf answer t
        × ((dispatch_keyed 60 30 31 "k" "h" none
              (λ s. s)
              (dispatch_keyed 60 0 5 "k" "h" (some answer) (λ s. s) nothing_kept).0).1
            ≡ replayed (record { status_code = 201; media_type = t; body = "{}" })))
dispatch-twice_example =
    dispatch-twice 60 0 5 30 31 "k" "h" answer none (λ s. s) (λ s. s) nothing_kept first_occupies
      (omega arith)
