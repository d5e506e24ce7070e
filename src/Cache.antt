-- ===== src/Cache.antt =====
-- capabilities/cache/memory_cache_backend.py with cache_config.py. Times are whole ticks; the ratio of
-- the TTL limit is a fraction, and what `random.uniform` draws is an argument. The asyncio lock makes
-- each method atomic. Logging and metrics are left out. The children prove the bound on the size
-- (Bound) and what is read after a write (Reads).
pub mod Bound
pub mod Reads
use flower_web_infrastructur.Prelude.{
  ℕ, suc, ◌+◌, ◌*◌, ◌/◌, min, max, Bool, true, false, Option, none, some, List, [], ◌∷◌, ◌++◌,
  String, ltb, length, if◌then◌else◌, string_eq,
}
use flower_web_infrastructur.Prelude.Dict
use flower_web_infrastructur.Prelude.Dict.{Dict}

pub record CacheConfig : Type 0 where
  pub max_size : ℕ
  pub default_ttl : ℕ
  pub remote_default_ttl : ℕ
  pub local_ttl_ratio_num : ℕ
  pub local_ttl_ratio_den : ℕ
  pub default_ttl_jitter_seconds : ℕ

-- A stored value, or the marker `_EMPTY`.
pub data Cached (V : Type 0) : Type 0 where
  value : V → Cached V
  empty_marker : Cached V

-- The entries in the order of the OrderedDict: key -> (value, expire_at).
abbrev pub Store : Type 0 → Type 0
Store V = Dict String (Cached V × ℕ)

-- `EMPTY_TTL_LIMIT_SECONDS`
abbrev pub empty_ttl_limit : ℕ
empty_ttl_limit = 120

unfoldable pub or_default : Option ℕ → ℕ → ℕ
or_default none d = d
or_default (some x) d = x

-- The TTL held to the limit, before the jitter.
unfoldable pub clamp_ttl : CacheConfig → ℕ → ℕ
clamp_ttl c ttl =
    if ltb 0 c.remote_default_ttl
    then (if ltb (c.remote_default_ttl * c.local_ttl_ratio_num / c.local_ttl_ratio_den) ttl
        then c.remote_default_ttl * c.local_ttl_ratio_num / c.local_ttl_ratio_den
        else ttl)
    else ttl

-- `drawn` is what is drawn from [0, jitter), where a jitter is on.
unfoldable pub effective_ttl : CacheConfig → Option ℕ → Option ℕ → ℕ → ℕ
unfolding clamp_ttl or_default
effective_ttl c ttl jitter drawn =
    clamp_ttl c (or_default ttl c.default_ttl)
    + (if ltb 0 (or_default jitter c.default_ttl_jitter_seconds) then drawn else 0)

module _ {V : Type 0} where
  -- `while len(store) > max_size: store.popitem(last=False)`
  unfoldable pub evict : ℕ → Store V → Store V
  evict n [] = []
  evict n (e ∷ s) = let rest = evict n s in if ltb n (length (e ∷ s)) then rest else e ∷ s

  -- A write and `move_to_end`, then the eviction.
  unfoldable pub write : CacheConfig → String → Cached V → ℕ → Store V → Store V
  unfolding evict
  write c key v expire_at s = evict c.max_size (Dict.pop key s ++ (key, (v, expire_at)) ∷ [])

  unfoldable pub set : CacheConfig → ℕ → String → V → Option ℕ → Option ℕ → ℕ → Store V → Store V
  unfolding write effective_ttl
  set c now key v ttl jitter drawn s =
      write c key (value v) (now + effective_ttl c ttl jitter drawn) s

  unfoldable pub set_empty : CacheConfig → ℕ → String → ℕ → Store V → Store V
  unfolding write
  set_empty c now key ttl s = write c key empty_marker (now + min (max ttl 1) empty_ttl_limit) s

  abbrev pub present : Cached V → Option V
  present (value v) = some v
  present empty_marker = none

  unfoldable pub get : ℕ → String → Store V → Store V × Option V
  get now key s = elim (Dict.get key s) [
    | none ↦ (s, none)
    | some (v, expire_at) ↦ if ltb expire_at now then (Dict.pop key s, none) else (s, present v)
  ]

  unfoldable pub delete : String → Store V → Store V
  delete key s = Dict.pop key s

  abbrev pub is_some : Option V → Bool
  is_some none = false
  is_some (some v) = true

  unfoldable pub exists : ℕ → String → Store V → Store V × Bool
  unfolding get
  exists now key s = let (s', v) = get now key s in (s', is_some v)

  abbrev pub is_marker : Cached V → Bool
  is_marker (value v) = false
  is_marker empty_marker = true

  unfoldable pub is_empty : ℕ → String → Store V → Store V × Bool
  is_empty now key s = elim (Dict.get key s) [
    | none ↦ (s, false)
    | some (v, expire_at) ↦ if ltb expire_at now then (Dict.pop key s, false) else (s, is_marker v)
  ]
