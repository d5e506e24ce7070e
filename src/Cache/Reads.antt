-- ===== src/Cache/Reads.antt =====
-- What is read from the cache of Cache.antt after a write.
use flower_web_infrastructur.Prelude.{
  ℕ, ◌+◌, ◌≤◌, ◌<◌, ◌≡◌, ◌⊎◌, min, max, true, false, Option, none, some, [], ◌∷◌, ◌++◌, String, ltb,
  if◌then◌else◌, string_eq, arith, ==_refl,
}
use flower_web_infrastructur.Prelude.Dict
use flower_web_infrastructur.Prelude.Dict.{Dict, get-pop, length-pop-le}
use flower_web_infrastructur.Cache.{
  CacheConfig, Cached, Store, empty_ttl_limit, effective_ttl, evict, write, set, set_empty, get,
  is_empty, value, empty_marker,
}

module _ {V : Type 0} where
  get-append :
      (s : Store V) (key : String) (e : Cached V × ℕ)
      → Dict.get key s ≡ none
      → Dict.get key (s ++ (key, e) ∷ []) ≡ some e
  get-append [] key e new = ground (arith, ==_refl key)
  get-append ((k, f) ∷ s) key e new = ground (arith, get-append s key e)

  -- What is written last is not evicted, where the cache may hold an entry at all.
  evict-last :
      (n : ℕ) (s : Store V) (key : String) (e : Cached V × ℕ)
      → 0 < n
      → Dict.get key s ≡ none
      → Dict.get key (evict n (s ++ (key, e) ∷ [])) ≡ some e
  unfolding evict
  evict-last n [] key e h new = ground (arith, ==_refl key)
  evict-last n ((k, f) ∷ s) key e h new =
      let rest : Dict.get key s ≡ none = ground arith in
      ground (arith, evict-last n s key e h rest, get-append s key e rest)

  write-get :
      (c : CacheConfig) (key : String) (v : Cached V) (expire_at : ℕ) (s : Store V)
      → 0 < c.max_size
      → Dict.get key (write c key v expire_at s) ≡ some (v, expire_at)
  unfolding write
  write-get c key v expire_at s h =
      evict-last c.max_size (Dict.pop key s) key (v, expire_at) h
        (ground (arith, get-pop key key s, ==_refl key))

  -- Where the cache may hold an entry, what `set` stored is read until its time to live is over, and
  -- then nothing is.
  pub get-set :
      (c : CacheConfig) (now later : ℕ) (key : String) (v : V) (ttl jitter : Option ℕ) (drawn : ℕ)
      (s : Store V)
      → 0 < c.max_size
      → (get later key (set c now key v ttl jitter drawn s)).1
        ≡ (if ltb (now + effective_ttl c ttl jitter drawn) later then none else some v)
  unfolding get set
  get-set c now later key v ttl jitter drawn s h =
      ground (arith, write-get c key (value v) (now + effective_ttl c ttl jitter drawn) s h)

  -- Where the cache may hold an entry, a key that is marked as empty reads as absent, and is told
  -- apart by `is_empty` for a time of 1 to 120 seconds, the one asked for held to these limits.
  pub is_empty-set_empty :
      (c : CacheConfig) (now later : ℕ) (key : String) (ttl : ℕ) (s : Store V)
      → 0 < c.max_size
      → ((get later key (set_empty c now key ttl s)).1 ≡ none)
        × ((is_empty later key (set_empty c now key ttl s)).1 ≡ true ⊎ (now + 1 < later))
        × ((is_empty later key (set_empty c now key ttl s)).1 ≡ false
            ⊎ (later ≤ now + empty_ttl_limit))
  unfolding get set_empty is_empty
  is_empty-set_empty c now later key ttl s h =
      let e = write-get c key empty_marker (now + min (max ttl 1) empty_ttl_limit) s h in
      (ground (arith, e), ground (arith, e), ground (arith, e))
