-- ===== src/Cache/Bound.antt =====
-- The bound on the size of the cache of Cache.antt, and of its times to live.
use flower_web_infrastructur.Prelude.{
  ℕ, ◌≤◌, Option, List, [], ◌∷◌, String, length, string_eq, arith,
}
use flower_web_infrastructur.Prelude.Dict.{length-pop-le}
use flower_web_infrastructur.Cache.{
  CacheConfig, Store, evict, write, set, set_empty, get, delete, exists, is_empty,
}

length-evict-le : {V : Type 0} → (n : ℕ) (s : Store V) → length (evict n s) ≤ n
unfolding evict
length-evict-le n [] = omega arith
length-evict-le n (e ∷ s) = ground (arith, length-evict-le n s)

-- An operation on a cache, with the time and, of a `set`, what is drawn for its jitter.
pub data Operation (V : Type 0) : Type 0 where
  set_op : ℕ → String → V → Option ℕ → Option ℕ → ℕ → Operation V
  set_empty_op : ℕ → String → ℕ → Operation V
  get_op : ℕ → String → Operation V
  exists_op : ℕ → String → Operation V
  is_empty_op : ℕ → String → Operation V
  delete_op : String → Operation V

unfoldable pub apply : {V : Type 0} → CacheConfig → Operation V → Store V → Store V
apply c (set_op now key v ttl jitter drawn) s = set c now key v ttl jitter drawn s
apply c (set_empty_op now key ttl) s = set_empty c now key ttl s
apply c (get_op now key) s = (get now key s).0
apply c (exists_op now key) s = (exists now key s).0
apply c (is_empty_op now key) s = (is_empty now key s).0
apply c (delete_op key) s = delete key s

unfoldable pub run : {V : Type 0} → CacheConfig → List (Operation V) → Store V → Store V
run c [] s = s
run c (o ∷ os) s = run c os (apply c o s)

get-length :
    {V : Type 0} → (now : ℕ) (key : String) (s : Store V) → length (get now key s).0 ≤ length s
unfolding get
get-length now key s = ground (arith, length-pop-le key s)

is_empty-length :
    {V : Type 0} → (now : ℕ) (key : String) (s : Store V) → length (is_empty now key s).0 ≤ length s
unfolding is_empty
is_empty-length now key s = ground (arith, length-pop-le key s)

apply-length :
    {V : Type 0}
    → (c : CacheConfig) (o : Operation V) (s : Store V) → length s ≤ c.max_size
    → length (apply c o s) ≤ c.max_size
unfolding apply set set_empty write exists delete
apply-length c (set_op now key v ttl jitter drawn) s h = length-evict-le c.max_size _
apply-length c (set_empty_op now key ttl) s h = length-evict-le c.max_size _
apply-length c (get_op now key) s h = omega (arith, get-length now key s)
apply-length c (exists_op now key) s h = omega (arith, get-length now key s)
apply-length c (is_empty_op now key) s h = omega (arith, is_empty-length now key s)
apply-length c (delete_op key) s h = omega (arith, length-pop-le key s)

-- Whatever is done to a cache, it never holds more than `max_size` entries.
pub run-length-le :
    {V : Type 0}
    → (c : CacheConfig) (os : List (Operation V)) (s : Store V) → length s ≤ c.max_size
    → length (run c os s) ≤ c.max_size
unfolding run
run-length-le c [] s h = h
run-length-le c (o ∷ os) s h = run-length-le c os (apply c o s) (apply-length c o s h)
