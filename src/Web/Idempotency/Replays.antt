-- ===== src/Web/Idempotency/Replays.antt =====
-- How repeated requests are answered by Web/Idempotency.antt.
use flower_web_infrastructur.Prelude.{
  ℕ, ◌+◌, ◌<◌, ◌≡◌, refl, true, Option, none, some, [], ◌∷◌, String, string_eq, ◌==◌, ==_refl,
  arith, if◌then◌else◌, Option-cases, ◌⊎◌, inl, inr,
}
use flower_web_infrastructur.Prelude.Dict
use flower_web_infrastructur.Prelude.Dict.{
  Dict, get-put, get-put_self, get-pop, contains-get-some, get-contains,
}
use flower_web_infrastructur.Web.Idempotency.{
  IdempotencyResult, IdempotencyStore, expire_occupied, expire_results, expire, try_occupy,
  set_result, get_result, Response, replay_or_inflight, content_type_of, result_of, reply_of,
  finish, dispatch_keyed, handled, replayed, conflict, in_flight,
}

expire_results-get :
    (now : ℕ) (key : String) (r : IdempotencyResult) (t : ℕ)
    (d : Dict String (IdempotencyResult × ℕ))
    → now < t
    → Dict.get key d ≡ some (r, t)
    → Dict.get key (expire_results now d) ≡ some (r, t)
unfolding expire_results
expire_results-get now key r t [] m h = cc
expire_results-get now key r t ((k, (r', t')) ∷ d) m h =
    ground (arith, expire_results-get now key r t d)

expire_results-none :
    (now : ℕ) (key : String) (d : Dict String (IdempotencyResult × ℕ))
    → Dict.get key d ≡ none
    → Dict.get key (expire_results now d) ≡ none
unfolding expire_results
expire_results-none now key [] h = refl
expire_results-none now key ((k, (r', t')) ∷ d) h = ground (arith, expire_results-none now key d)

expire_occupied-get :
    (now : ℕ) (key : String) (t : ℕ) (d : Dict String ℕ)
    → now < t
    → Dict.get key d ≡ some t
    → Dict.get key (expire_occupied now d) ≡ some t
unfolding expire_occupied
expire_occupied-get now key t [] m h = cc
expire_occupied-get now key t ((k, t') ∷ d) m h = ground (arith, expire_occupied-get now key t d)

-- While a result is kept, every request under its key is answered from it, without a call of the
-- handler and without a change of the result: with what was stored, if it is the same request, and
-- with a conflict if it is another one.
pub dispatch-replays :
    (ttl now done t : ℕ) (key request_hash : String) (r : IdempotencyResult)
    (answer : Option Response) (during : IdempotencyStore → IdempotencyStore) (s : IdempotencyStore)
    → Dict.get key s.results ≡ some (r, t)
    → now < t
    → (dispatch_keyed ttl now done key request_hash answer during s ≡ (
      expire now s,
      (if r.request_hash == request_hash
          then replayed
              (record { status_code = r.status_code; media_type = r.content_type; body = r.body })
          else conflict),
    ))
      × (Dict.get key (expire now s).results ≡ some (r, t))
unfolding dispatch_keyed try_occupy replay_or_inflight get_result
dispatch-replays ttl now done t key request_hash r answer during s h m =
    let kept = expire_results-get now key r t s.results m h in
    let there = contains-get-some key (r, t) (expire_results now s.results) kept in
    (ground (arith, kept, there), kept)

dispatch_keyed-first :
    (ttl now done : ℕ) (key request_hash : String) (answer : Option Response)
    (during : IdempotencyStore → IdempotencyStore) (s : IdempotencyStore)
    → (try_occupy now key ttl s).1 ≡ true
    → dispatch_keyed ttl now done key request_hash answer during s ≡ (
      finish ttl done key request_hash answer (during (try_occupy now key ttl s).0),
      reply_of answer,
    )
unfolding dispatch_keyed
dispatch_keyed-first ttl now done key request_hash answer during s first =
    rw (first, dispatch_keyed) refl

set_result-get :
    (done : ℕ) (key : String) (r : IdempotencyResult) (ttl : ℕ) (s : IdempotencyStore)
    → Dict.get key (set_result done key r ttl s).results ≡ some (r, done + ttl)
unfolding set_result
set_result-get done key r ttl s = get-put_self key (r, done + ttl) s.results

-- The type that a replay has: the answer's own, or JSON where the answer has none.
abbrev pub IsTypeOf : Response → String → Type 0
IsTypeOf a t =
    (Dict.get "content-type" a.headers ≡ some t)
    ⊎ ((Dict.get "content-type" a.headers ≡ none) × (t ≡ "application/json"))

content_type_of-IsTypeOf : (a : Response) → IsTypeOf a (content_type_of a)
content_type_of-IsTypeOf a = elim (Option-cases (Dict.get "content-type" a.headers)) [
  | inl absent ↦ inr (absent, rw (absent, content_type_of) refl)
  | inr (t, there) ↦
      let e : content_type_of a ≡ t = rw (there, content_type_of) refl in inl (rw e there)
]

-- A request whose handler answered gets that answer, with its headers. Until the result expires, the
-- same request under the same key gets a replay, whatever its own handler would have answered: with
-- the status of the first answer, whichever it was, its body, and its content type, or that of JSON
-- where it had none. The replay is given no other header of the first answer.
pub dispatch-twice :
    (ttl now done later end : ℕ) (key request_hash : String) (a : Response)
    (other : Option Response) (during during' : IdempotencyStore → IdempotencyStore)
    (s : IdempotencyStore)
    → (try_occupy now key ttl s).1 ≡ true
    → later < done + ttl
    → ((dispatch_keyed ttl now done key request_hash (some a) during s).1 ≡ handled a)
      × ((t : String) × IsTypeOf a t
          × ((dispatch_keyed ttl later end key request_hash other during'
                (dispatch_keyed ttl now done key request_hash (some a) during s).0).1
              ≡ replayed (record { status_code = a.status_code; media_type = t; body = a.body })))
unfolding finish
dispatch-twice ttl now done later end key request_hash a other during during' s first m =
    let s' : IdempotencyStore = during (try_occupy now key ttl s).0 in
    let e = dispatch_keyed-first ttl now done key request_hash (some a) during s first in
    let (again, kept) =
      dispatch-replays ttl later end (done + ttl) key request_hash (result_of a request_hash) other
        during' (set_result done key (result_of a request_hash) ttl s')
        (set_result-get done key (result_of a request_hash) ttl s') m in
    rw e (
      refl,
      (content_type_of a, content_type_of-IsTypeOf a, ground (arith, again, ==_refl request_hash)),
    )

-- While the first request under a key is being handled, every other one is told so: its handler is
-- not called, and the key stays taken.
pub dispatch-in_flight :
    (ttl now done t : ℕ) (key request_hash : String) (answer : Option Response)
    (during : IdempotencyStore → IdempotencyStore) (s : IdempotencyStore)
    → Dict.get key s.occupied ≡ some t
    → now < t
    → Dict.get key s.results ≡ none
    → (dispatch_keyed ttl now done key request_hash answer during s ≡ (expire now s, in_flight))
      × (Dict.get key (expire now s).occupied ≡ some t)
unfolding dispatch_keyed try_occupy replay_or_inflight get_result
dispatch-in_flight ttl now done t key request_hash answer during s taken m none_yet =
    let kept = expire_occupied-get now key t s.occupied m taken in
    let there = contains-get-some key t (expire_occupied now s.occupied) kept in
    let without = expire_results-none now key s.results none_yet in
    (ground (arith, kept, there, without), kept)
