-- ===== src/Web/Idempotency.antt =====
-- infra/web/in_memory_idempotency_store.py with the result of idempotency_store_interface.py, and
-- `dispatch` of idempotency_middleware.py over it. Times are whole seconds. The digest of a request is
-- not part of the program: a request carries it. A request carries its key with the user's prefix, and
-- what its handler answers; other tasks may change the store while the handler is awaited.
pub mod Replays
use flower_web_infrastructur.Prelude.{
  ℕ, ◌+◌, ◌<◌, ◌≡◌, refl, Bool, true, false, not, ◌||◌, Option, none, some, [], ◌∷◌, String, leb,
  string_eq, ◌==◌, ==_refl, arith, if◌then◌else◌,
}
use flower_web_infrastructur.Prelude.Dict
use flower_web_infrastructur.Prelude.Dict.{
  Dict, get-put, get-put_self, get-pop, contains-get-some, get-contains,
}

pub record IdempotencyResult : Type 0 where
  pub status_code : ℕ
  pub content_type : String
  pub body : String
  pub request_hash : String

-- `_occupied` and `_results`, each key with its `expire_at`.
pub record IdempotencyStore : Type 0 where
  pub occupied : Dict String ℕ
  pub results : Dict String (IdempotencyResult × ℕ)

unfoldable pub expire_occupied : ℕ → Dict String ℕ → Dict String ℕ
expire_occupied now [] = []
expire_occupied now ((k, t) ∷ d) =
    if leb t now then expire_occupied now d else (k, t) ∷ expire_occupied now d

unfoldable pub expire_results :
    ℕ → Dict String (IdempotencyResult × ℕ) → Dict String (IdempotencyResult × ℕ)
expire_results now [] = []
expire_results now ((k, (r, t)) ∷ d) =
    if leb t now then expire_results now d else (k, (r, t)) ∷ expire_results now d

abbrev pub expire : ℕ → IdempotencyStore → IdempotencyStore
expire now s = record {
  occupied = expire_occupied now s.occupied;
  results = expire_results now s.results;
}

unfoldable pub try_occupy : ℕ → String → ℕ → IdempotencyStore → IdempotencyStore × Bool
try_occupy now key ttl_seconds s =
    let s' = expire now s in
    if Dict.contains key s'.occupied || Dict.contains key s'.results
    then (s', false)
    else (record s' { occupied = Dict.put key (now + ttl_seconds) s'.occupied }, true)

unfoldable pub set_result : ℕ → String → IdempotencyResult → ℕ → IdempotencyStore → IdempotencyStore
set_result now key r ttl_seconds s = record {
  occupied = Dict.pop key s.occupied;
  results = Dict.put key (r, now + ttl_seconds) s.results;
}

unfoldable pub get_result :
    ℕ → String → IdempotencyStore → IdempotencyStore × Option IdempotencyResult
get_result now key s = elim (Dict.get key s.results) [
  | none ↦ (s, none)
  | some (r, expire_at) ↦
      if leb expire_at now
      then (record s { results = Dict.pop key s.results }, none)
      else (s, some r)
]

unfoldable pub release : String → IdempotencyStore → IdempotencyStore
release key s = record s { occupied = Dict.pop key s.occupied }

-- The headers by their names in lower case, as the web framework keeps them.
pub record Response : Type 0 where
  pub status_code : ℕ
  pub headers : Dict String String
  pub body : String

-- What a replay gives to the web framework's response: no headers but the media type.
pub record Replay : Type 0 where
  pub status_code : ℕ
  pub media_type : String
  pub body : String

-- What a request gets: the handler's own answer with its headers, or its error; a stored answer; the
-- conflict of a key that was used for another request; or the note that the first request is still
-- being handled.
pub data Reply : Type 0 where
  handled : Response → Reply
  failed : Reply
  replayed : Replay → Reply
  conflict : Reply
  in_flight : Reply

pub record Request : Type 0 where
  pub is_write : Bool
  pub idem_key : Option String
  pub request_hash : String

unfoldable pub replay_or_inflight :
    ℕ → String → String → IdempotencyStore → IdempotencyStore × Reply
replay_or_inflight now key request_hash s =
    let (s', r) = get_result now key s in
    elim r [
      | none ↦ (s', in_flight)
      | some result ↦ if not (result.request_hash == request_hash) then (s', conflict) else (
        s',
        replayed (record {
          status_code = result.status_code;
          media_type = result.content_type;
          body = result.body;
        }),
      )
    ]

-- `response.headers.get("content-type", "application/json")`
abbrev pub content_type_of : Response → String
content_type_of a = elim (Dict.get "content-type" a.headers) [
  | none ↦ "application/json"
  | some t ↦ t
]

abbrev pub result_of : Response → String → IdempotencyResult
result_of a request_hash = record {
  status_code = a.status_code;
  content_type = content_type_of a;
  body = a.body;
  request_hash = request_hash;
}

abbrev pub reply_of : Option Response → Reply
reply_of none = failed
reply_of (some a) = handled a

-- The end of a request that called the handler at the time `done`.
unfoldable pub finish :
    ℕ → ℕ → String → String → Option Response → IdempotencyStore → IdempotencyStore
finish ttl_seconds done key request_hash none s = release key s
finish ttl_seconds done key request_hash (some a) s =
    set_result done key (result_of a request_hash) ttl_seconds s

-- `now` and `done` are when the request comes and when the handler ends, with `answer`.
unfoldable pub dispatch_keyed :
    ℕ
    → ℕ
    → ℕ
    → String
    → String
    → Option Response
    → (IdempotencyStore → IdempotencyStore)
    → IdempotencyStore
    → IdempotencyStore × Reply
dispatch_keyed ttl_seconds now done key request_hash answer during s =
    let (s', first) = try_occupy now key ttl_seconds s in
    if not first
    then replay_or_inflight now key request_hash s'
    else (finish ttl_seconds done key request_hash answer (during s'), reply_of answer)

abbrev pub no_key : Option String → Bool
no_key none = true
no_key (some k) = k == ""

unfoldable pub dispatch :
    ℕ
    → ℕ
    → ℕ
    → Request
    → Option Response
    → (IdempotencyStore → IdempotencyStore)
    → IdempotencyStore
    → IdempotencyStore × Reply
dispatch ttl_seconds now done r answer during s =
    if not r.is_write || no_key r.idem_key then (during s, reply_of answer) else elim r.idem_key [
      | none ↦ (during s, reply_of answer)
      | some key ↦ dispatch_keyed ttl_seconds now done key r.request_hash answer during s
    ]
