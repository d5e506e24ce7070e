-- ===== src/Security/Tokens.antt =====
-- capabilities/security/in_memory_jwt_token_store.py: the tokens that are valid, by user and by device.
-- Times are whole seconds. A set of token ids is a list without order; each operation holds the lock
-- from its first line to its last, so it is one step.
pub mod Devices
use Prim.Native.String.{◌++◌ as text_append}
use flower_web_infrastructur.Prelude.{
  ℕ, ◌+◌, ◌≡◌, Bool, true, false, not, ◌||◌, ◌&&◌, Option, none, some, List, [], ◌∷◌, String, leb,
  ltb, Eq, string_eq, pair_eq, ◌==◌, if◌then◌else◌,
}
use flower_web_infrastructur.Prelude.Dict
use flower_web_infrastructur.Prelude.Dict.{Dict}

abbrev pub Device : Type 0
Device = String × (String × String)

instance abbrev pub device_eq : Eq Device
device_eq = pair_eq ⦃a = string_eq⦄ ⦃b = pair_eq ⦃a = string_eq⦄ ⦃b = string_eq⦄⦄

-- `_states`, `_device_map` and `_user_jtis`; a state is the token id with its `expire_at`.
pub record TokenStore : Type 0 where
  pub states : Dict String (String × ℕ)
  pub device_map : Dict Device String
  pub user_jtis : Dict String (List String)

-- `_key`
abbrev pub key : String → String → String
key user_id jti = text_append user_id (text_append ":" jti)

-- `x or ""`
abbrev pub or_empty : Option String → String
or_empty none = ""
or_empty (some x) = x

abbrev pub composite : String → Option String → Option String → Device
composite user_id client_id device_id = (user_id, (or_empty client_id, or_empty device_id))

-- jti in the set
abbrev pub holds : String → List String → Bool
holds j [] = false
holds j (i ∷ js) = if i == j then true else holds j js

abbrev pub discard : String → List String → List String
discard j [] = []
discard j (i ∷ js) = if i == j then discard j js else i ∷ discard j js

abbrev pub add : String → List String → List String
add j js = if holds j js then js else j ∷ js

-- `_states.get(key, (None, 0))[1]`
abbrev pub expiry : String → Dict String (String × ℕ) → ℕ
expiry k states = elim (Dict.get k states) [ none ↦ 0 | some (marker, expire_at) ↦ expire_at ]

-- The loop of `_prune_user` over the user's set: the states left and the ids left.
abbrev pub drop_expired :
    String → ℕ → List String → Dict String (String × ℕ) → Dict String (String × ℕ) × List String
drop_expired user_id now [] states = (states, [])
drop_expired user_id now (j ∷ js) states =
    if leb (expiry (key user_id j) states) now
    then drop_expired user_id now js (Dict.pop (key user_id j) states)
    else (let (states', kept) = drop_expired user_id now js states in (states', j ∷ kept))

-- The devices of other users, and those of this one whose id is kept.
abbrev pub drop_stale : String → List String → Dict Device String → Dict Device String
drop_stale user_id kept [] = []
drop_stale user_id kept ((c, j) ∷ d) =
    if (c.0 == user_id) && not (holds j kept)
    then drop_stale user_id kept d
    else (c, j) ∷ drop_stale user_id kept d

abbrev pub after_prune : String → TokenStore → Dict String (String × ℕ) × List String → TokenStore
after_prune user_id s (states', []) = record s {
  states = states';
  user_jtis = Dict.pop user_id s.user_jtis;
}
after_prune user_id s (states', k ∷ ks) = record {
  states = states';
  device_map = drop_stale user_id (k ∷ ks) s.device_map;
  user_jtis = Dict.put user_id (k ∷ ks) s.user_jtis;
}

abbrev pub prune_in : String → ℕ → Option (List String) → TokenStore → TokenStore
prune_in user_id now none s = s
prune_in user_id now (some []) s = s
prune_in user_id now (some (j ∷ js)) s =
    after_prune user_id s (drop_expired user_id now (j ∷ js) s.states)

-- `_prune_user`
abbrev pub prune_user : String → ℕ → TokenStore → TokenStore
prune_user user_id now s = prune_in user_id now (Dict.get user_id s.user_jtis) s

-- The user's ids are written back, and the user is forgotten with the last of them.
abbrev pub with_ids : String → List String → TokenStore → TokenStore
with_ids user_id [] s = record s { user_jtis = Dict.pop user_id s.user_jtis }
with_ids user_id (k ∷ ks) s = record s { user_jtis = Dict.put user_id (k ∷ ks) s.user_jtis }

abbrev pub discard_in : String → String → Option (List String) → TokenStore → TokenStore
discard_in user_id jti none s = s
discard_in user_id jti (some []) s = s
discard_in user_id jti (some (i ∷ js)) s = with_ids user_id (discard jti (i ∷ js)) s

-- `_discard_user_jti`
abbrev pub discard_user_jti : String → String → TokenStore → TokenStore
discard_user_jti user_id jti s = discard_in user_id jti (Dict.get user_id s.user_jtis) s

abbrev pub or_nothing : Option (List String) → List String
or_nothing none = []
or_nothing (some js) = js

abbrev pub ids_of : String → TokenStore → List String
ids_of user_id s = or_nothing (Dict.get user_id s.user_jtis)

-- The token of the device so far is dropped, when it is another one.
abbrev pub replace_old : String → String → Option String → TokenStore → TokenStore
replace_old user_id jti none s = s
replace_old user_id jti (some old) s = if (old == "") || (old == jti) then s else record s {
  states = Dict.pop (key user_id old) s.states;
  user_jtis = elim (Dict.get user_id s.user_jtis) [
    | none ↦ s.user_jtis
    | some js ↦ Dict.put user_id (discard old js) s.user_jtis
  ];
}

abbrev pub replaced : String → Option String → Option String
replaced jti none = none
replaced jti (some old) = if old == jti then none else some old

abbrev pub write : String → String → ℕ → Device → TokenStore → TokenStore
write user_id jti expire_at c s = record {
  states = Dict.put (key user_id jti) (jti, expire_at) s.states;
  device_map = Dict.put c jti s.device_map;
  user_jtis = Dict.put user_id (add jti (ids_of user_id s)) s.user_jtis;
}

unfoldable pub save :
    ℕ
    → String
    → String
    → ℕ
    → Option String
    → Option String
    → TokenStore
    → TokenStore × Option String
save now user_id jti ttl_seconds client_id device_id s =
    let c = composite user_id client_id device_id in
    let s' = prune_user user_id now s in
    let old = Dict.get c s'.device_map in
    (write user_id jti (now + ttl_seconds) c (replace_old user_id jti old s'), replaced jti old)

unfoldable pub exists : ℕ → String → String → TokenStore → TokenStore × Bool
exists now user_id jti s = elim (Dict.get (key user_id jti) s.states) [
  | none ↦ (s, false)
  | some (marker, expire_at) ↦ if ltb now expire_at then (s, true) else (
    discard_user_jti user_id jti (record s { states = Dict.pop (key user_id jti) s.states }),
    false,
  )
]

unfoldable pub revoke : String → String → TokenStore → TokenStore × Bool
revoke user_id jti s = elim (Dict.get (key user_id jti) s.states) [
  | none ↦ (s, false)
  | some found ↦ (
    discard_user_jti user_id jti (record s { states = Dict.pop (key user_id jti) s.states }),
    true,
  )
]

unfoldable pub current_jti : String → Option String → Option String → TokenStore → Option String
current_jti user_id client_id device_id s =
    Dict.get (composite user_id client_id device_id) s.device_map
