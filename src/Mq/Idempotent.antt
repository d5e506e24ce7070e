-- ===== src/Mq/Idempotent.antt =====
-- capabilities/mq/idempotent_consumer.py over in_memory_message_idempotency_store.py. A key is the
-- pair of its prefix and its text; times are whole seconds. The handler is given by how it ends, and
-- by what other tasks do to the store while it is awaited; an end by a BaseException that is no Exception,
-- a cancellation for one, is left out.
use flower_web_infrastructur.Prelude.{
  ℕ, ◌+◌, ◌*◌, ◌<◌, ◌≡◌, refl, ◌∙◌, Bool, true, false, not, Option, none, some, List, [], ◌∷◌,
  String, leb, arith, if◌then◌else◌, ◌==◌, string_eq, pair_eq, All, Bool-cases, inl, inr, ◌⊎◌,
  ==_refl, pair_beq_iff,
}
use flower_web_infrastructur.Prelude.Dict
use flower_web_infrastructur.Prelude.Dict.{
  Dict, get-put, get-put_self, get-pop, contains-get, get-contains, contains-get-some,
}

abbrev pub Key : Type 0
Key = String × String

-- key -> expire_at
abbrev pub KeyStore : Type 0
KeyStore = Dict Key ℕ

unfoldable pub drop_expired : ℕ → KeyStore → KeyStore
drop_expired now [] = []
drop_expired now ((k, t) ∷ s) =
    if leb t now then drop_expired now s else (k, t) ∷ drop_expired now s

unfoldable pub try_consume : ℕ → Key → ℕ → KeyStore → KeyStore × Bool
try_consume now key ttl s =
    let s' = drop_expired now s in
    if Dict.contains key s' then (s', false) else (Dict.put key (now + ttl) s', true)

unfoldable pub release : Key → KeyStore → KeyStore
release key s = Dict.pop key s

-- The fields that the consumer reads; `biz_id` is what the body holds under its field, if that is
-- not empty.
pub record Message : Type 0 where
  pub message_id : String
  pub biz_id : Option String

abbrev pub biz_id_of : Message → String
biz_id_of m = elim m.biz_id [ none ↦ m.message_id | some b ↦ b ]

unfoldable pub build_key : Message → Key
build_key m =
    if not (biz_id_of m == m.message_id) then ("biz:", biz_id_of m) else ("msg:", m.message_id)

pub data Outcome : Type 0 where
  executed : Outcome
  skipped : Outcome
  failed : Outcome

-- `succeeds` says whether the handler returns or raises.
unfoldable pub consume :
    ℕ → ℕ → Message → Bool → (KeyStore → KeyStore) → KeyStore → KeyStore × Outcome
consume now retain_days m succeeds during s =
    let (s', first) = try_consume now (build_key m) (retain_days * 86400) s in
    if not first
    then (s', skipped)
    else if succeeds
    then (during s', executed)
    else (release (build_key m) (during s'), failed)

-- A delivery: when, which message, and how its handler ends.
abbrev pub Delivery : Type 0
Delivery = ℕ × Message × Bool

unfoldable pub consume_one : ℕ → Delivery → KeyStore → KeyStore × Outcome
unfolding consume
consume_one retain_days (now, m, succeeds) s = consume now retain_days m succeeds (λ s'. s') s

-- The outcomes of the deliveries whose message has the key `k`.
unfoldable pub outcomes : ℕ → Key → List Delivery → KeyStore → List Outcome
outcomes retain_days k [] s = []
outcomes retain_days k ((now, m, succeeds) ∷ ds) s =
    let (s', o) = consume_one retain_days (now, m, succeeds) s in
    let rest = outcomes retain_days k ds s' in if build_key m == k then o ∷ rest else rest

get-drop_expired :
    (now : ℕ) (k : Key) (t : ℕ) (s : KeyStore)
    → Dict.get k s ≡ some t
    → now < t
    → Dict.get k (drop_expired now s) ≡ some t
unfolding drop_expired
get-drop_expired now k t [] h l = cc
get-drop_expired now k t ((j, u) ∷ s) h l = elim (Bool-cases (j == k)) [
  | inl same ↦
      let e : some u ≡ some t = rw same at h in
      let live : leb u now ≡ false = ground arith in rw (live, same) e
  | inr other ↦
      let ih = get-drop_expired now k t s (rw other at h) l in
      elim (Bool-cases (leb u now)) [ inl old ↦ rw old ih | inr live ↦ rw (live, other) ih ]
]

-- A key that is held until `t` is still held after any delivery before that, and a delivery of the
-- key itself is skipped.
held :
    (retain_days now t : ℕ) (k : Key) (m : Message) (succeeds : Bool) (s : KeyStore)
    → Dict.get k s ≡ some t
    → now < t
    → (Dict.get k (consume_one retain_days (now, m, succeeds) s).0 ≡ some t)
      × ((build_key m == k) ≡ false ⊎ ((consume_one retain_days (now, m, succeeds) s).1 ≡ skipped))
unfolding consume_one try_consume
held retain_days now t k m succeeds s h l =
    let key : Key = build_key m in
    let s' : KeyStore = drop_expired now s in
    let live : Dict.get k s' ≡ some t = get-drop_expired now k t s h l in
    elim (Bool-cases (key == k)) [
      | inl same ↦
          let e : key ≡ k = (pair_beq_iff key k).0 same in
          let there : Dict.contains key s' ≡ true = contains-get-some key t s' (rw e live) in
          rw (there, consume, try_consume) (live, inr refl)
      | inr other ↦ elim (Bool-cases (Dict.contains key s')) [
        | inl there ↦ rw (there, consume, try_consume) (live, inl other)
        | inr new ↦
            let put_live : Dict.get k (Dict.put key (now + retain_days * 86400) s') ≡ some t =
              get-put key k (now + retain_days * 86400) s' ∙ rw other live in
            (
              (elim (Bool-cases succeeds) [
                | inl good ↦ rw (new, consume, try_consume, good) put_live
                | inr bad ↦
                    rw (new, consume, try_consume, bad)
                      (unfold release in
                        get-pop key k (Dict.put key (now + retain_days * 86400) s')
                        ∙ rw other put_live)
              ]),
              inl other,
            )
      ]
    ]

-- All deliveries come before the time `t`.
abbrev pub AllBefore : ℕ → List Delivery → Type 0
AllBefore t [] = Unit
AllBefore t ((now, m, succeeds) ∷ ds) = (now < t) × AllBefore t ds

held-skipped :
    (retain_days t : ℕ) (k : Key) (ds : List Delivery) (s : KeyStore)
    → Dict.get k s ≡ some t
    → AllBefore t ds
    → All (λ o. o ≡ skipped) (outcomes retain_days k ds s)
unfolding outcomes
held-skipped retain_days t k [] s h b = tt
held-skipped retain_days t k ((now, m, succeeds) ∷ ds) s h b =
    let (h', mine) = held retain_days now t k m succeeds s h b.0 in
    let ih =
      held-skipped retain_days t k ds (consume_one retain_days (now, m, succeeds) s).0 h' b.1 in
    elim mine [
      | inl other ↦ rw other ih
      | inr skip ↦ elim (Bool-cases (build_key m == k)) [
        | inl this ↦ rw this (skip, ih)
        | inr other ↦ rw other ih
      ]
    ]

-- Once a message was executed, no message of the same key is executed again while the key is kept:
-- of the deliveries that come before `now` plus the days of retention, in whatever order and with
-- whatever other messages in between, those of its key are all skipped.
pub executed_once :
    (retain_days now : ℕ) (m : Message) (succeeds : Bool) (s : KeyStore) (ds : List Delivery)
    → (consume_one retain_days (now, m, succeeds) s).1 ≡ executed
    → AllBefore (now + retain_days * 86400) ds
    → All
        (λ o. o ≡ skipped)
        (outcomes retain_days (build_key m) ds (consume_one retain_days (now, m, succeeds) s).0)
unfolding consume_one try_consume
executed_once retain_days now m succeeds s ds done b =
    let key : Key = build_key m in
    let s' : KeyStore = drop_expired now s in
    elim (Bool-cases (Dict.contains key s')) [
      | inl there ↦
          let e : skipped ≡ executed = rw (there, consume, try_consume) at done in
          absurd (ground arith)
      | inr new ↦ elim (Bool-cases succeeds) [
        | inr bad ↦
            let e : failed ≡ executed = rw (new, consume, try_consume, bad) at done in
            absurd (ground arith)
        | inl good ↦
            rw (new, consume, try_consume, good)
              (held-skipped retain_days (now + retain_days * 86400) key ds
                (Dict.put key (now + retain_days * 86400) s')
                (get-put_self key (now + retain_days * 86400) s') b)
      ]
    ]

get-none-drop_expired :
    (now : ℕ) (k : Key) (s : KeyStore)
    → Dict.get k s ≡ none
    → Dict.get k (drop_expired now s) ≡ none
unfolding drop_expired
get-none-drop_expired now k [] h = refl
get-none-drop_expired now k ((j, u) ∷ s) h = ground (arith, get-none-drop_expired now k s)

-- A handler that raised leaves no trace of its key.
failed-absent :
    (retain_days now : ℕ) (m : Message) (succeeds : Bool) (s : KeyStore)
    → (consume_one retain_days (now, m, succeeds) s).1 ≡ failed
    → Dict.get (build_key m) (consume_one retain_days (now, m, succeeds) s).0 ≡ none
unfolding consume_one try_consume
failed-absent retain_days now m succeeds s bad =
    let key : Key = build_key m in
    let s' : KeyStore = drop_expired now s in
    elim (Bool-cases (Dict.contains key s')) [
      | inl there ↦
          let e : skipped ≡ failed = rw (there, consume, try_consume) at bad in
          absurd (ground arith)
      | inr new ↦ elim (Bool-cases succeeds) [
        | inl good ↦
            let e : executed ≡ failed = rw (new, consume, try_consume, good) at bad in
            absurd (ground arith)
        | inr raised ↦
            rw (new, consume, try_consume, raised)
              (unfold release in
                get-pop key key (Dict.put key (now + retain_days * 86400) s')
                ∙ rw (==_refl key) refl)
      ]
    ]

-- A key that is not held lets its message run.
absent-runs :
    (retain_days now : ℕ) (m : Message) (succeeds : Bool) (s : KeyStore)
    → Dict.get (build_key m) s ≡ none
    → (consume_one retain_days (now, m, succeeds) s).1 ≡ (if succeeds then executed else failed)
unfolding consume_one try_consume
absent-runs retain_days now m succeeds s absent =
    let new : Dict.contains (build_key m) (drop_expired now s) ≡ false =
      get-contains (build_key m) (drop_expired now s)
        (get-none-drop_expired now (build_key m) s absent) in
    elim (Bool-cases succeeds) [
      | inl good ↦ rw (new, consume, try_consume, good) refl
      | inr raised ↦ rw (new, consume, try_consume, raised) refl
    ]

-- A message whose handler failed is tried again: its key is given up, so that the next delivery of a
-- message with the same key runs its handler, whenever it comes.
pub failed_again :
    (retain_days now later : ℕ) (m m' : Message) (succeeds succeeds' : Bool) (s : KeyStore)
    → (consume_one retain_days (now, m, succeeds) s).1 ≡ failed
    → build_key m' ≡ build_key m
    → (consume_one retain_days
        (later, m', succeeds')
        (consume_one retain_days (now, m, succeeds) s).0).1
      ≡ (if succeeds' then executed else failed)
failed_again retain_days now later m m' succeeds succeeds' s bad same =
    absent-runs retain_days later m' succeeds' (consume_one retain_days (now, m, succeeds) s).0
      (rw same (failed-absent retain_days now m succeeds s bad))
