-- ===== src/Mq/Outbox.antt =====
-- capabilities/mq/outbox/in_memory_outbox_store.py, with outbox_record.py and outbox_status.py. Times
-- are whole seconds, and the readings of the clock within one locked section are one argument. A
-- record's payload is opaque. The children prove what a batch is (Batch) and what the store keeps
-- (Store).
pub mod Batch
pub mod Store
use flower_web_infrastructur.Prelude.{
  ℕ, suc, ◌+◌, Bool, true, false, not, ◌&&◌, Option, none, some, List, [], ◌∷◌, String, ltb, leb,
  take, keep, if◌then◌else◌, ◌==◌, string_eq,
}
use flower_web_infrastructur.Prelude.Dict
use flower_web_infrastructur.Prelude.Dict.{Dict}

pub data OutboxStatus : Type 0 where
  pending sent failed dlq : OutboxStatus

unfoldable pub get_code : OutboxStatus → ℕ
get_code pending = 0
get_code sent = 1
get_code failed = 2
get_code dlq = 3

pub record OutboxRecord : Type 0 where
  pub topic : String
  pub biz_id : String
  pub payload : String
  pub tag : String
  pub msg_id : String
  pub status : OutboxStatus
  pub retry_count : ℕ
  pub created_at : Option ℕ
  pub updated_at : Option ℕ
  pub cleaned_at : Option ℕ
  pub next_retry_at : Option ℕ
  pub dlq_at : Option ℕ

abbrev pub OutboxStore : Type 0
OutboxStore = Dict String OutboxRecord

-- `x or y` on optional times.
abbrev pub time_or : Option ℕ → ℕ → ℕ
time_or none y = y
time_or (some x) y = x

abbrev pub is_pending : OutboxStatus → Bool
is_pending pending = true
is_pending _ = false

abbrev pub is_sent : OutboxStatus → Bool
is_sent sent = true
is_sent _ = false

abbrev pub appended : String → ℕ → OutboxRecord → OutboxRecord
appended uuid now r = record r {
  msg_id = if r.msg_id == "" then uuid else r.msg_id;
  status = pending;
  created_at = some (time_or r.created_at now);
  updated_at = some (time_or r.updated_at (time_or r.created_at now));
  next_retry_at = none;
}

-- `uuid` is the number drawn for a record without one.
unfoldable pub append : String → ℕ → OutboxRecord → OutboxStore → OutboxStore × OutboxRecord
append uuid now r s =
    (Dict.put (appended uuid now r).msg_id (appended uuid now r) s, appended uuid now r)

abbrev pub retry_due : ℕ → Option ℕ → Bool
retry_due now none = true
retry_due now (some t) = leb t now

abbrev pub is_due : ℕ → OutboxRecord → Bool
is_due now r = is_pending r.status && retry_due now r.next_retry_at

abbrev pub values : OutboxStore → List OutboxRecord
values [] = []
values ((k, r) ∷ s) = r ∷ values s

-- `list.sort` by the time of creation, which keeps the order of equal times.
unfoldable pub insert_by_age : ℕ → OutboxRecord → List OutboxRecord → List OutboxRecord
insert_by_age now r [] = r ∷ []
insert_by_age now r (x ∷ xs) =
    if ltb (time_or x.created_at now) (time_or r.created_at now)
    then x ∷ insert_by_age now r xs
    else r ∷ x ∷ xs

unfoldable pub sort_by_age : ℕ → List OutboxRecord → List OutboxRecord
unfolding insert_by_age
sort_by_age now [] = []
sort_by_age now (r ∷ rs) = insert_by_age now r (sort_by_age now rs)

unfoldable pub next_pending : ℕ → ℕ → OutboxStore → List OutboxRecord
unfolding sort_by_age
next_pending now limit s = take limit (sort_by_age now (keep (is_due now) (values s)))

-- A record that is there is changed in place.
abbrev pub modify : String → (OutboxRecord → OutboxRecord) → OutboxStore → OutboxStore
modify msg_id f s = elim (Dict.get msg_id s) [ none ↦ s | some r ↦ Dict.put msg_id (f r) s ]

abbrev pub sent_at : ℕ → OutboxRecord → OutboxRecord
sent_at now r = record r { status = sent; next_retry_at = none; updated_at = some now }

unfoldable pub mark_sent : ℕ → String → OutboxStore → OutboxStore
mark_sent now msg_id = modify msg_id (sent_at now)

abbrev pub delayed : ℕ → Option ℕ → Option ℕ → Option ℕ
delayed now none old = old
delayed now (some delay) old = some (now + delay)

abbrev pub failed_at : ℕ → ℕ → Option ℕ → OutboxRecord → OutboxRecord
failed_at now max_retries delay r =
    if leb max_retries (suc r.retry_count)
    then record r {
      status = failed;
      retry_count = suc r.retry_count;
      updated_at = some now;
      next_retry_at = none;
    }
    else record r {
      retry_count = suc r.retry_count;
      updated_at = some now;
      next_retry_at = delayed now delay r.next_retry_at;
    }

unfoldable pub mark_failed : ℕ → String → ℕ → Option ℕ → OutboxStore → OutboxStore
mark_failed now msg_id max_retries delay = modify msg_id (failed_at now max_retries delay)

abbrev pub dlq_at_time : ℕ → OutboxRecord → OutboxRecord
dlq_at_time now r = record r {
  status = dlq;
  next_retry_at = none;
  dlq_at = some now;
  updated_at = some now;
}

unfoldable pub mark_dlq : ℕ → String → OutboxStore → OutboxStore
mark_dlq now msg_id = modify msg_id (dlq_at_time now)

abbrev pub is_stale : ℕ → ℕ → OutboxRecord → Bool
is_stale now before r = is_sent r.status && ltb (time_or r.created_at now) before

-- The store without the stale records, and their number.
unfoldable pub cleanup_sent : ℕ → ℕ → OutboxStore → OutboxStore × ℕ
cleanup_sent now before [] = ([], 0)
cleanup_sent now before ((k, r) ∷ s) =
    let (kept, removed) = cleanup_sent now before s in
    if is_stale now before r then (kept, suc removed) else ((k, r) ∷ kept, removed)
