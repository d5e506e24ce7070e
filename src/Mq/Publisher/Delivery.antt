-- ===== src/Mq/Publisher/Delivery.antt =====
-- What a round of `publish_pending` of outbox_publisher.py does to the records of the store.
use text.Mathlib.TextEquality.{eq_iff}
use flower_web_infrastructur.Prelude.{
  ℕ, suc, ◌+◌, ◌≤◌, ◌<◌, ◌≡◌, refl, ◌∙◌, subst, true, false, Option, none, some, List, [], ◌∷◌,
  String, leb, ◌==◌, string_eq, All, All-imp, All-both, arith, Bool-cases, Option-cases, inl, inr,
  ◌⊎◌, ==_refl,
}
use flower_web_infrastructur.Prelude.Dict
use flower_web_infrastructur.Mq.Outbox.{
  sent, dlq, OutboxRecord, OutboxStore, modify, next_pending, mark_sent, mark_failed, mark_dlq,
  sent_at, failed_at, dlq_at_time, is_due,
}
use flower_web_infrastructur.Mq.Outbox.Store.{Keyed, Distinct, get-modify}
use flower_web_infrastructur.Mq.Outbox.Batch.{next_pending-found}
use flower_web_infrastructur.Mq.Publisher.{
  Message, PublisherConfig, message_of, backoff, handle_failure, deliver, deliver_all,
  publish_pending,
}
use flower_web_infrastructur.Mq.Publisher.Broker.{
  broker_after, broker_after_all, taken, deliver-broker, deliver_all-broker,
}

-- What became of a record `r` that was tried at the time `now`, where the broker answered with an
-- error or none: without one it was sent; with one, it is a dead letter if this was the last retry,
-- and otherwise waits for the next retry, twice as long as before.
abbrev pub Treated : PublisherConfig → ℕ → Option String → OutboxRecord → OutboxRecord → Type 0
Treated c now none r r' =
    (r'.status ≡ sent) × (r'.retry_count ≡ r.retry_count) × (r'.next_retry_at ≡ none)
Treated c now (some e) r r' =
    ((r'.status ≡ dlq)
      × (r'.retry_count ≡ suc r.retry_count)
      × (c.max_retries ≤ r'.retry_count)
      × (r'.dlq_at ≡ some now)
      × (r'.next_retry_at ≡ none))
    ⊎ ((r'.status ≡ r.status)
        × (r'.retry_count ≡ suc r.retry_count)
        × (r'.retry_count < c.max_retries)
        × (r'.next_retry_at ≡ some (now + backoff c r.retry_count)))

-- `s'` differs from `s` at most in the record of number `k`.
abbrev OnlyAt : String → OutboxStore → OutboxStore → Type 0
OnlyAt k s s' = (j : String) → (k == j) ≡ false → Dict.get j s' ≡ Dict.get j s

modify-OnlyAt :
    (k : String) (f : OutboxRecord → OutboxRecord) (s : OutboxStore) → OnlyAt k s (modify k f s)
modify-OnlyAt k f s j h = get-modify k j f s ∙ rw h refl

get-modify_self :
    (k : String) (f : OutboxRecord → OutboxRecord) (s : OutboxStore) (r : OutboxRecord)
    → Dict.get k s ≡ some r
    → Dict.get k (modify k f s) ≡ some (f r)
get-modify_self k f s r h = get-modify k k f s ∙ rw (==_refl k, h) refl

still-found :
    (r : OutboxRecord) (rs : List OutboxRecord) (s s' : OutboxStore)
    → OnlyAt r.msg_id s s'
    → All (λ x. Dict.get x.msg_id s ≡ some x) rs
    → All (λ x. (r.msg_id == x.msg_id) ≡ false) rs
    → All (λ x. Dict.get x.msg_id s' ≡ some x) rs
still-found r rs s s' only found d =
    All-imp (λ x. (Dict.get x.msg_id s ≡ some x) × ((r.msg_id == x.msg_id) ≡ false))
      (λ x. Dict.get x.msg_id s' ≡ some x) (λ x h. only x.msg_id h.1 ∙ h.0) rs
      (All-both (λ x. Dict.get x.msg_id s ≡ some x) (λ x. (r.msg_id == x.msg_id) ≡ false) rs found
        d)

flip_ids :
    (r : OutboxRecord) (rs : List OutboxRecord)
    → All (λ x. (r.msg_id == x.msg_id) ≡ false) rs
    → All (λ x. (x.msg_id == r.msg_id) ≡ false) rs
flip_ids r rs d =
    All-imp (λ x. (r.msg_id == x.msg_id) ≡ false) (λ x. (x.msg_id == r.msg_id) ≡ false)
      (λ x h. ground (arith, eq_iff x.msg_id r.msg_id, eq_iff r.msg_id x.msg_id)) rs d

-- Some record of a list.
abbrev pub Any : (OutboxRecord → Type 0) → List OutboxRecord → Type 0
Any P [] = ⊥
Any P (r ∷ rs) = P r ⊎ Any P rs

among :
    (j : String) (rs : List OutboxRecord)
    → Any (λ r. r.msg_id ≡ j) rs ⊎ All (λ r. (r.msg_id == j) ≡ false) rs
among j [] = inr tt
among j (r ∷ rs) = elim (Bool-cases (r.msg_id == j)) [
  | inl this ↦ inl (inl ((eq_iff r.msg_id j).0 this))
  | inr other ↦ elim (among j rs) [
    | inl later ↦ inl (inr later)
    | inr none_there ↦ inr (other, none_there)
  ]
]

module _ {B : Type 0} (publish : Message → B → B × Option String) (c : PublisherConfig) where
  -- How one record is treated, and that no other is touched.
  abbrev Step : ℕ → OutboxRecord → Option String → OutboxStore → OutboxStore → Type 0
  Step now r error s s' =
      (r' : OutboxRecord) × (Dict.get r.msg_id s' ≡ some r')
      × Treated c now error r r'
      × OnlyAt r.msg_id s s'

  failure-Step :
      (now : ℕ) (r : OutboxRecord) (e : String) (s : OutboxStore) (b : B)
      → Dict.get r.msg_id s ≡ some r
      → Step now r (some e) s (handle_failure publish c now r e s b).0
  unfolding handle_failure mark_dlq mark_failed
  failure-Step now r e s b found = elim (Bool-cases (leb c.max_retries (suc r.retry_count))) [
    | inl last ↦
        let f : OutboxRecord → OutboxRecord = failed_at now c.max_retries none in
        let s1 : OutboxStore = modify r.msg_id f s in
        let found1 : Dict.get r.msg_id s1 ≡ some (f r) = get-modify_self r.msg_id f s r found in
        rw last (
          dlq_at_time now (f r),
          get-modify_self r.msg_id (dlq_at_time now) s1 (f r) found1,
          inl (refl, rw last refl, rw last (ground arith), refl, refl),
          (λ j h. modify-OnlyAt r.msg_id (dlq_at_time now) s1 j h ∙ modify-OnlyAt r.msg_id f s j h),
        )
    | inr more ↦
        let f : OutboxRecord → OutboxRecord =
          failed_at now c.max_retries (some (backoff c r.retry_count)) in
        rw more (
          f r,
          get-modify_self r.msg_id f s r found,
          inr (rw more refl, rw more refl, rw more (ground arith), rw more refl),
          modify-OnlyAt r.msg_id f s,
        )
  ]

  deliver-Step :
      (now : ℕ) (r : OutboxRecord) (s : OutboxStore) (b : B)
      → Dict.get r.msg_id s ≡ some r
      → Step now r (publish (message_of r) b).1 s (deliver publish c now r s b).0
  unfolding deliver mark_sent
  deliver-Step now r s b found = elim (Option-cases (publish (message_of r) b).1) [
    | inl done ↦
        rw (done, deliver)
          (
            sent_at now r,
            get-modify_self r.msg_id (sent_at now) s r found,
            (refl, refl, refl),
            modify-OnlyAt r.msg_id (sent_at now) s,
          )
    | inr (e, fails) ↦
        rw (fails, deliver) (failure-Step now r e s (publish (message_of r) b).0 found)
  ]

  module _ (clock : ℕ → ℕ) where
    -- The records of a round that starts at index `i` with the broker `b`: each was treated at the
    -- reading for its index, by the broker's answer to its message.
    abbrev pub AllTreated : ℕ → List OutboxRecord → B → OutboxStore → Type 0
    AllTreated i [] b s' = Unit
    AllTreated i (r ∷ rs) b s' =
        ((r' : OutboxRecord) × (Dict.get r.msg_id s' ≡ some r')
          × Treated c (clock i) (publish (message_of r) b).1 r r')
        × AllTreated (suc i) rs (broker_after publish c r b) s'

    deliver_all-outside :
        (i : ℕ) (rs : List OutboxRecord) (s : OutboxStore) (b : B) (j : String)
        → All (λ r. Dict.get r.msg_id s ≡ some r) rs
        → Distinct rs
        → All (λ r. (r.msg_id == j) ≡ false) rs
        → Dict.get j (deliver_all publish c clock i rs s b).0 ≡ Dict.get j s
    unfolding deliver_all
    deliver_all-outside i [] s b j found d out = refl
    deliver_all-outside i (r ∷ rs) s b j found d out =
        let (r', at, t, only) = deliver-Step (clock i) r s b found.0 in
        let b' : B = (deliver publish c (clock i) r s b).1 in
        let s' : OutboxStore = (deliver publish c (clock i) r s b).0 in
        deliver_all-outside (suc i) rs s' b' j (still-found r rs s s' only found.1 d.0) d.1 out.1
        ∙ only j out.0

    deliver_all-AllTreated :
        (i : ℕ) (rs : List OutboxRecord) (s : OutboxStore) (b : B)
        → All (λ r. Dict.get r.msg_id s ≡ some r) rs
        → Distinct rs
        → AllTreated i rs b (deliver_all publish c clock i rs s b).0
    unfolding deliver_all
    deliver_all-AllTreated i [] s b found d = tt
    deliver_all-AllTreated i (r ∷ rs) s b found d =
        let (r', at, t, only) = deliver-Step (clock i) r s b found.0 in
        let b' : B = (deliver publish c (clock i) r s b).1 in
        let s' : OutboxStore = (deliver publish c (clock i) r s b).0 in
        let found' = still-found r rs s s' only found.1 d.0 in
        (
          (
            r',
            deliver_all-outside (suc i) rs s' b' r.msg_id found' d.1 (flip_ids r rs d.0) ∙ at,
            t,
          ),
          subst
              (λ (x : B). AllTreated (suc i) rs x (deliver_all publish c clock (suc i) rs s' b').0)
              (deliver-broker publish c (clock i) r s b)
              (deliver_all-AllTreated (suc i) rs s' b' found' d.1),
        )

    -- In a round the broker is asked to send the message of each record of the batch, in order, and
    -- after a last failed retry its dead letter. A record is SENT afterwards where the broker took its
    -- message; where the broker answered with an error it has used up its retries and is a dead letter,
    -- or waits with one retry more for a time after the backoff `base * 2 ** retries`. The result is how
    -- many messages the broker took, and every record that was not in the batch is as it was. Whatever
    -- the broker does.
    pub publish_pending-AllTreated :
        (now : ℕ) (s : OutboxStore) (b : B) (j : String)
        → Keyed s
        → let batch = next_pending now c.batch_size s in
          let s' = (publish_pending publish c now clock s b).0 in
          AllTreated 0 batch b s'
          × ((publish_pending publish c now clock s b).1 ≡ broker_after_all publish c batch b)
          × ((publish_pending publish c now clock s b).2 ≡ taken publish c batch b)
          × ((Dict.get j s' ≡ Dict.get j s) ⊎ Any (λ r. r.msg_id ≡ j) batch)
    unfolding publish_pending
    publish_pending-AllTreated now s b j v =
        let (facts, d) = next_pending-found now c.batch_size s v in
        let batch : List OutboxRecord = next_pending now c.batch_size s in
        let found : All (λ r. Dict.get r.msg_id s ≡ some r) batch =
          All-imp (λ r. (Dict.get r.msg_id s ≡ some r) × (is_due now r ≡ true))
            (λ r. Dict.get r.msg_id s ≡ some r) (λ r h. h.0) batch facts in
        (
          deliver_all-AllTreated 0 batch s b found d,
          (deliver_all-broker publish c clock 0 batch s b).0,
          (deliver_all-broker publish c clock 0 batch s b).1,
          elim (among j batch) [
            | inl member ↦ inr member
            | inr out ↦ inl (deliver_all-outside 0 batch s b j found d out)
          ],
        )
