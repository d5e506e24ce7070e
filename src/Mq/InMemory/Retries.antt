-- ===== src/Mq/InMemory/Retries.antt =====
-- How often in_memory_message_queue.py tries a message again.
use flower_web_infrastructur.Prelude.{
  ℕ, zero, suc, ◌+◌, ◌-◌, ◌*◌, ◌^◌, ◌≤◌, ◌<◌, ◌≡◌, refl, ◌∙◌, ap, true, false, none, [], ◌∷◌, ◌++◌,
  String, string_eq, ==_refl, ◌⊎◌, inl, inr, Bool-cases, ltb, leb, le→leb, arith,
}
use flower_web_infrastructur.Prelude.Dict
use flower_web_infrastructur.Prelude.Dict.{Dict}
use flower_web_infrastructur.Mq.InMemory.{
  Message, Config, Queue, count_or_zero, retry_or_dlq, send_to_dlq, conclude, retryable,
  dead_letter_of, put, partition_of, requeue_after, dispatch, call_all, handlers_of, returned,
}

pred : (k : ℕ) → k + 1 - 1 ≡ k
pred k = omega arith

module _ {W : Type 0} (crc32 : String → ℕ) (c : Config) (m : Message) (draw error : String) where
  abbrev count : Queue W → ℕ
  count q = count_or_zero (Dict.get m.message_id q.retry_counts)

  retried : ℕ → Queue W → Queue W
  retried k q = record q {
    retry_counts = Dict.put m.message_id (k + 1) q.retry_counts;
    requeues = q.requeues ++ (m, c.retry_backoff_seconds * 2 ^ k) ∷ [];
  }

  retry_again :
      (k : ℕ) (q : Queue W)
      → count q ≡ k
      → k < c.max_retries
      → conclude crc32 c draw m (retryable error) q ≡ retried k q
  unfolding conclude retry_or_dlq retried
  retry_again k q e h =
      let below : leb (count q + 1) c.max_retries ≡ true =
        le→leb (count q + 1) c.max_retries (omega (arith, e, h)) in
      rw below (
        ap
          (λ (j : ℕ). record q {
            retry_counts = Dict.put m.message_id (count q + 1) q.retry_counts;
            requeues = q.requeues ++ (m, c.retry_backoff_seconds * 2 ^ j) ∷ [];
          })
          (pred (count q) ∙ e)
        ∙ ap
            (λ (j : ℕ). record q {
              retry_counts = Dict.put m.message_id (j + 1) q.retry_counts;
              requeues = q.requeues ++ (m, c.retry_backoff_seconds * 2 ^ k) ∷ [];
            })
            e)

  give_up :
      (q : Queue W)
      → count q ≡ c.max_retries
      → conclude crc32 c draw m (retryable error) q
        ≡ put crc32 c
            (dead_letter_of c draw m error c.max_retries)
            (record q { retry_counts = Dict.pop m.message_id q.retry_counts })
  unfolding conclude retry_or_dlq send_to_dlq
  give_up q e =
      let above : leb (count q + 1) c.max_retries ≡ false = above_lem (count q) e in
      rw above (
        ap
          (λ (j : ℕ).
            put crc32 c (dead_letter_of c draw m error j)
              (record q { retry_counts = Dict.pop m.message_id q.retry_counts }))
          (pred (count q) ∙ e))
    where
      above_lem : (j : ℕ) → j ≡ c.max_retries → leb (j + 1) c.max_retries ≡ false
      above_lem j h = ground (arith, h)

  -- The first task that sleeps before a requeue wakes up and goes on.
  abbrev pub wake : Queue W → Queue W
  wake q = elim q.requeues [
    | [] ↦ q
    | (x, delay) ∷ rest ↦ requeue_after crc32 c x (record q { requeues = rest })
  ]

  -- Turns of the dispatch loop, each followed by the end of a sleep.
  unfoldable pub turns : ℕ → Queue W → W → Queue W × W
  unfolding requeue_after
  turns zero q w = (q, w)
  turns (suc n) q w = turns n (wake (dispatch crc32 c draw q w).0) (dispatch crc32 c draw q w).1

  -- The message waits alone and no task sleeps before a requeue.
  abbrev pub alone : Queue W → ℕ → Dict String ℕ → Queue W
  alone q p counts = record q { queue = (p, m) ∷ []; requeues = []; retry_counts = counts }

  -- The handlers of the message end with a retryable exception as the last one, whatever their world.
  abbrev pub IsFailing : Queue W → Type 0
  IsFailing q = (w : W) → (call_all (handlers_of m.topic q) m returned w).1 ≡ retryable error

  dispatch_failed :
      (q : Queue W) (p k : ℕ) (counts : Dict String ℕ) (w : W)
      → IsFailing q
      → count_or_zero (Dict.get m.message_id counts) ≡ k
      → k < c.max_retries
      → (dispatch crc32 c draw (alone q p counts) w).0
        ≡ retried k (record (alone q p counts) { queue = [] })
  unfolding dispatch
  dispatch_failed q p k counts w fails e h =
      rw (fails w) (retry_again k (record (alone q p counts) { queue = [] }) e h)

  dispatch_last :
      (q : Queue W) (p : ℕ) (counts : Dict String ℕ) (w : W)
      → IsFailing q
      → count_or_zero (Dict.get m.message_id counts) ≡ c.max_retries
      → (dispatch crc32 c draw (alone q p counts) w).0
        ≡ put crc32 c
            (dead_letter_of c draw m error c.max_retries)
            (record q { queue = []; requeues = []; retry_counts = Dict.pop m.message_id counts })
  unfolding dispatch
  dispatch_last q p counts w fails e =
      rw (fails w) (give_up (record (alone q p counts) { queue = [] }) e)

  turns-alone :
      (n k p : ℕ) (q : Queue W) (counts : Dict String ℕ) (w : W)
      → IsFailing q
      → count_or_zero (Dict.get m.message_id counts) ≡ k
      → k + n ≤ c.max_retries
      → (p' : ℕ) × (counts' : Dict String ℕ) × ((turns n (alone q p counts) w).0
          ≡ alone q p' counts')
        × (count_or_zero (Dict.get m.message_id counts') ≡ k + n)
  unfolding turns retried requeue_after
  turns-alone zero k p q counts w fails e h = (p, counts, refl, e ∙ omega arith)
  turns-alone (suc n) k p q counts w fails e h =
      let one = dispatch_failed q p k counts w fails e (omega (arith, h)) in
      let (p', counts', same, n') =
        turns-alone n (suc k) (partition_of crc32 c m) q (Dict.put m.message_id (k + 1) counts)
          (dispatch crc32 c draw (alone q p counts) w).1 fails
          (ap count_or_zero (Dict.get-put_self m.message_id (k + 1) counts) ∙ omega arith)
          (omega (arith, h)) in
      (
        p',
        counts',
        ap (λ (x : Queue W). (turns n (wake x) (dispatch crc32 c draw (alone q p counts) w).1).0)
              one
            ∙ same,
        n' ∙ omega arith,
      )

  -- A message that waits alone, has not failed yet, and whose handlers end every turn with a retryable
  -- exception as the last one: in each of its first max_retries turns it is taken from the queue and
  -- put to sleep alone, in the first turn for the backoff and in every further turn twice as long as in
  -- the turn before. The turn after that sends one dead letter, which gives that number of retries,
  -- forgets the count, and schedules nothing.
  pub turns-exhausted :
      (k p : ℕ) (q : Queue W) (counts : Dict String ℕ) (w : W)
      → IsFailing q
      → Dict.get m.message_id counts ≡ none
      → k ≤ c.max_retries
      → let (s, w') = turns k (alone q p counts) w in
        let q' = (dispatch crc32 c draw s w').0 in
        ((k < c.max_retries)
          × (q'.queue ≡ [])
          × (q'.requeues ≡ (m, c.retry_backoff_seconds * 2 ^ k) ∷ []))
        ⊎ ((k ≡ c.max_retries)
            × (q'.queue
                ≡ (
                  partition_of crc32 c (dead_letter_of c draw m error c.max_retries),
                  dead_letter_of c draw m error c.max_retries,
                )
                  ∷ [])
            × (q'.requeues ≡ [])
            × (Dict.get m.message_id q'.retry_counts ≡ none))
  unfolding retried
  turns-exhausted k p q counts w fails new h =
      let (p', counts', same, n) =
        turns-alone k 0 p q counts w fails (ap count_or_zero new) (omega (arith, h)) in
      let w' : W = (turns k (alone q p counts) w).1 in
      elim (Bool-cases (ltb k c.max_retries)) [
        | inl below ↦
            let e =
              ap (λ (x : Queue W). (dispatch crc32 c draw x w').0) same
              ∙ dispatch_failed q p' k counts' w' fails (n ∙ omega arith) (ground (arith, below)) in
            inl (
              ground (arith, below),
              ap (λ (x : Queue W). x.queue) e,
              ap (λ (x : Queue W). x.requeues) e,
            )
        | inr above ↦
            let full : k ≡ c.max_retries = ground (arith, above, h) in
            let e =
              ap (λ (x : Queue W). (dispatch crc32 c draw x w').0) same
              ∙ dispatch_last q p' counts' w' fails (n ∙ omega (arith, full)) in
            inr (
              full,
              ap (λ (x : Queue W). x.queue) e,
              ap (λ (x : Queue W). x.requeues) e,
              ap (λ (x : Queue W). Dict.get m.message_id x.retry_counts) e
                  ∙ (Dict.get-pop m.message_id m.message_id counts'
                      ∙ rw (==_refl m.message_id) refl),
            )
      ]
