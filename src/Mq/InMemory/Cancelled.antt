-- ===== src/Mq/InMemory/Cancelled.antt =====
-- What `cancel_delayed` of in_memory_message_queue.py promises, over any further steps of the queue.
use flower_web_infrastructur.Prelude.{
  ℕ, ◌≡◌, ◌⊎◌, refl, ◌∙◌, ap, Bool, true, false, not, ◌&&◌, Option, none, List, [], ◌∷◌, String,
  if◌then◌else◌, ◌==◌, string_eq, ==_refl, any, keep, Bool-cases, Option-cases, inl, inr, arith,
}
use text.Mathlib.TextEquality.{eq_iff}
use flower_web_infrastructur.Prelude.Dict
use flower_web_infrastructur.Prelude.Dict.{Dict}
use flower_web_infrastructur.Mq.InMemory.{
  Message, Config, Queue, Handler, publish, send_delay, is_cancelled, delayed_dispatch,
  cancel_delayed, subscribe, dispatch, requeue_after, conclude, retry_or_dlq, send_to_dlq, call_all,
  Ended, returned, non_retryable, retryable, handlers_of,
}

in_kept :
    (k id : String) (xs : List String)
    → (k == id) ≡ false
    → any (λ (x : String). x == id) xs ≡ true
    → any (λ (x : String). x == id) (keep (λ (x : String). not (x == k)) xs) ≡ true
in_kept k id [] other h = h
in_kept k id (x ∷ xs) other h =
    ground (arith, h, other, eq_iff x k, eq_iff x id, eq_iff k id, in_kept k id xs other)

module _ {W : Type 0} (crc32 : String → ℕ) (c : Config) where
  -- The steps of the queue and its callers, but for a new delayed message under the number `id`.
  pub data Step (id : String) : Queue W → Queue W → Type 0 where
    published : (m : Message) (q : Queue W) → Step id q (publish crc32 c m q).0
    delayed :
        (m : Message) (d : ℕ) (q : Queue W)
        → (m.message_id == id) ≡ false
        → Step id q (send_delay m d q).0
    fell_due : (k : String) (q : Queue W) → Step id q (delayed_dispatch crc32 c k q)
    cancelled_too : (k : String) (q : Queue W) → Step id q (cancel_delayed k q).0
    subscribed : (topic : String) (h : Handler W) (q : Queue W) → Step id q (subscribe topic h q)
    dispatched : (draw : String) (q : Queue W) (w : W) → Step id q (dispatch crc32 c draw q w).0
    requeued : (m : Message) (q : Queue W) → Step id q (requeue_after crc32 c m q)

  pub data Steps (id : String) : Queue W → Queue W → Type 0 where
    stay : (q : Queue W) → Steps id q q
    go : (p q r : Queue W) → Step id p q → Steps id q r → Steps id p r

  -- A number that is cancelled, or of which no delayed message is kept.
  IsDropped : String → Queue W → Type 0
  IsDropped id q = (is_cancelled id q ≡ true) ⊎ (Dict.get id q.delayed_messages ≡ none)

  cancel_delayed-IsDropped :
      (k id : String) (q : Queue W)
      → ((k == id) && (cancel_delayed k q).1 ≡ true) ⊎ IsDropped id q
      → IsDropped id (cancel_delayed k q).0
  unfolding cancel_delayed IsDropped
  cancel_delayed-IsDropped k id q h = elim (Bool-cases (Dict.contains k q.delayed_messages)) [
    | inr absent ↦ rw absent (elim h [ inl p ↦ absurd (ground (arith, absent, p)) | inr d ↦ d ])
    | inl there ↦ rw there (elim (Bool-cases (is_cancelled k q)) [
      | inl before ↦
          rw before (elim h [ inl p ↦ inl (ground (arith, before, p, eq_iff k id)) | inr d ↦ d ])
      | inr new ↦ rw new (elim h [
        | inl p ↦ inl (ground (arith, p))
        | inr (inl d) ↦ inl (ground (arith, d))
        | inr (inr d) ↦ inr d
      ])
    ])
  ]

  delayed_dispatch-IsDropped :
      (k id : String) (q : Queue W) → IsDropped id q → IsDropped id (delayed_dispatch crc32 c k q)
  unfolding delayed_dispatch IsDropped
  delayed_dispatch-IsDropped k id q h = elim (Option-cases (Dict.get k q.delayed_messages)) [
    | inl absent ↦ rw (absent, delayed_dispatch) h
    | inr (m, there) ↦ elim (Bool-cases (is_cancelled k q)) [
      | inl dropped ↦
          rw (there, delayed_dispatch)
            (rw dropped (elim (Bool-cases (k == id)) [
              | inl same ↦ inr (Dict.get-pop k id q.delayed_messages ∙ rw same refl)
              | inr other ↦ elim h [
                | inl d ↦ inl (in_kept k id q.cancelled other d)
                | inr d ↦ inr (Dict.get-pop k id q.delayed_messages ∙ rw other d)
              ]
            ]))
      | inr live ↦
          rw (there, delayed_dispatch)
            (rw live (elim h [
              | inl d ↦ inl d
              | inr d ↦ inr (Dict.get-pop k id q.delayed_messages ∙ empty (k == id) d)
            ]))
    ]
  ]
    where
      empty : (b : Bool) {o : Option Message} → o ≡ none → (if b then none else o) ≡ none
      empty true h = refl
      empty false h = h

  -- A turn of the loop leaves the delayed messages and the cancelled numbers.
  IsSame : Queue W → Queue W → Type 0
  IsSame p q = (p.cancelled ≡ q.cancelled) × (p.delayed_messages ≡ q.delayed_messages)

  retry_or_dlq-IsSame :
      (draw : String) (m : Message) (error : String) (q : Queue W)
      → IsSame (retry_or_dlq crc32 c draw m error q) q
  unfolding retry_or_dlq IsSame
  retry_or_dlq-IsSame draw m error q = unfold send_to_dlq in ground arith

  conclude-IsSame :
      (draw : String) (m : Message) (end : Ended) (q : Queue W)
      → IsSame (conclude crc32 c draw m end q) q
  unfolding conclude IsSame
  conclude-IsSame draw m returned q = (refl, refl)
  conclude-IsSame draw m (non_retryable e) q = unfold send_to_dlq in (refl, refl)
  conclude-IsSame draw m (retryable e) q = unfold IsSame in retry_or_dlq-IsSame draw m e q

  IsSame-IsDropped : (id : String) (p q : Queue W) → IsSame q p → IsDropped id p → IsDropped id q
  unfolding IsSame IsDropped
  IsSame-IsDropped id p q (c', d') h = elim h [
    | inl x ↦ inl (ap (any (λ (y : String). y == id)) c' ∙ x)
    | inr x ↦ inr (ap (λ (d : Dict String Message). Dict.get id d) d' ∙ x)
  ]

  dispatch-IsSame : (draw : String) (q : Queue W) (w : W) → IsSame (dispatch crc32 c draw q w).0 q
  unfolding dispatch IsSame
  dispatch-IsSame draw q w = elim (nil_or q.queue) [
    | inl empty ↦ rw (empty, dispatch) (unfold IsSame in (refl, refl))
    | inr (n, m, rest, there) ↦
        let (w', last) = call_all (handlers_of m.topic q) m returned w in
        rw (there, dispatch) (conclude-IsSame draw m last (record q { queue = rest }))
  ]
    where
      nil_or :
          (xs : List (ℕ × Message))
          → (xs ≡ []) ⊎ ((n : ℕ) × (m : Message) × (ys : List (ℕ × Message)) × (xs ≡ (n, m) ∷ ys))
      nil_or [] = inl refl
      nil_or ((n, m) ∷ ys) = inr (n, m, ys, refl)

  Step-IsDropped : (id : String) (p q : Queue W) → Step id p q → IsDropped id p → IsDropped id q
  unfolding IsDropped
  Step-IsDropped id p q (published m p') h = unfold publish in h
  Step-IsDropped id p q (delayed m d p' other) h =
      unfold send_delay in
      elim h [
        | inl x ↦ inl x
        | inr x ↦ inr (Dict.get-put m.message_id id m p.delayed_messages ∙ rw other x)
      ]
  Step-IsDropped id p q (fell_due k p') h = unfold IsDropped in delayed_dispatch-IsDropped k id p h
  Step-IsDropped id p q (cancelled_too k p') h =
      unfold IsDropped in cancel_delayed-IsDropped k id p (inr h)
  Step-IsDropped id p q (subscribed topic x p') h = unfold subscribe in h
  Step-IsDropped id p q (dispatched draw p' w) h =
      unfold IsDropped in IsSame-IsDropped id p q (dispatch-IsSame draw p w) h
  Step-IsDropped id p q (requeued m p') h = unfold requeue_after in h

  Steps-IsDropped : (id : String) (p q : Queue W) → Steps id p q → IsDropped id p → IsDropped id q
  Steps-IsDropped id p q (stay p') h = h
  Steps-IsDropped id p r (go p' q r' s ss) h = Steps-IsDropped id q r ss (Step-IsDropped id p q s h)

  dropped_undelivered :
      (id : String) (q : Queue W) → IsDropped id q → (delayed_dispatch crc32 c id q).queue ≡ q.queue
  unfolding IsDropped delayed_dispatch
  dropped_undelivered id q h = elim (Option-cases (Dict.get id q.delayed_messages)) [
    | inl absent ↦ rw (absent, delayed_dispatch) refl
    | inr (m, there) ↦ elim h [
      | inl d ↦ rw (there, delayed_dispatch) (rw d refl)
      | inr d ↦ rw (d, delayed_dispatch) refl
    ]
  ]

  -- Once a delayed message is cancelled with success, it is not delivered when it falls due, whatever steps the
  -- queue takes before, so long as no new delayed message is sent under its number.
  pub cancel_delayed-undelivered :
      (id : String) (q r : Queue W)
      → (cancel_delayed id q).1 ≡ true
      → Steps id (cancel_delayed id q).0 r
      → (delayed_dispatch crc32 c id r).queue ≡ r.queue
  cancel_delayed-undelivered id q r h steps = dropped_undelivered id r (
      Steps-IsDropped id (cancel_delayed id q).0 r steps
        (cancel_delayed-IsDropped id id q (inl (both (id == id) (==_refl id) h))))
    where
      both : (a : Bool) {b : Bool} → a ≡ true → b ≡ true → (a && b) ≡ true
      both true x y = y
      both false x y = absurd (cc)
