-- ===== src/Mq/Publisher/Broker.antt =====
-- What a round of `publish_pending` of outbox_publisher.py asks of the broker.
use flower_web_infrastructur.Prelude.{
  ℕ, suc, ◌+◌, ◌≡◌, refl, ◌∙◌, ap, if◌then◌else◌, Option, none, some, List, [], ◌∷◌, String, leb,
  string_eq, arith, Bool-cases, Option-cases, inl, inr,
}
use flower_web_infrastructur.Mq.Outbox.{OutboxRecord, OutboxStore}
use flower_web_infrastructur.Mq.Publisher.{
  Message, PublisherConfig, message_of, dead_letter_of, send_to_dlq, handle_failure, deliver,
  deliver_all,
}

module _ {B : Type 0} (publish : Message → B → B × Option String) (c : PublisherConfig) where
  -- The broker after one record: it was asked to send the message and, if that failed and was the last
  -- retry, the dead letter.
  abbrev pub broker_after : OutboxRecord → B → B
  broker_after r b = elim (publish (message_of r) b).1 [
    | none ↦ (publish (message_of r) b).0
    | some e ↦
        if leb c.max_retries (suc r.retry_count)
        then (publish (dead_letter_of c r e (suc r.retry_count)) (publish (message_of r) b).0).0
        else (publish (message_of r) b).0
  ]

  abbrev one_if_none : Option String → ℕ
  one_if_none none = 1
  one_if_none (some e) = 0

  -- The broker after a list of records, and how many of their messages it took.
  abbrev pub broker_after_all : List OutboxRecord → B → B
  broker_after_all [] b = b
  broker_after_all (r ∷ rs) b = broker_after_all rs (broker_after r b)

  abbrev pub taken : List OutboxRecord → B → ℕ
  taken [] b = 0
  taken (r ∷ rs) b = one_if_none (publish (message_of r) b).1 + taken rs (broker_after r b)

  pub deliver-broker :
      (now : ℕ) (r : OutboxRecord) (s : OutboxStore) (b : B)
      → (deliver publish c now r s b).1 ≡ broker_after r b
  unfolding deliver handle_failure send_to_dlq
  deliver-broker now r s b = elim (Option-cases (publish (message_of r) b).1) [
    | inl done ↦ rw (done, deliver, broker_after) refl
    | inr (e, fails) ↦ elim (Bool-cases (leb c.max_retries (suc r.retry_count))) [
      | inl last ↦ rw (fails, deliver, broker_after, last) refl
      | inr more ↦ rw (fails, deliver, broker_after, more) refl
    ]
  ]

  deliver-taken :
      (now : ℕ) (r : OutboxRecord) (s : OutboxStore) (b : B) (n : ℕ)
      → (if (deliver publish c now r s b).2 then suc n else n)
        ≡ one_if_none (publish (message_of r) b).1 + n
  unfolding deliver
  deliver-taken now r s b n = elim (Option-cases (publish (message_of r) b).1) [
    | inl done ↦ rw (done, deliver) (omega arith)
    | inr (e, fails) ↦ rw (fails, deliver) (omega arith)
  ]

  pub deliver_all-broker :
      (clock : ℕ → ℕ) (i : ℕ) (rs : List OutboxRecord) (s : OutboxStore) (b : B)
      → ((deliver_all publish c clock i rs s b).1 ≡ broker_after_all rs b)
        × ((deliver_all publish c clock i rs s b).2 ≡ taken rs b)
  unfolding deliver_all
  deliver_all-broker clock i [] s b = (refl, refl)
  deliver_all-broker clock i (r ∷ rs) s b =
      let d = deliver publish c (clock i) r s b in
      let (p, q) = deliver_all-broker clock (suc i) rs d.0 d.1 in
      let e = deliver-broker (clock i) r s b in
      (
        p ∙ ap (broker_after_all rs) e,
        deliver-taken (clock i) r s b _
            ∙ ap (λ (n : ℕ). one_if_none (publish (message_of r) b).1 + n) (q ∙ ap (taken rs) e),
      )
