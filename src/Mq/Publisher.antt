-- ===== src/Mq/Publisher.antt =====
-- capabilities/mq/outbox/outbox_publisher.py over the in-memory store, with the fields of message.py
-- that it fills. The broker is not part of the program: `publish` says what sending a message does to
-- it and with which error it ends, if any. The clock is read once for each record of a round.
pub mod Broker
pub mod Delivery
use flower_web_infrastructur.Prelude.{
  ℕ, suc, ◌+◌, ◌*◌, ◌^◌, Bool, true, false, Option, none, some, List, [], ◌∷◌, String, leb,
  if◌then◌else◌,
}
use flower_web_infrastructur.Mq.Outbox.{
  OutboxRecord, OutboxStore, next_pending, mark_sent, mark_failed, mark_dlq,
}

-- A dead letter wraps the message that could not be sent.
pub data Body : Type 0 where
  payload : String → Body
  dead_letter :
      (original_msg_id original_topic biz_id : String) (retry_count : ℕ) (error original : String)
      → Body

-- A dead letter draws its own number, which nothing reads.
pub record Message : Type 0 where
  pub message_id : Option String
  pub topic : String
  pub tag : String
  pub body : Body

pub record PublisherConfig : Type 0 where
  pub batch_size : ℕ
  pub max_retries : ℕ
  pub backoff_seconds : ℕ
  pub dlq_topic : String

abbrev pub message_of : OutboxRecord → Message
message_of r = record {
  message_id = some r.msg_id;
  topic = r.topic;
  tag = r.tag;
  body = payload r.payload;
}

abbrev pub dead_letter_of : PublisherConfig → OutboxRecord → String → ℕ → Message
dead_letter_of c r error retry_count = record {
  message_id = none;
  topic = c.dlq_topic;
  tag = r.tag;
  body = dead_letter r.msg_id r.topic r.biz_id retry_count error r.payload;
}

abbrev pub backoff : PublisherConfig → ℕ → ℕ
backoff c retry_count = c.backoff_seconds * 2 ^ retry_count

module _ {B : Type 0} (publish : Message → B → B × Option String) (c : PublisherConfig) where
  -- A dead letter that cannot be sent is only logged.
  unfoldable pub send_to_dlq : OutboxRecord → String → ℕ → B → B
  send_to_dlq r error retry_count b = (publish (dead_letter_of c r error retry_count) b).0

  unfoldable pub handle_failure : ℕ → OutboxRecord → String → OutboxStore → B → OutboxStore × B
  unfolding send_to_dlq
  handle_failure now r error s b =
      if leb c.max_retries (suc r.retry_count)
      then (
        mark_dlq now r.msg_id (mark_failed now r.msg_id c.max_retries none s),
        send_to_dlq r error (suc r.retry_count) b,
      )
      else (mark_failed now r.msg_id c.max_retries (some (backoff c r.retry_count)) s, b)

  -- One turn of the loop; the last part says whether the message was sent.
  unfoldable pub deliver : ℕ → OutboxRecord → OutboxStore → B → OutboxStore × B × Bool
  unfolding handle_failure
  deliver now r s b =
      let (b', error) = publish (message_of r) b in
      elim error [
        | none ↦ (mark_sent now r.msg_id s, b', true)
        | some e ↦ let (s', b'') = handle_failure now r e s b' in (s', b'', false)
      ]

  -- `clock i` is the time when the record of index `i` is done.
  unfoldable pub deliver_all :
      (ℕ → ℕ) → ℕ → List OutboxRecord → OutboxStore → B → OutboxStore × B × ℕ
  unfolding deliver
  deliver_all clock i [] s b = (s, b, 0)
  deliver_all clock i (r ∷ rs) s b =
      let (s', b', ok) = deliver (clock i) r s b in
      let (s'', b'', n) = deliver_all clock (suc i) rs s' b' in (s'', b'', if ok then suc n else n)

  unfoldable pub publish_pending : ℕ → (ℕ → ℕ) → OutboxStore → B → OutboxStore × B × ℕ
  unfolding deliver_all next_pending
  publish_pending now clock s b = deliver_all clock 0 (next_pending now c.batch_size s) s b
