-- ===== src/Mq/Requeue.antt =====
-- `requeue_dlq_to_outbox` of capabilities/mq/outbox/dlq_consumer.py over the in-memory store. A message
-- that is not a dead letter has no original topic in its body.
use flower_web_infrastructur.Prelude.{
  ℕ, ◌≡◌, ◌≢◌, refl, Option, none, some, String, if◌then◌else◌, ◌==◌, ==_ne, string_eq,
}
use flower_web_infrastructur.Prelude.Dict
use flower_web_infrastructur.Prelude.Dict.{get-put_self}
use flower_web_infrastructur.Mq.Outbox.{OutboxRecord, OutboxStore, pending, append, appended}
use flower_web_infrastructur.Mq.Publisher.{
  payload, dead_letter, Message, PublisherConfig, message_of, dead_letter_of,
}

unfoldable pub record_of : Message → OutboxRecord
record_of m = elim m.body [
  | payload p ↦ fresh "" "" "" m.tag
  | dead_letter msg_id topic biz_id retry_count error original ↦ fresh topic biz_id original m.tag
]
  where
    fresh : String → String → String → String → OutboxRecord
    fresh topic biz_id p tag = record {
      topic = topic;
      biz_id = biz_id;
      payload = p;
      tag = tag;
      msg_id = "";
      status = pending;
      retry_count = 0;
      created_at = none;
      updated_at = none;
      cleaned_at = none;
      next_retry_at = none;
      dlq_at = none;
    }

-- `none` is the ValueError.
unfoldable pub requeue_dlq_to_outbox :
    String → ℕ → Message → OutboxStore → OutboxStore × Option OutboxRecord
requeue_dlq_to_outbox uuid now m s =
    if (record_of m).topic == ""
    then (s, none)
    else let (s', r) = append uuid now (record_of m) s in (s', some r)

-- The dead letter of a record with a topic goes back to the store as a new record, pending and with no
-- retries, under the number that is drawn; what will be published for it is the record's own message
-- under that number.
pub requeue-dead_letter :
    (c : PublisherConfig) (r : OutboxRecord) (error uuid : String) (retry_count now : ℕ)
    (s : OutboxStore)
    → r.topic ≢ ""
    → (r' : OutboxRecord) × ((requeue_dlq_to_outbox uuid now
          (dead_letter_of c r error retry_count)
          s).1
        ≡ some r')
      × (Dict.get uuid (requeue_dlq_to_outbox uuid now (dead_letter_of c r error retry_count) s).0
          ≡ some r')
      × (r'.status ≡ pending)
      × (r'.retry_count ≡ 0)
      × (message_of r' ≡ record (message_of r) { message_id = some uuid })
unfolding requeue_dlq_to_outbox record_of append
requeue-dead_letter c r error uuid retry_count now s topic =
    let e = ==_ne r.topic "" topic in
    (
      appended uuid now (record_of (dead_letter_of c r error retry_count)),
      rw e refl,
      rw e (get-put_self uuid _ s),
      refl,
      refl,
      refl,
    )
