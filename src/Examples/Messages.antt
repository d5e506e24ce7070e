-- ===== src/Examples/Messages.antt =====
-- The outbox and the consumers at concrete inputs.
use flower_web_infrastructur.Prelude.{
  ℕ, ◌+◌, ◌≡◌, ◌≢◌, ◌⊎◌, refl, true, false, Option, none, some, [], ◌∷◌, String, All, arith,
  string_eq,
}
use text.Mathlib.TextEquality.{eq_iff}
use flower_web_infrastructur.Prelude.Dict
use flower_web_infrastructur.Mq.Outbox.{
  OutboxRecord, OutboxStore, OutboxStatus, pending, next_pending,
}
use flower_web_infrastructur.Mq.Outbox.Store.{Keyed}
use flower_web_infrastructur.Mq.Publisher
use flower_web_infrastructur.Mq.Publisher.{
  PublisherConfig, publish_pending, message_of, dead_letter_of,
}
use flower_web_infrastructur.Mq.Publisher.Broker.{broker_after_all, taken}
use flower_web_infrastructur.Mq.Publisher.Delivery.{AllTreated, Any, publish_pending-AllTreated}
use flower_web_infrastructur.Mq.Requeue.{requeue_dlq_to_outbox, requeue-dead_letter}
use flower_web_infrastructur.Mq.Idempotent
use flower_web_infrastructur.Mq.Idempotent.{
  Outcome, executed, skipped, outcomes, build_key, consume_one, executed_once,
}

abbrev row : String → ℕ → OutboxRecord
row msg_id created_at = record {
  topic = "orders";
  biz_id = "b1";
  payload = "{}";
  tag = "";
  msg_id = msg_id;
  status = OutboxStatus.pending;
  retry_count = 0;
  created_at = some created_at;
  updated_at = none;
  cleaned_at = none;
  next_retry_at = none;
  dlq_at = none;
}

abbrev rows : OutboxStore
rows = ("m1", row "m1" 5) ∷ ("m2", row "m2" 3) ∷ []

rows-Keyed : Keyed rows
rows-Keyed = (refl, refl, (refl, refl, tt))

abbrev settings : PublisherConfig
settings = record { batch_size = 10; max_retries = 3; backoff_seconds = 2; dlq_topic = "dlq" }

-- A broker that counts messages and refuses each of them.
abbrev refuses : Publisher.Message → ℕ → ℕ × Option String
refuses m n = (n + 1, some "down")

publish_pending-AllTreated_example :
    AllTreated refuses settings
      (λ i. 20 + i)
      0
      (next_pending 10 10 rows)
      0
      (publish_pending refuses settings 10 (λ i. 20 + i) rows 0).0
    × ((publish_pending refuses settings 10 (λ i. 20 + i) rows 0).1
        ≡ broker_after_all refuses settings (next_pending 10 10 rows) 0)
    × ((publish_pending refuses settings 10 (λ i. 20 + i) rows 0).2
        ≡ taken refuses settings (next_pending 10 10 rows) 0)
    × ((Dict.get "m9" (publish_pending refuses settings 10 (λ i. 20 + i) rows 0).0
          ≡ Dict.get "m9" rows)
        ⊎ Any (λ (r : OutboxRecord). r.msg_id ≡ "m9") (next_pending 10 10 rows))
publish_pending-AllTreated_example =
    publish_pending-AllTreated refuses settings (λ i. 20 + i) 10 rows 0 "m9" rows-Keyed

has_topic : (row "m1" 5).topic ≢ ""
has_topic e = let h : false ≡ true = (eq_iff (row "m1" 5).topic "").1 e in absurd cc

requeue-dead_letter_example :
    (r' : OutboxRecord) × ((requeue_dlq_to_outbox "m3" 50
        (dead_letter_of settings (row "m1" 5) "down" 3)
        rows).1
      ≡ some r')
    × (Dict.get "m3"
          (requeue_dlq_to_outbox "m3" 50 (dead_letter_of settings (row "m1" 5) "down" 3) rows).0
        ≡ some r')
    × (r'.status ≡ pending)
    × (r'.retry_count ≡ 0)
    × (message_of r' ≡ record (message_of (row "m1" 5)) { message_id = some "m3" })
requeue-dead_letter_example =
    requeue-dead_letter settings (row "m1" 5) "down" "m3" 3 50 rows has_topic

abbrev paid_event : Idempotent.Message
paid_event = record { message_id = "m1"; biz_id = some "b1" }

was_executed : (consume_one 7 (100, paid_event, true) []).1 ≡ executed
unfolding consume_one Idempotent.consume Idempotent.try_consume Idempotent.drop_expired
was_executed = refl

executed_once_example :
    All
      (λ (o : Outcome). o ≡ skipped)
      (outcomes 7
        (build_key paid_event)
        ((200, paid_event, true) ∷ [])
        (consume_one 7 (100, paid_event, true) []).0)
executed_once_example =
    executed_once 7 100 paid_event true [] ((200, paid_event, true) ∷ []) was_executed
      (omega arith, tt)
