-- ===== src/Examples/Queues.antt =====
-- The in-memory message queue at concrete inputs.
use flower_web_infrastructur.Prelude.{
  ℕ, ◌+◌, ◌<◌, ◌⊎◌, arith, ◌≡◌, refl, true, none, some, [], ◌∷◌, String, string_eq,
}
use flower_web_infrastructur.Prelude.Dict
use flower_web_infrastructur.Mq.InMemory.{
  Message, payload, Config, Queue, cancel_delayed, delayed_dispatch, publish, dead_letter_of,
  partition_of, dispatch, retryable,
}
use flower_web_infrastructur.Mq.InMemory.Cancelled.{published, stay, go, cancel_delayed-undelivered}
use flower_web_infrastructur.Mq.InMemory.Retries.{turns, alone, IsFailing, turns-exhausted}

abbrev hash : String → ℕ
hash key = 0

abbrev three_tries : Config
three_tries = record {
  dead_letter_topic = "dlq";
  max_retries = 2;
  retry_backoff_seconds = 5;
  partition_count = 4;
}

abbrev notice : Message
notice = record {
  message_id = "m1";
  topic = "orders";
  tag = "";
  partition_key = some "o1";
  body = payload "o1" "due";
}

abbrev idle : Queue ℕ
idle = record {
  queue = [];
  handlers = [];
  running = true;
  retry_counts = [];
  delayed_messages = ("m1", notice) ∷ [];
  cancelled = [];
  due = ("m1", 60) ∷ [];
  requeues = [];
}

notice_cancelled : (cancel_delayed "m1" idle).1 ≡ true
unfolding cancel_delayed
notice_cancelled = refl

abbrev after_publish : Queue ℕ
after_publish = (publish hash three_tries notice (cancel_delayed "m1" idle).0).0

cancel_delayed-undelivered_example :
    (delayed_dispatch hash three_tries "m1" after_publish).queue ≡ after_publish.queue
cancel_delayed-undelivered_example =
    cancel_delayed-undelivered hash three_tries "m1" idle after_publish notice_cancelled (
      go (cancel_delayed "m1" idle).0 after_publish after_publish
        (published notice (cancel_delayed "m1" idle).0) (stay after_publish))

abbrev lost : Message
lost = dead_letter_of three_tries "d1" notice "timeout" 2

-- A queue whose only handler of the topic times out, and counts its calls.
abbrev timing_out : Queue ℕ
timing_out = record idle { handlers = ("orders", (λ m n. (n + 1, retryable "timeout")) ∷ []) ∷ [] }

timing_out-IsFailing : IsFailing hash three_tries notice "d1" "timeout" timing_out
timing_out-IsFailing w = refl

abbrev worn : Queue ℕ × ℕ
worn =
    turns hash three_tries notice "d1" "timeout" 2
      (alone hash three_tries notice "d1" "timeout" timing_out 3 []) 0

turns-exhausted_example :
    ((2 < 2)
      × ((dispatch hash three_tries "d1" worn.0 worn.1).0.queue ≡ [])
      × ((dispatch hash three_tries "d1" worn.0 worn.1).0.requeues ≡ (notice, 20) ∷ []))
    ⊎ ((◌≡◌ {A = ℕ} 2 2)
        × ((dispatch hash three_tries "d1" worn.0 worn.1).0.queue
            ≡ (partition_of hash three_tries lost, lost) ∷ [])
        × ((dispatch hash three_tries "d1" worn.0 worn.1).0.requeues ≡ [])
        × (Dict.get "m1" (dispatch hash three_tries "d1" worn.0 worn.1).0.retry_counts ≡ none))
turns-exhausted_example =
    turns-exhausted hash three_tries notice "d1" "timeout" 2 3 timing_out [] 0 timing_out-IsFailing
      refl (omega arith)
