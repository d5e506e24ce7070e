-- ===== src/Mq/InMemory.antt =====
-- capabilities/mq/in_memory_message_queue.py with message_queue_selector.py and the fields of message.py that
-- they read. `crc32` is the hash of the standard library; a handler is any function of the message and of the
-- world it works on, and does not call the queue. A task that sleeps (`_delayed_dispatch`, `_requeue_after`) is
-- kept in a list, and goes on when it is due; `draw` is the number that a dead letter draws. Metrics and log
-- lines are left out.
pub mod Cancelled
pub mod Retries
use flower_web_infrastructur.Prelude.{
  ℕ, zero, suc, ◌+◌, ◌-◌, ◌*◌, ◌^◌, ◌%◌, Bool, true, false, Option, none, some, List, [], ◌∷◌, ◌++◌,
  String, leb, if◌then◌else◌, ◌==◌, string_eq, any, keep, not,
}
use flower_web_infrastructur.Prelude.Dict
use flower_web_infrastructur.Prelude.Dict.{Dict}

-- A body with its "biz_id", or the body of a dead letter.
pub data Body : Type 0 where
  payload : (biz_id content : String) → Body
  dead_letter :
      (original_msg_id original_topic biz_id : String) (retry_count : ℕ) (error : String)
      (original : Body)
      → Body

pub record Message : Type 0 where
  pub message_id : String
  pub topic : String
  pub tag : String
  pub partition_key : Option String
  pub body : Body

-- How a handler's call ends: it returns, or raises a NonRetryableError or another exception, with its text.
pub data Ended : Type 0 where
  returned : Ended
  non_retryable : String → Ended
  retryable : String → Ended

abbrev pub Handler : Type 0 → Type 0
Handler W = Message → W → W × Ended

pub record Config : Type 0 where
  pub dead_letter_topic : String
  pub max_retries : ℕ
  pub retry_backoff_seconds : ℕ
  pub partition_count : ℕ

-- The fields of the queue and the tasks that sleep: `due` has the numbers of the delayed messages, `requeues` the
-- messages to try again and their delays.
pub record Queue (W : Type 0) : Type 0 where
  pub queue : List (ℕ × Message)
  pub handlers : Dict String (List (Handler W))
  pub running : Bool
  pub retry_counts : Dict String ℕ
  pub delayed_messages : Dict String Message
  pub cancelled : List String
  pub due : List (String × ℕ)
  pub requeues : List (Message × ℕ)

abbrev pub biz_id_of : Message → String
biz_id_of m = elim m.body [
  | payload biz_id content ↦ if biz_id == "" then m.message_id else biz_id
  | dead_letter id topic biz_id n error original ↦ if biz_id == "" then m.message_id else biz_id
]

abbrev pub count_or_zero : Option ℕ → ℕ
count_or_zero none = 0
count_or_zero (some n) = n

abbrev pub dead_letter_of : Config → String → Message → String → ℕ → Message
dead_letter_of c draw m error retry_count = record {
  message_id = draw;
  topic = c.dead_letter_topic;
  tag = m.tag;
  partition_key = none;
  body = dead_letter m.message_id m.topic (biz_id_of m) retry_count error m.body;
}

module _ {W : Type 0} where
  unfoldable pub send_delay : Message → ℕ → Queue W → Queue W × String
  send_delay m delay q = (
    record q {
      delayed_messages = Dict.put m.message_id m q.delayed_messages;
      due = q.due ++ (m.message_id, delay) ∷ [];
    },
    m.message_id,
  )

  abbrev pub is_cancelled : String → Queue W → Bool
  is_cancelled id q = any (λ (x : String). x == id) q.cancelled

  unfoldable pub cancel_delayed : String → Queue W → Queue W × Bool
  cancel_delayed id q =
      if Dict.contains id q.delayed_messages
      then (
        record q { cancelled = if is_cancelled id q then q.cancelled else id ∷ q.cancelled },
        true,
      )
      else (q, false)

  abbrev pub handlers_of : String → Queue W → List (Handler W)
  handlers_of topic q = elim (Dict.get topic q.handlers) [ none ↦ [] | some hs ↦ hs ]

  unfoldable pub subscribe : String → Handler W → Queue W → Queue W
  subscribe topic h q = record q {
    handlers = Dict.put topic (handlers_of topic q ++ h ∷ []) q.handlers;
  }

  unfoldable pub start : Queue W → Queue W
  start q = record q { running = true }

  unfoldable pub stop : Queue W → Queue W
  stop q = record q { running = false }

module _ (crc32 : String → ℕ) where
  unfoldable pub select : Option String → ℕ → ℕ
  select key zero = 0
  select none (suc n) = 0
  select (some key) (suc n) = if key == "" then 0 else crc32 key % suc n

  abbrev pub partition_of : Config → Message → ℕ
  partition_of c m = select m.partition_key c.partition_count

  module _ {W : Type 0} (c : Config) where
    abbrev pub put : Message → Queue W → Queue W
    put m q = record q { queue = q.queue ++ (partition_of c m, m) ∷ [] }

    unfoldable pub publish : Message → Queue W → Queue W × String
    publish m q = (put m q, m.message_id)

    -- The end of `_delayed_dispatch`, when its sleep is over.
    unfoldable pub delayed_dispatch : String → Queue W → Queue W
    delayed_dispatch id q = elim (Dict.get id q.delayed_messages) [
      | none ↦ q
      | some m ↦
          let q' = record q { delayed_messages = Dict.pop id q.delayed_messages } in
          if is_cancelled id q
          then record q' { cancelled = keep (λ (x : String). not (x == id)) q.cancelled }
          else put m q'
    ]

    unfoldable pub send_to_dlq : String → Message → String → ℕ → Queue W → Queue W
    send_to_dlq draw m error retry_count q = put (dead_letter_of c draw m error retry_count) q

    unfoldable pub retry_or_dlq : String → Message → String → Queue W → Queue W
    unfolding send_to_dlq
    retry_or_dlq draw m error q =
        let retries = count_or_zero (Dict.get m.message_id q.retry_counts) + 1 in
        if leb retries c.max_retries
        then record q {
          retry_counts = Dict.put m.message_id retries q.retry_counts;
          requeues = q.requeues ++ (m, c.retry_backoff_seconds * 2 ^ (retries - 1)) ∷ [];
        }
        else send_to_dlq draw m error (retries - 1)
            (record q { retry_counts = Dict.pop m.message_id q.retry_counts })

    -- The end of `_requeue_after`, when its sleep is over.
    unfoldable pub requeue_after : Message → Queue W → Queue W
    requeue_after m q = put m q

    -- What the turn does with the last exception, if there was one.
    unfoldable pub conclude : String → Message → Ended → Queue W → Queue W
    unfolding send_to_dlq retry_or_dlq
    conclude draw m returned q = record q { retry_counts = Dict.pop m.message_id q.retry_counts }
    conclude draw m (non_retryable error) q = send_to_dlq draw m error 0 q
    conclude draw m (retryable error) q = retry_or_dlq draw m error q

-- `last_exc`: the later of two ends, unless it is a return.
abbrev pub later : Ended → Ended → Ended
later last returned = last
later last (non_retryable e) = non_retryable e
later last (retryable e) = retryable e

-- The handlers of a message, each whatever the others raise.
abbrev pub call_all : {W : Type 0} → List (Handler W) → Message → Ended → W → W × Ended
call_all [] m last w = (w, last)
call_all (h ∷ hs) m last w = let (w', end) = h m w in call_all hs m (later last end) w'

module _ (crc32 : String → ℕ) {W : Type 0} (c : Config) where
  -- One turn of `_dispatch_loop`; it waits where the queue is empty.
  unfoldable pub dispatch : String → Queue W → W → Queue W × W
  unfolding conclude
  dispatch draw q w = elim q.queue [
    | [] ↦ (q, w)
    | (_, m) ∷ rest ↦
        let q' = record q { queue = rest } in
        let (w', last) = call_all (handlers_of m.topic q) m returned w in
        (conclude crc32 c draw m last q', w')
  ]
