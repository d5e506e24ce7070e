-- ===== src/Lib.antt =====
-- Verification of flower-web-infrastructure, a library of web infrastructure in Python whose package is
-- src/web_infra. Its capabilities are small stateful services that are wired together by the
-- application; the ones modelled here are those that carry logic of their own.
--
-- The parts, and where they are modelled:
--   Resilience/CircuitBreaker   infra/resilience/circuit_breaker.py: the breaker's state and its two
--     locked methods (can_execute, _record); Execute has both ways of execution with what other
--     threads do meanwhile, Invariant and Window what runs of calls keep.
--   Resilience/TokenBucket      infra/resilience/token_bucket_rate_limiter.py
--   Resilience/Retry            infra/resilience/retry.py
--   Payment/Status              capabilities/payment/payment_state_machine.py, payment_status.py
--   Payment/Store               the in-memory flow store and order store of capabilities/payment
--   Payment/Channel, Callback   payment_channel_template.py: new payments, refunds, closing, callbacks
--     over both stores
--   Payment/Reversal, CloseTask payment_reversal.py and payment_close_task.py over the above
--   Payment/Reconcile           capabilities/payment/reconciliation: the alignment of bills with flows;
--     Handling settles the differences over the flow store, Audit has the round and its audit store.
--   Payment/Risk                capabilities/payment/risk: counters and the guard before a payment
--   Mq/Outbox, Publisher        capabilities/mq/outbox: the store and the publisher that drains it
--   Mq/Requeue                  the way of a dead letter back into the outbox
--   Mq/Idempotent, Retryable    capabilities/mq/idempotent_consumer.py and retryable_consumer.py
--   Mq/InMemory                 capabilities/mq/in_memory_message_queue.py
--   Cache                       capabilities/cache/memory_cache_backend.py
--   Ai/Quota                    capabilities/ai/quota
--   Utils/Snowflake             infra/utils/snowflake_util.py
--   Web/Idempotency             infra/web/idempotency_middleware.py over its in-memory store
--   LoadBalance                 capabilities/loadbalance: RoundRobin and Weighted, one for each balancer
--   Storage/Upload              capabilities/storage/upload: Store and Local keep the tasks and the parts,
--     Service is multipart_upload_service.py over both
--   Security/Tokens             capabilities/security/in_memory_jwt_token_store.py
--   Security/Captcha            capabilities/security/captcha_service.py over its in-memory store
--   StateMachine                capabilities/state_machine: router and engine; Registry has the registry
--   Core/Closure                the walk over requirements that both registries of core write alike
--   Core/Capability, Extension  core/capability and core/extension: the registries of an application
--   Prelude                     the shared helpers: tests, lists, equality, dictionaries
--   Examples                    the theorems applied at concrete inputs
--
-- How the code is read. An object is a record, a method a function that takes the state and the
-- readings of the clock that it makes, and gives back the new state beside its result; an exception is
-- a value of a result type. A lock or an asyncio.Lock makes a method one step. Where other tasks may
-- run during an await, what they do is an argument. Dictionaries are association lists in the order of
-- insertion. Times are whole ticks, amounts whole cents, and a rate or ratio is a fraction, where the
-- source has floats and decimals. Brokers, channels, handlers and random draws are arguments.
--
-- Loops are structural: `for attempt in range(n)` recurses on the turns that are left, which start
-- at n, and the waiting loop of the number generator on the clock's readings. Only the walk of
-- Core/Closure takes fuel, one more than the table has entries: a path of the walk has no name twice, so
-- that is enough, as Core/Closure/Total shows.
--
-- Not modelled: databases, HTTP, search, object storage, scheduling, capacity estimates and configuration,
-- which are input and output or calls of other libraries; the Redis and MySQL variants of the stores;
-- logging, audit and metrics.
mod Prelude
pub mod Resilience
pub mod Payment
pub mod Mq
pub mod Cache
pub mod Ai
pub mod Utils
pub mod Web
pub mod LoadBalance
pub mod Core
pub mod StateMachine
pub mod Storage
pub mod Security
pub mod Examples
