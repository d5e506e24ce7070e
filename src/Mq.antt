-- ===== src/Mq.antt =====
-- The message queue components of src/web_infra/capabilities/mq.
pub mod Outbox
pub mod Publisher
pub mod Idempotent
pub mod Retryable
pub mod Requeue
pub mod InMemory
