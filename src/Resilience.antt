-- ===== src/Resilience.antt =====
-- The resilience components of src/web_infra/infra/resilience.
pub mod CircuitBreaker
pub mod TokenBucket
pub mod Retry
