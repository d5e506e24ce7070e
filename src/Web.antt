-- ===== src/Web.antt =====
-- The web layer (infra/web): the idempotency of write requests.
pub mod Idempotency
