-- ===== src/Examples.antt =====
-- Runs of the theorems at concrete inputs.
mod Payments
mod Resilients
mod Messages
mod Services
mod Assembly
mod Reconciles
mod Queues
mod Uploads
mod Tokens
