-- ===== src/Ai.antt =====
-- The AI capability (capabilities/ai): the quotas of model calls.
pub mod Quota
