-- ===== src/Utils.antt =====
-- The utilities (infra/utils): the generator of unique numbers.
pub mod Snowflake
