-- ===== src/Core.antt =====
-- The assembly of an application (core): the registries of capabilities and of extension points, which
-- expand requirements by the same walk (Closure).
pub mod Closure
pub mod Capability
pub mod Extension
