-- ===== src/Core.antt =====
-- The platform layer, era/core: enums, error codes, the retry loop and the circuit breaker.
pub mod Enums
pub mod Result
pub mod Retry
pub mod Breaker
