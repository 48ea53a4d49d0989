-- ===== src/Policy.antt =====
-- libs/sirius-policy/src/policy.service.ts: circuit breaker, retries and timeouts.
mod Tests
pub mod Breaker
pub mod Retry
pub mod Stream
