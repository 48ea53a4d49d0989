-- ===== src/Gateway.antt =====
-- apps/sirius-api/src/gateway.service.ts: routing, fallback and policy put together.
mod Tests
pub mod Providers
pub mod Chain
pub mod Streams
pub mod Fleet
pub mod Responses
