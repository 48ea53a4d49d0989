-- ===== src/Routing.antt =====
-- libs/sirius-routing/src: ranking strategies and the routing service.
mod Tests
pub mod Sorting
pub mod Strategies
pub mod Service
