-- ===== src/Core.antt =====
-- libs/sirius-core/src: the types that every part of the gateway shares, and the provider registry.
pub mod Json
pub mod Numbers
pub mod Models
pub mod Messages
pub mod ProviderRegistry
