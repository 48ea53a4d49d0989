-- ===== src/Registry.antt =====
-- libs/sirius-model-registry/src: the catalog of models, their resolution, and discovery.
mod Tests
pub mod ModelRegistry
pub mod ModelCatalog
pub mod ModelDiscovery
