-- ===== src/Ingestion.antt =====
-- backend/ingestion: the catalogue's items, and the graph that reads them from an uploaded file.
pub mod Items
pub mod Chunks
pub mod Normalizer
pub mod State
pub mod Nodes
pub mod Validator
pub mod Finalizer
pub mod Pipeline
pub mod Fixtures
mod Tests
