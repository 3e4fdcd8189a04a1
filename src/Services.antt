-- ===== src/Services.antt =====
-- backend/services: the embedding service and the object store.
pub mod Embeddings
pub mod Storage
mod Tests
