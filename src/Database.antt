-- ===== src/Database.antt =====
-- backend/database: the catalogue table, the similarity search and the tenant profiles.
pub mod Documents
pub mod Catalogue
pub mod Profiles
pub mod Migration
mod Tests
