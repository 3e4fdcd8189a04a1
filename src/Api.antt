-- ===== src/Api.antt =====
-- backend/api: the routes of the web service. A route's answer is its response, or the HTTPException
-- that it raises.
pub mod Auth
pub mod Uploads
pub mod Tenants
pub mod Catalogue
pub mod Ingest
pub mod Health
mod Tests
