-- ===== src/Float.antt =====
-- Python's float, for backend/agents, backend/ingestion and backend/database. The values are those
-- other than NaN, so that the order is total. `literal n` is the literal n / 100 of the source, and
-- `round` takes the number of digits first.
mod Defs
mod Laws
mod Decimal
pub use Defs.*
pub use Laws.*
pub use Decimal.*
