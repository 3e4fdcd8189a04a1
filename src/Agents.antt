-- ===== src/Agents.antt =====
-- backend/core/state.py and backend/agents: the state of a qualification run and its nodes.
pub mod State
pub mod Sanitizer
pub mod Extractor
pub mod Mapper
pub mod Evaluator
pub mod Calculator
pub mod Delivery
pub mod Fixtures
mod Tests
