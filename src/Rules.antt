-- ===== src/Rules.antt =====
-- The rules engine (src/shared/rules): expressions, their evaluation and validation, and the
-- service that keeps the active rules and picks the first hit.
pub mod Value
pub mod Path
pub mod Evaluator
pub mod Service
pub mod Validation
pub mod Manage
mod Tests
