-- ===== src/Predict.antt =====
-- src/v1/modules/rda: the decision of one transaction.
pub mod Types
pub mod Decide
pub mod Finalize
pub mod Shortcut
pub mod Investigated
pub mod Explained
pub mod Recorded
pub mod Execute
pub mod Retried
mod Tests
mod RetryTests
