-- ===== src/Audit.antt =====
-- The decision audit trail (src/shared/audit).
pub mod Record
pub mod Queue
