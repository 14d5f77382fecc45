-- ===== src/Executor.antt =====
-- executor.py: the audited pipeline from a request to its answer.
pub mod Cells
pub mod Limit
pub mod Audit
pub mod Reading
pub mod Pipeline
pub mod Books
pub mod AuditOnce
pub mod Sent
pub mod Unaffected
pub mod Sample
mod Tests
