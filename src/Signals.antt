-- ===== src/Signals.antt =====
-- signals.py: the receivers, by the table that each changes.
pub mod Logout
pub mod Profiles
pub mod Clients
pub mod Cohort
pub mod Drift
mod Tests
