-- ===== src/Validation.antt =====
-- validation.py: the checks of the settings at startup.
pub mod Settings
pub mod Numbers
pub mod Thresholds
pub mod Profiles
pub mod Clouds
pub mod Startup
pub mod Raised
mod Tests
