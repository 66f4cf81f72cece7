-- ===== src/Config.antt =====
-- internal/config: the configuration's schema, its defaults and its validation.
pub mod Schema
pub mod Defaults
pub mod DeviceId
pub mod Validate
pub mod Load
mod Tests
