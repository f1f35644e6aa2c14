-- ===== src/Settings.antt =====
-- backend/src/settings: the settings store with its history.
pub mod Encryption
pub mod Rows
pub mod Service
