-- ===== src/Provisioning.antt =====
-- backend/src/locations and backend/src/unknown-chargers: planned stations and live chargers.
pub mod Rows
pub mod Contents
pub mod Reconciliation
pub mod Services
