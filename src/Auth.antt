-- ===== src/Auth.antt =====
-- backend/src/auth: signing in, the rotation of refresh tokens, and who may call which route.
pub mod Types
pub mod Service
pub mod Checks
pub mod Spent
pub mod Sessions
pub mod Outcomes
