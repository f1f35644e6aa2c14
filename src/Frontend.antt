-- ===== src/Frontend.antt =====
-- frontend/src/auth and frontend/src/lib: the session of a signed-in user.
pub mod Session
pub mod Parameters
