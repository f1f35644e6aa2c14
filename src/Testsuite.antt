-- ===== src/Testsuite.antt =====
-- The station test suite: backend/src/testsuite.
pub mod Rows
pub mod Catalog
pub mod PollUntil
pub mod World
pub mod Commands
pub mod Callback
pub mod Executor
pub mod Runs
