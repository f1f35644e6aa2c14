-- ===== src/Access.antt =====
-- Who may call which route of backend/src, and what is written down of it: the controllers'
-- decorators, common/guards/roles.guard.ts and audit, with the ranks of frontend/src/lib/roles.ts.
pub mod Routes
pub mod Guard
pub mod Ranks
pub mod Auditing
