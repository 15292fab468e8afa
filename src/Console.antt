-- ===== src/Console.antt =====
-- The admin console's state, of frontend/hooks/use-admin-console.ts.
pub mod Merging
pub mod State
pub mod Events
pub mod Loading
pub mod Runs
pub mod Invariant
