-- ===== src/Types.antt =====
-- The data types of frontend/lib/services/admin/types.ts, a module for each part of the console.
pub mod Models
pub mod Policies
pub mod Sessions
pub mod Accounts
pub mod Usage
pub mod Conversations
pub mod Chat
pub mod Config
