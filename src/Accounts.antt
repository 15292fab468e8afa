-- ===== src/Accounts.antt =====
-- The accounts panel, of frontend/components/admin/accounts-panel.tsx.
pub mod Items
pub mod Drafts
pub mod Panel
pub mod Selection
pub mod Editing
pub mod Testing
pub mod Joining
