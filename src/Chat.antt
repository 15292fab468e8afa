-- ===== src/Chat.antt =====
-- The chat workspace, of frontend/components/admin/chat-workspace.tsx.
pub mod Attachments
pub mod Tokens
pub mod Targets
pub mod State
pub mod Opening
pub mod Running
pub mod Races
pub mod Editing
pub mod Quotas
pub mod Exporting
pub mod Sessions
