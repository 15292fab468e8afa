-- ===== src/Settings.antt =====
-- The settings of frontend/components/admin/settings-panel.tsx.
pub mod Prompts
pub mod Forms
pub mod Saving
pub mod Syncing
pub mod Blocks
pub mod Strategies
pub mod Importing
