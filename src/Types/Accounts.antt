-- ===== src/Types/Accounts.antt =====
-- Accounts and their workspaces, of frontend/lib/services/admin/types.ts. Counts and seconds are
-- natural numbers; a priority may be negative.
use gx_notion2api.Prelude.{ℕ, ℤ, Bool, Option, List, Text}
use gx_notion2api.Types.Models.{ModelItem}
use gx_notion2api.Types.Sessions.{SessionSummary, SessionRefreshRuntime}

pub data Mode : Type 0 where
  manual auto_only unknown : Mode

pub record ModelCapabilities : Type 0 where
  pub mode : Mode
  pub checked_at : Option Text
  pub models : Option (List ModelItem)
  pub catalog : Option (List ModelItem)

pub record WorkspaceItem : Type 0 where
  pub model_capabilities : Option ModelCapabilities
  pub ai_disabled : Option Bool
  pub eligible : Option Bool
  pub eligibility_reason : Option Text
  pub id : Text
  pub view_id : Option Text
  pub name : Option Text
  pub plan_type : Option Text
  pub subscription_tier : Option Text
  pub ai_enabled : Option Bool
  pub status : Option Text
  pub last_error : Option Text
  pub priority : Option ℤ
  pub hourly_quota : Option ℕ
  pub max_concurrency : Option ℕ
  pub quota_limited : Option Bool
  pub remaining_quota : Option ℕ
  pub window_started_at : Option Text
  pub window_request_count : Option ℕ
  pub cooldown_until : Option Text
  pub cooldown_active : Option Bool
  pub cooldown_remaining_sec : Option ℕ
  pub last_used_at : Option Text
  pub last_success_at : Option Text
  pub last_refresh_at : Option Text
  pub last_quota_exhausted_at : Option Text
  pub consecutive_failures : Option ℕ
  pub total_successes : Option ℕ
  pub total_failures : Option ℕ
  pub default : Option Bool
  pub active : Option Bool

pub record LoginStatus : Type 0 where
  pub status : Option Text
  pub message : Option Text
  pub error : Option Text

pub record AccountItem : Type 0 where
  pub credential_cooldown_until : Option Text
  pub credential_cooldown_active : Option Bool
  pub account_max_concurrency : Option ℕ
  pub email : Option Text
  pub active : Option Bool
  pub disabled : Option Bool
  pub status : Option Text
  pub last_login_at : Option Text
  pub last_success_at : Option Text
  pub last_refresh_at : Option Text
  pub last_relogin_at : Option Text
  pub priority : Option ℤ
  pub hourly_quota : Option ℕ
  pub max_concurrency : Option ℕ
  pub quota_limited : Option Bool
  pub remaining_quota : Option ℕ
  pub cooldown_active : Option Bool
  pub cooldown_remaining_sec : Option ℕ
  pub cooldown_until : Option Text
  pub window_started_at : Option Text
  pub window_request_count : Option ℕ
  pub total_successes : Option ℕ
  pub total_failures : Option ℕ
  pub consecutive_failures : Option ℕ
  pub user_id : Option Text
  pub user_name : Option Text
  pub space_id : Option Text
  pub space_view_id : Option Text
  pub space_name : Option Text
  pub plan_type : Option Text
  pub default_workspace_id : Option Text
  pub workspaces : Option (List WorkspaceItem)
  pub client_version : Option Text
  pub probe_json : Option Text
  pub probe_exists : Option Bool
  pub profile_dir : Option Text
  pub profile_dir_exists : Option Bool
  pub storage_state_path : Option Text
  pub storage_state_exists : Option Bool
  pub pending_state_path : Option Text
  pub pending_state_exists : Option Bool
  pub last_used_at : Option Text
  pub last_error : Option Text
  pub login_status : Option LoginStatus

pub record LoginHelperInfo : Type 0 where
  pub sessions_dir : Option Text
  pub timeout_sec : Option ℕ

pub record SessionRefreshInfo : Type 0 where
  pub enabled : Option Bool
  pub interval_minutes : Option ℕ

pub record AccountsPayload : Type 0 where
  pub items : Option (List AccountItem)
  pub active_account : Option Text
  pub active_workspace_id : Option Text
  pub session_ready : Option Bool
  pub session : Option SessionSummary
  pub login_helper : Option LoginHelperInfo
  pub session_refresh : Option SessionRefreshInfo
  pub session_refresh_runtime : Option SessionRefreshRuntime
