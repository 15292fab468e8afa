-- ===== src/Types/Sessions.antt =====
-- The session, verification and health payloads of frontend/lib/services/admin/types.ts.
use gx_notion2api.Prelude.{Bool, Option, Text}

pub record SessionSummary : Type 0 where
  pub user_email : Option Text
  pub user_name : Option Text
  pub space_name : Option Text
  pub space_id : Option Text
  pub probe_path : Option Text
  pub client_version : Option Text
  pub user_id : Option Text

pub record SessionRefreshRuntime : Type 0 where
  pub last_refresh_at : Option Text
  pub last_error : Option Text

pub record AdminVerifyPayload : Type 0 where
  pub authenticated : Option Bool
  pub password_required : Option Bool
  pub password_configured : Option Bool
  pub admin_enabled : Option Bool

pub record HealthPayload : Type 0 where
  pub ok : Option Bool
  pub session_ready : Option Bool
  pub version : Option Text
  pub model : Option Text
  pub user_email : Option Text
  pub space_id : Option Text
