-- ===== src/Types/Config.antt =====
-- The configuration payloads of frontend/lib/services/admin/types.ts. The open index signature of
-- `FeatureConfig` has no field: the console never reads one.
use gx_notion2api.Prelude.{ℕ, Bool, Option, List, Text}
use gx_notion2api.Types.Models.{ModelItem}
use gx_notion2api.Types.Sessions.{SessionSummary, SessionRefreshRuntime}

-- A decimal fraction: `digits` divided by 10 ^ `places`
pub record Decimal : Type 0 where
  pub digits : ℕ
  pub places : ℕ

pub record FeatureConfig : Type 0 where
  pub use_web_search : Option Bool
  pub use_read_only_mode : Option Bool
  pub force_disable_upstream_edits : Option Bool
  pub force_fresh_thread_per_request : Option Bool
  pub allow_native_transport_fallback : Option Bool
  pub writer_mode : Option Bool
  pub enable_generate_image : Option Bool
  pub enable_csv_attachment_support : Option Bool
  pub ai_surface : Option Text
  pub thread_type : Option Text
  pub search_scopes : Option (List Text)

pub record PromptConfig : Type 0 where
  pub profile : Option Text
  pub custom_prefix : Option Text
  pub fallback_profiles : Option (List Text)
  pub max_escalation_steps : Option ℕ
  pub max_refusal_retries : Option ℕ
  pub cognitive_reframing_prefix : Option Text
  pub toolbox_capability_expansion_prefix : Option Text
  pub coding_retry_prefixes : Option (List Text)
  pub general_retry_prefixes : Option (List Text)
  pub direct_answer_retry_prefixes : Option (List Text)

pub record ResponsesConfig : Type 0 where
  pub store_ttl_seconds : Option ℕ

pub record StorageConfig : Type 0 where
  pub sqlite_path : Option Text
  pub persist_conversations : Option Bool
  pub persist_conversation_snapshots : Option Bool
  pub persist_responses : Option Bool
  pub persist_continuation_sessions : Option Bool
  pub persist_sillytavern_bindings : Option Bool

pub record AdminConfig : Type 0 where
  pub password : Option Text
  pub token_ttl_hours : Option ℕ

pub record LoginHelperConfig : Type 0 where
  pub sessions_dir : Option Text
  pub timeout_sec : Option ℕ

pub record AppConfigShape : Type 0 where
  pub host : Option Text
  pub port : Option ℕ
  pub api_key : Option Text
  pub upstream_base_url : Option Text
  pub upstream_origin : Option Text
  pub upstream_host_header : Option Text
  pub upstream_tls_server_name : Option Text
  pub upstream_use_env_proxy : Option Bool
  pub timeout_sec : Option ℕ
  pub poll_interval_sec : Option Decimal
  pub poll_max_rounds : Option ℕ
  pub stream_chunk_runes : Option ℕ
  pub default_model : Option Text
  pub model_id : Option Text
  pub debug_upstream : Option Bool
  pub model_aliases : Option (List (Text × Text))
  pub responses : Option ResponsesConfig
  pub storage : Option StorageConfig
  pub admin : Option AdminConfig
  pub login_helper : Option LoginHelperConfig
  pub prompt : Option PromptConfig
  pub features : Option FeatureConfig

pub record ConfigSecrets : Type 0 where
  pub api_key_set : Option Bool
  pub admin_password_set : Option Bool

pub record AdminConfigPayload : Type 0 where
  pub success : Bool
  pub config : AppConfigShape
  pub secrets : Option ConfigSecrets
  pub session : Option SessionSummary
  pub session_refresh_runtime : Option SessionRefreshRuntime
  pub models : Option (List ModelItem)

pub record VersionStorage : Type 0 where
  pub persist_conversations : Option Bool
  pub persist_conversation_snapshots : Option Bool
  pub persist_responses : Option Bool
  pub persist_continuation_sessions : Option Bool
  pub persist_sillytavern_bindings : Option Bool

pub record VersionPayload : Type 0 where
  pub success : Option Bool
  pub version : Option Text
  pub name : Option Text
  pub default_model : Option Text
  pub model_count : Option ℕ
  pub user_email : Option Text
  pub space_id : Option Text
  pub features : Option FeatureConfig
  pub responses : Option ResponsesConfig
  pub storage : Option VersionStorage
