-- ===== src/Settings/Forms.antt =====
-- The form of frontend/components/admin/settings-panel.tsx and what `buildFormState` makes of a
-- configuration. What `String` makes of a fraction and `JSON.stringify` of the aliases are arguments.
use gx_notion2api.Prelude.{
  ℕ, zero, suc, Bool, true, false, not, ◌&&◌, ◌||◌, Option, none, some, List, [], Text, txt,
  if◌then◌else◌, or_text, or_else, flag, listed, decimal, nat_eq,
}
use gx_notion2api.Types.Config.{
  Decimal, FeatureConfig, ResponsesConfig, StorageConfig, AdminConfig, LoginHelperConfig,
  AppConfigShape,
}
use gx_notion2api.Settings.Prompts.{
  PromptForm, build_prompt_strategy_form_state, join, new_line, given_or,
}

-- The form, with the fields of the prompt strategy in a record of their own
pub record SettingsFormState : Type 0 where
  pub host : Text
  pub port : Text
  pub api_key : Text
  pub upstream_base_url : Text
  pub upstream_origin : Text
  pub upstream_host : Text
  pub upstream_tls_server_name : Text
  pub upstream_use_env_proxy : Bool
  pub default_model : Text
  pub timeout_sec : Text
  pub responses_ttl : Text
  pub poll_interval : Text
  pub poll_rounds : Text
  pub chunk_runes : Text
  pub debug_upstream : Bool
  pub sqlite_path : Text
  pub persist_conversation_snapshots : Bool
  pub persist_responses : Bool
  pub persist_continuation_sessions : Bool
  pub persist_sillytavern_bindings : Bool
  pub use_web_search : Bool
  pub read_only : Bool
  pub force_disable_upstream_edits : Bool
  pub force_fresh_thread_per_request : Bool
  pub writer_mode : Bool
  pub generate_image : Bool
  pub enable_csv : Bool
  pub ai_surface : Text
  pub thread_type : Text
  pub prompts : PromptForm
  pub admin_password : Text
  pub admin_ttl : Text
  pub login_sessions_dir : Text
  pub login_timeout_sec : Text
  pub model_aliases : Text
  pub search_scopes : Text

-- `value !== false`
abbrev pub is_on : Option Bool → Bool
is_on none = true
is_on (some b) = b

abbrev pub resolve_storage_persistence_flag : Option Bool → Bool → Bool
resolve_storage_persistence_flag none fallback = fallback
resolve_storage_persistence_flag (some b) fallback = b

-- `value || fallback` of a number
abbrev pub number_else : Option ℕ → ℕ → ℕ
number_else none fallback = fallback
number_else (some zero) fallback = fallback
number_else (some (suc n)) fallback = suc n

abbrev pub fraction_else : Option Decimal → Decimal → Decimal
fraction_else none fallback = fallback
fraction_else (some d) fallback = if nat_eq d.digits 0 then fallback else d

-- `1.5`
abbrev pub one_and_a_half : Decimal
one_and_a_half = record { digits = 15; places = 1 }

abbrev pub no_features : FeatureConfig
no_features = record {
  use_web_search = none;
  use_read_only_mode = none;
  force_disable_upstream_edits = none;
  force_fresh_thread_per_request = none;
  allow_native_transport_fallback = none;
  writer_mode = none;
  enable_generate_image = none;
  enable_csv_attachment_support = none;
  ai_surface = none;
  thread_type = none;
  search_scopes = none;
}

abbrev pub no_storage : StorageConfig
no_storage = record {
  sqlite_path = none;
  persist_conversations = none;
  persist_conversation_snapshots = none;
  persist_responses = none;
  persist_continuation_sessions = none;
  persist_sillytavern_bindings = none;
}

abbrev pub no_responses : ResponsesConfig
no_responses = record { store_ttl_seconds = none }

abbrev pub no_admin : AdminConfig
no_admin = record { password = none; token_ttl_hours = none }

abbrev pub no_login_helper : LoginHelperConfig
no_login_helper = record { sessions_dir = none; timeout_sec = none }

abbrev pub notion_url : Text
notion_url = txt "https://www.notion.so"

module _ (show_decimal : Decimal → Text) (show_aliases : List (Text × Text) → Text) where
  unfoldable pub build_form_state : AppConfigShape → SettingsFormState
  build_form_state config =
      let features = given_or config.features no_features in
      let storage = given_or config.storage no_storage in
      let login = given_or config.login_helper no_login_helper in
      let persist = is_on storage.persist_conversations in
      let locked = is_on features.force_disable_upstream_edits in
      record {
        host = or_text config.host [];
        port = decimal (number_else config.port 8787);
        api_key = [];
        upstream_base_url = or_text config.upstream_base_url notion_url;
        upstream_origin =
            or_text (or_else config.upstream_origin config.upstream_base_url) notion_url;
        upstream_host = or_text config.upstream_host_header [];
        upstream_tls_server_name = or_text config.upstream_tls_server_name [];
        upstream_use_env_proxy = flag config.upstream_use_env_proxy;
        default_model = or_text (or_else config.default_model config.model_id) (txt "auto");
        timeout_sec = decimal (number_else config.timeout_sec 180);
        responses_ttl =
            decimal (number_else (given_or config.responses no_responses).store_ttl_seconds 3600);
        poll_interval = show_decimal (fraction_else config.poll_interval_sec one_and_a_half);
        poll_rounds = decimal (number_else config.poll_max_rounds 40);
        chunk_runes = decimal (number_else config.stream_chunk_runes 24);
        debug_upstream = flag config.debug_upstream;
        sqlite_path = or_text storage.sqlite_path (txt "data/notion2api.sqlite");
        persist_conversation_snapshots =
            resolve_storage_persistence_flag storage.persist_conversation_snapshots persist;
        persist_responses = resolve_storage_persistence_flag storage.persist_responses persist;
        persist_continuation_sessions =
            resolve_storage_persistence_flag storage.persist_continuation_sessions persist;
        persist_sillytavern_bindings =
            resolve_storage_persistence_flag storage.persist_sillytavern_bindings persist;
        use_web_search = flag features.use_web_search;
        read_only = locked || flag features.use_read_only_mode;
        force_disable_upstream_edits = locked;
        force_fresh_thread_per_request = flag features.force_fresh_thread_per_request;
        writer_mode = not locked && flag features.writer_mode;
        generate_image = flag features.enable_generate_image;
        enable_csv = flag features.enable_csv_attachment_support;
        ai_surface = or_text features.ai_surface (txt "ai_module");
        thread_type = or_text features.thread_type (txt "workflow");
        prompts = build_prompt_strategy_form_state config.prompt;
        admin_password = [];
        admin_ttl = decimal (number_else (given_or config.admin no_admin).token_ttl_hours 24);
        login_sessions_dir = or_text login.sessions_dir [];
        login_timeout_sec = decimal (number_else login.timeout_sec 120);
        model_aliases = show_aliases (given_or config.model_aliases []);
        search_scopes = join new_line (listed features.search_scopes);
      }

-- The effect on `form.forceDisableUpstreamEdits`
unfoldable pub lock_edits : SettingsFormState → SettingsFormState
lock_edits form =
    if form.force_disable_upstream_edits
    then record form { read_only = true; writer_mode = false }
    else form
