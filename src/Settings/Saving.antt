-- ===== src/Settings/Saving.antt =====
-- What `saveConfig` of frontend/components/admin/settings-panel.tsx makes of the form and sends. What
-- `Number` and `JSON.parse` make of texts are arguments; a numeral that is no natural number and a
-- configuration's list of accounts are not represented.
pub mod Loads
use gx_notion2api.Prelude.{
  ℕ, Bool, true, false, not, ◌&&◌, ◌||◌, Option, none, some, List, [], ◌∷◌, Text, txt,
  if◌then◌else◌, is_present, or_text, trim,
}
use gx_notion2api.Types.Config.{Decimal, FeatureConfig, StorageConfig, AdminConfig, AppConfigShape}
use gx_notion2api.Settings.Prompts.{
  build_prompt_strategy_payload, number_or, split_lines, trimmed, given_or,
}
use gx_notion2api.Settings.Forms.{
  SettingsFormState, no_features, no_storage, no_responses, no_admin, no_login_helper, notion_url,
  one_and_a_half,
}

-- `text.trim() || fallback`
abbrev pub trim_or : Text → Text → Text
trim_or t fallback = or_text (some (trim t)) fallback

-- A secret is sent as it was typed, and not at all where nothing was typed.
abbrev pub secret : Text → Text → Option Text
secret typed sent = if is_present (trim typed) then some sent else none

unfoldable pub saved_storage : SettingsFormState → StorageConfig → StorageConfig
saved_storage form storage = record {
  sqlite_path = some (trim_or form.sqlite_path (txt "data/notion2api.sqlite"));
  persist_conversations = some (
      form.persist_conversation_snapshots || form.persist_responses
      || form.persist_continuation_sessions || form.persist_sillytavern_bindings);
  persist_conversation_snapshots = some form.persist_conversation_snapshots;
  persist_responses = some form.persist_responses;
  persist_continuation_sessions = some form.persist_continuation_sessions;
  persist_sillytavern_bindings = some form.persist_sillytavern_bindings;
}

unfoldable pub saved_features : SettingsFormState → FeatureConfig → FeatureConfig
saved_features form features = record features {
  use_web_search = some form.use_web_search;
  force_disable_upstream_edits = some form.force_disable_upstream_edits;
  force_fresh_thread_per_request = some form.force_fresh_thread_per_request;
  use_read_only_mode = some (if form.force_disable_upstream_edits then true else form.read_only);
  writer_mode = some (if form.force_disable_upstream_edits then false else form.writer_mode);
  enable_generate_image = some form.generate_image;
  enable_csv_attachment_support = some form.enable_csv;
  ai_surface = some (trim_or form.ai_surface (txt "ai_module"));
  thread_type = some (trim_or form.thread_type (txt "workflow"));
  search_scopes = some (trimmed (split_lines form.search_scopes));
}

module _ (read : Text → ℕ) (read_decimal : Text → Decimal)
    (parse_aliases : Text → Option (List (Text × Text))) where
  -- The configuration that is sent, once the aliases are parsed
  unfoldable pub next_config :
      SettingsFormState → List (Text × Text) → AppConfigShape → AppConfigShape
  unfolding saved_storage saved_features
  next_config form aliases config =
      let base_url = trim_or form.upstream_base_url notion_url in
      record config {
        host = some (trim form.host);
        port = some (number_or read form.port 8787);
        upstream_base_url = some base_url;
        upstream_origin = some (trim_or form.upstream_origin base_url);
        upstream_host_header = some (trim form.upstream_host);
        upstream_tls_server_name = some (trim form.upstream_tls_server_name);
        upstream_use_env_proxy = some form.upstream_use_env_proxy;
        default_model = some form.default_model;
        model_id = some form.default_model;
        timeout_sec = some (number_or read form.timeout_sec 180);
        poll_interval_sec = some (
            if is_present form.poll_interval
            then read_decimal form.poll_interval
            else one_and_a_half);
        poll_max_rounds = some (number_or read form.poll_rounds 40);
        stream_chunk_runes = some (number_or read form.chunk_runes 24);
        debug_upstream = some form.debug_upstream;
        responses = some (record (given_or config.responses no_responses) {
          store_ttl_seconds = some (number_or read form.responses_ttl 3600);
        });
        storage = some (saved_storage form (given_or config.storage no_storage));
        admin = some (record (given_or config.admin no_admin) {
          token_ttl_hours = some (number_or read form.admin_ttl 24);
          password = secret form.admin_password form.admin_password;
        });
        login_helper = some (record (given_or config.login_helper no_login_helper) {
          sessions_dir = some (trim form.login_sessions_dir);
          timeout_sec = some (number_or read form.login_timeout_sec 120);
        });
        prompt = some (build_prompt_strategy_payload read form.prompts);
        features = some (saved_features form (given_or config.features no_features));
        api_key = secret form.api_key (trim form.api_key);
        model_aliases = some aliases;
      }

  abbrev pub with_aliases :
      SettingsFormState → AppConfigShape → Option (List (Text × Text)) → Option AppConfigShape
  with_aliases form config none = none
  with_aliases form config (some aliases) = some (next_config form aliases config)

  -- Nothing is sent where the aliases do not parse.
  unfoldable pub save_config : SettingsFormState → AppConfigShape → Option AppConfigShape
  save_config form config =
      with_aliases form config
        (parse_aliases (if is_present form.model_aliases then form.model_aliases else txt "{}"))
