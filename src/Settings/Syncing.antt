-- ===== src/Settings/Syncing.antt =====
-- The form of frontend/components/admin/settings-panel.tsx against refreshes of the configuration: its
-- baseline, the effect that adopts a new configuration, the discarding of changes, and a save or an
-- import, split at its request.
pub mod Drafts
use gx_notion2api.Prelude.{
  message_or, ℕ, Bool, true, false, not, ◌&&◌, ◌||◌, Option, none, some, List, [], ◌∷◌, Text, txt,
  if◌then◌else◌, text_eq, nat_eq, or_text,
}
use gx_notion2api.Types.Config.{AppConfigShape}
use gx_notion2api.Settings.Prompts.{PromptForm}
use gx_notion2api.Settings.Forms.{SettingsFormState}

-- `synced` is the version of the configuration last adopted: each configuration that the panel is given
-- has a version of its own, which stands for the identity of the object.
pub record SettingsState : Type 0 where
  pub form : SettingsFormState
  pub baseline : SettingsFormState
  pub synced : ℕ
  pub message : Text
  pub saving : Bool

abbrev pub prompt_texts : PromptForm → List Text
prompt_texts p =
    p.prompt_profile ∷ p.fallback_profiles ∷ p.max_escalation_steps ∷ p.max_refusal_retries
    ∷ p.custom_prompt_prefix ∷ p.cognitive_reframing_prefix ∷ p.toolbox_capability_expansion_prefix
    ∷ p.coding_retry_prefixes ∷ p.general_retry_prefixes ∷ p.direct_answer_retry_prefixes ∷ []

abbrev pub form_texts : SettingsFormState → List Text
form_texts f =
    f.host
    ∷ f.port
    ∷ f.api_key
    ∷ f.upstream_base_url
    ∷ f.upstream_origin
    ∷ f.upstream_host
    ∷ f.upstream_tls_server_name
    ∷ f.default_model
    ∷ f.timeout_sec
    ∷ f.responses_ttl
    ∷ f.poll_interval
    ∷ f.poll_rounds
    ∷ f.chunk_runes
    ∷ f.sqlite_path
    ∷ f.ai_surface
    ∷ f.thread_type
    ∷ f.admin_password
    ∷ f.admin_ttl
    ∷ f.login_sessions_dir
    ∷ f.login_timeout_sec
    ∷ f.model_aliases
    ∷ f.search_scopes
    ∷ prompt_texts f.prompts

abbrev pub form_switches : SettingsFormState → List Bool
form_switches f =
    f.upstream_use_env_proxy ∷ f.debug_upstream ∷ f.persist_conversation_snapshots
    ∷ f.persist_responses ∷ f.persist_continuation_sessions ∷ f.persist_sillytavern_bindings
    ∷ f.use_web_search ∷ f.read_only ∷ f.force_disable_upstream_edits
    ∷ f.force_fresh_thread_per_request ∷ f.writer_mode ∷ f.generate_image ∷ f.enable_csv ∷ []

abbrev bool_eq : Bool → Bool → Bool
bool_eq true b = b
bool_eq false b = not b

unfoldable pub same_texts : List Text → List Text → Bool
same_texts [] [] = true
same_texts (t ∷ ts) (u ∷ us) = text_eq t u && same_texts ts us
same_texts _ _ = false

unfoldable pub same_switches : List Bool → List Bool → Bool
same_switches [] [] = true
same_switches (b ∷ bs) (c ∷ cs) = bool_eq b c && same_switches bs cs
same_switches _ _ = false

-- `sameFormState`: every field, texts and switches
unfoldable pub same_form_state : SettingsFormState → SettingsFormState → Bool
unfolding same_texts same_switches
same_form_state left right =
    same_texts (form_texts left) (form_texts right)
    && same_switches (form_switches left) (form_switches right)

unfoldable pub is_dirty : SettingsState → Bool
unfolding same_form_state
is_dirty s = not (same_form_state s.form s.baseline)

unfoldable pub config_changed_while_dirty : ℕ → SettingsState → Bool
unfolding is_dirty
config_changed_while_dirty version s = is_dirty s && not (nat_eq s.synced version)

module _ (build_form_state : AppConfigShape → SettingsFormState) where
  abbrev pub adopt : ℕ → AppConfigShape → SettingsState → SettingsState
  adopt version config s = record s {
    synced = version;
    form = build_form_state config;
    baseline = build_form_state config;
  }

  -- The effect on the configuration
  unfoldable pub sync_config : ℕ → AppConfigShape → SettingsState → SettingsState
  unfolding is_dirty
  sync_config version config s =
      if is_dirty s || nat_eq s.synced version then s else adopt version config s

  unfoldable pub discard_changes : ℕ → AppConfigShape → SettingsState → SettingsState
  discard_changes version config s = record (adopt version config s) { message = txt "已放弃未保存的修改" }

unfoldable pub edit_form : (SettingsFormState → SettingsFormState) → SettingsState → SettingsState
edit_form f s = record s { form = f s.form }

unfoldable pub begin_save : SettingsState → SettingsState
begin_save s = record s { saving = true; message = txt "保存中..." }

-- `saveConfig` after its request, with the form as it was when the save began
unfoldable pub config_saved : SettingsFormState → SettingsState → SettingsState
config_saved saved_form s = record s {
  baseline = saved_form;
  message = txt "已保存并热更新";
  saving = false;
}

unfoldable pub save_failed : Option Text → SettingsState → SettingsState
save_failed cause s = record s { message = message_or cause (txt "保存失败"); saving = false }
