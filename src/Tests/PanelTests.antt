-- ===== src/Tests/PanelTests.antt =====
-- The calls of the server, the conversation list and the settings at small inputs.
use gx_notion2api.Prelude.{
  ℕ, ◌≡◌, refl, true, false, keep, text_eq, not, some, none, Option, List, [], ◌∷◌, ◌++◌, Text, txt,
  map, any, or_text, or_else, if◌then◌else◌,
}
use gx_notion2api.Types.Config.{Decimal, AppConfigShape}
use gx_notion2api.Types.Conversations.{ConversationSummary}
use gx_notion2api.Api.Fetching.{
  Response, text, readable, unreadable, broken, Outcome, Payload, api_fetch,
}
use gx_notion2api.Api.Fetching.Failures.{IsTold, api_fetch_lem}
use gx_notion2api.Api.Streaming.{
  StreamEvent, end_mark, event, finished, broken, interrupted, is_length, stream_test_prompt,
}
use gx_notion2api.Api.Streaming.Answers.{deltas_of, stream_test_prompt_lem}
use gx_notion2api.Listing.{prune_selection, ListState, filter_all}
use gx_notion2api.Settings.Forms.{SettingsFormState, build_form_state, lock_edits}
use gx_notion2api.Settings.Saving.{save_config, next_config}
use gx_notion2api.Settings.Saving.Loads.{toggles, build_form_state-save_config}
use gx_notion2api.Settings.Syncing.{
  SettingsState, is_dirty, sync_config, config_saved, same_form_state,
}
use gx_notion2api.Settings.Syncing.Drafts.{sync_config-config_saved}
use gx_notion2api.Settings.Importing.{config_imported}
use gx_notion2api.Settings.Importing.Imports.{config_imported-sync_config}
use gx_notion2api.Tests.Samples.{summary_of}

abbrev bad_gateway : Response
bad_gateway = record {
  ok = false;
  status = 502;
  status_text = txt "Bad Gateway";
  body = readable (text []);
}

api_fetch_lem_example : IsTold bad_gateway (api_fetch (λ raw. []) bad_gateway)
api_fetch_lem_example = api_fetch_lem (λ raw. []) bad_gateway

-- A failed response that is marked as JSON and has no body gives no status.
no_status :
    ◌≡◌ {A = Outcome Payload}
      (api_fetch (λ raw. []) (record bad_gateway { body = unreadable (txt "Unexpected end") }))
      (broken (txt "Unexpected end"))
unfolding api_fetch
no_status = refl

abbrev two_events : List StreamEvent
two_events =
    record { error = none; finish_reason = none; delta = some (txt "he") }
    ∷ record { error = none; finish_reason = some (txt "length"); delta = some (txt "llo") }
    ∷ []

stream_test_prompt_lem_example :
    (stream_test_prompt (some (txt "c1")) none (map event two_events ++ end_mark ∷ [])
      ≡ finished (record {
        conversation_id = or_text (or_else (some (txt "c1")) none) [];
        text = deltas_of two_events;
        truncated = some (any is_length two_events);
      }))
    × (stream_test_prompt (some (txt "c1")) none (map event two_events ++ []) ≡ broken interrupted)
stream_test_prompt_lem_example =
    stream_test_prompt_lem (some (txt "c1")) none two_events [] (refl, (refl, tt))

abbrev conversations : List ConversationSummary
conversations = summary_of (txt "c1") [] ∷ summary_of (txt "c2") [] ∷ []

-- One of the selected conversations is gone.
abbrev selecting : ListState
selecting = record {
  selected_ids = txt "c0" ∷ txt "c1" ∷ [];
  busy = false;
  account_filter = filter_all;
  toasts = [];
}

gone_pruned : (prune_selection conversations selecting).selected_ids ≡ txt "c1" ∷ []
unfolding prune_selection keep any text_eq
gone_pruned = refl

abbrev bare : AppConfigShape
bare = record {
  host = some (txt "127.0.0.1");
  port = some 8787;
  api_key = none;
  upstream_base_url = none;
  upstream_origin = none;
  upstream_host_header = none;
  upstream_tls_server_name = none;
  upstream_use_env_proxy = none;
  timeout_sec = none;
  poll_interval_sec = none;
  poll_max_rounds = none;
  stream_chunk_runes = none;
  default_model = none;
  model_id = none;
  debug_upstream = some true;
  model_aliases = none;
  responses = none;
  storage = none;
  admin = none;
  login_helper = none;
  prompt = none;
  features = none;
}

abbrev show_fraction : Decimal → Text
show_fraction d = txt "1.5"

abbrev show_none : List (Text × Text) → Text
show_none aliases = txt "{}"

abbrev read_none : Text → Option (List (Text × Text))
read_none t = some []

abbrev read_one : Text → ℕ
read_one t = 1

abbrev read_fraction : Text → Decimal
read_fraction t = record { digits = 15; places = 1 }

abbrev bare_form : SettingsFormState
bare_form = build_form_state show_fraction show_none bare

build_form_state-save_config_example :
    (toggles (
        build_form_state show_fraction show_none
          (next_config read_one read_fraction read_none bare_form [] bare))
      ≡ toggles (lock_edits bare_form))
    × ((build_form_state show_fraction show_none
          (next_config read_one read_fraction read_none bare_form [] bare)).default_model
        ≡ or_text (some bare_form.default_model) (txt "auto"))
unfolding save_config
build_form_state-save_config_example =
    build_form_state-save_config read_one read_fraction read_none show_fraction show_none bare_form
      bare (next_config read_one read_fraction read_none bare_form [] bare) refl

-- The host was edited while the form was being saved.
abbrev drafting : SettingsState
drafting = record {
  form = record bare_form { host = txt "0.0.0.0" };
  baseline = bare_form;
  synced = 0;
  message = [];
  saving = true;
}

sync_config-config_saved_example :
    (sync_config
      (build_form_state show_fraction show_none)
      1
      bare
      (config_saved bare_form drafting)).form
    ≡ (if same_form_state drafting.form bare_form
        then build_form_state show_fraction show_none bare
        else drafting.form)
sync_config-config_saved_example =
    sync_config-config_saved (build_form_state show_fraction show_none) 1 bare bare_form drafting
      refl

-- A form without unsaved edits, shown since version 0
abbrev unedited : SettingsState
unedited = record drafting { form = bare_form }

config_imported-sync_config_example :
    (is_dirty (
        config_imported unedited.form
          (txt "f")
          (sync_config (build_form_state show_fraction show_none) 1 bare unedited))
      ≡ (if is_dirty unedited
          then false
          else not (same_form_state (build_form_state show_fraction show_none bare) unedited.form)))
    × ((sync_config (build_form_state show_fraction show_none) 1 bare (
          config_imported unedited.form
            (txt "f")
            (sync_config (build_form_state show_fraction show_none) 1 bare unedited))).form
        ≡ build_form_state show_fraction show_none bare)
config_imported-sync_config_example =
    config_imported-sync_config (build_form_state show_fraction show_none) 1 bare (txt "f") unedited
      refl
