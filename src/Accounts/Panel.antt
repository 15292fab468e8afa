-- ===== src/Accounts/Panel.antt =====
-- The state of frontend/components/admin/accounts-panel.tsx, its effects, and what it derives for the
-- selected account. The open dialogs and tabs of the page are not part of it.
use gx_notion2api.Prelude.{
  Bool, true, false, ◌&&◌, ◌||◌, Option, none, some, List, [], ◌∷◌, Text, txt, if◌then◌else◌,
  is_present, is_given, or_text, or_else, option_eq, text_eq, keep, find, first, any, flag,
}
use gx_notion2api.Types.Models.{ModelItem}
use gx_notion2api.Types.Accounts.{AccountItem, WorkspaceItem}
use gx_notion2api.Chat.Targets.{auto_model}
use gx_notion2api.Accounts.Items.{
  Edits, workspace_items, build_account_edit_map, build_disabled_edit_map, manual_model_options,
}
use gx_notion2api.Accounts.Drafts.{edit_eq, bool_eq, merge_drafts, has_drafts}

pub record AccountsProps : Type 0 where
  pub items : List AccountItem
  pub active_account : Text
  pub active_workspace_id : Text
  pub models : List ModelItem
  pub default_model : Option Text

pub record ManualImportState : Type 0 where
  pub email : Text
  pub user_id : Text
  pub user_name : Text
  pub space_id : Text
  pub space_name : Text
  pub client_version : Text
  pub cookie_header : Text
  pub probe_json_text : Text
  pub active : Bool

abbrev pub default_manual_import_state : ManualImportState
default_manual_import_state = record {
  email = [];
  user_id = [];
  user_name = [];
  space_id = [];
  space_name = [];
  client_version = [];
  cookie_header = [];
  probe_json_text = [];
  active = true;
}

-- `toasts` are the notices given so far.
pub record AccountsState : Type 0 where
  pub edit_baseline : Edits
  pub disabled_baseline : List (Text × Bool)
  pub start_email : Text
  pub start_message : Text
  pub starting : Bool
  pub verify_email : Text
  pub verify_code : Text
  pub verify_message : Text
  pub verifying : Bool
  pub manual : ManualImportState
  pub manual_hint : Text
  pub manual_busy : Bool
  pub quick_test_email : Text
  pub quick_test_workspace_id : Text
  pub quick_test_model : Text
  pub quick_test_prompt : Text
  pub quick_test_message : Text
  pub quick_testing : Bool
  pub quick_test_in_flight : Bool
  pub account_edits : Edits
  pub disabled_edits : List (Text × Bool)
  pub saving_account : Bool
  pub selected_email : Text
  pub selected_workspace_id : Text
  pub toasts : List Text

abbrev pub default_test_prompt : Text
default_test_prompt = txt "Reply with NOTION2API_ACCOUNT_OK only."

-- `models[0]?.id`
abbrev pub first_model : List ModelItem → Option Text
first_model [] = none
first_model (model ∷ models) = some model.id

-- `defaultModel || models[0]?.id || 'auto'`
unfoldable pub default_choice : AccountsProps → Text
default_choice props = or_text (or_else props.default_model (first_model props.models)) (txt "auto")

unfoldable pub initial_accounts : AccountsProps → AccountsState
unfolding default_choice
initial_accounts props = record {
  edit_baseline = [];
  disabled_baseline = [];
  start_email = [];
  start_message = [];
  starting = false;
  verify_email = [];
  verify_code = [];
  verify_message = [];
  verifying = false;
  manual = default_manual_import_state;
  manual_hint = [];
  manual_busy = false;
  quick_test_email = [];
  quick_test_workspace_id = [];
  quick_test_model = default_choice props;
  quick_test_prompt = default_test_prompt;
  quick_test_message = [];
  quick_testing = false;
  quick_test_in_flight = false;
  account_edits = [];
  disabled_edits = [];
  saving_account = false;
  selected_email = [];
  selected_workspace_id = [];
  toasts = [];
}

-- `items.some((item) => item.email === email)`
unfoldable pub has_account : List AccountItem → Text → Bool
unfolding any
has_account items email = any (λ item. option_eq item.email (some email)) items

-- `items[0]?.email`
abbrev pub first_email : List AccountItem → Option Text
first_email [] = none
first_email (item ∷ items) = item.email

-- `activeAccount || items[0]?.email || ''`
unfoldable pub preferred_email : AccountsProps → Text
preferred_email props =
    if is_present props.active_account
    then props.active_account
    else or_text (first_email props.items) []

abbrev pub still_or : Bool → Text → Text → Text
still_or there current fallback = if is_present current && there then current else fallback

abbrev pub given_or_text : Text → Text → Text
given_or_text current fallback = if is_present current then current else fallback

-- The effect on the accounts
unfoldable pub adopt_items : AccountsProps → AccountsState → AccountsState
unfolding has_account preferred_email
adopt_items props s =
    let next = build_account_edit_map props.items in
    let next_disabled = build_disabled_edit_map props.items in
    let preferred = preferred_email props in
    record s {
      account_edits = merge_drafts edit_eq s.account_edits s.edit_baseline next;
      disabled_edits = merge_drafts bool_eq s.disabled_edits s.disabled_baseline next_disabled;
      edit_baseline = next;
      disabled_baseline = next_disabled;
      quick_test_email =
          still_or (has_account props.items s.quick_test_email) s.quick_test_email preferred;
      start_email = given_or_text s.start_email preferred;
      verify_email = given_or_text s.verify_email preferred;
      selected_email =
          still_or (has_account props.items s.selected_email) s.selected_email preferred;
    }

-- `accountOptions`: the accounts that have an email
unfoldable pub account_options : List AccountItem → List AccountItem
account_options items = keep (λ item. is_given item.email) items

-- `accountOptions.find((item) => item.email === email)`
unfoldable pub account_with : Text → List AccountItem → Option AccountItem
unfolding account_options
account_with email items = find (λ item. option_eq item.email (some email)) (account_options items)

abbrev pub workspaces_of : Option AccountItem → List WorkspaceItem
workspaces_of none = []
workspaces_of (some item) = workspace_items item

abbrev pub id_of : Option WorkspaceItem → Option Text
id_of none = none
id_of (some workspace) = some workspace.id

-- The workspace id that stays, or else the id of the one found, of the default one, or of the first
unfoldable pub choose_workspace : Text → (WorkspaceItem → Bool) → List WorkspaceItem → Text
choose_workspace current is_preferred workspaces =
    still_or (any (λ w. text_eq w.id current) workspaces) current (
      or_text
        (or_else (id_of (find is_preferred workspaces))
          (or_else (id_of (find (λ w. flag w.default) workspaces)) (id_of (first workspaces))))
        [])

-- The effect on the account of the quick test
unfoldable pub choose_test_workspace : AccountsProps → AccountsState → AccountsState
unfolding choose_workspace account_with
choose_test_workspace props s = record s {
  quick_test_workspace_id =
      choose_workspace s.quick_test_workspace_id (λ w. flag w.active)
        (workspaces_of (account_with s.quick_test_email props.items));
}

-- The effect on the selected account
unfoldable pub choose_selected_workspace : AccountsProps → AccountsState → AccountsState
unfolding choose_workspace account_with
choose_selected_workspace props s = record s {
  selected_workspace_id =
      choose_workspace s.selected_workspace_id (λ w. text_eq w.id props.active_workspace_id)
        (workspaces_of (account_with s.selected_email props.items));
}

-- The models that the quick test offers
unfoldable pub model_options : AccountsProps → Text → Text → List ModelItem
unfolding manual_model_options account_with
model_options props email workspace_id =
    auto_model ∷ manual_model_options (account_with email props.items) workspace_id props.models

-- The effect on the models
unfoldable pub keep_test_model : AccountsProps → AccountsState → AccountsState
unfolding default_choice
keep_test_model props s = record s {
  quick_test_model = given_or_text s.quick_test_model (default_choice props);
}

-- The effect on the models that the quick test offers
unfoldable pub choose_test_model : AccountsProps → AccountsState → AccountsState
unfolding model_options
choose_test_model props s =
    if any (λ item. text_eq item.id s.quick_test_model)
      (model_options props s.quick_test_email s.quick_test_workspace_id)
    then s
    else record s { quick_test_model = txt "auto" }

-- `dirty`
unfoldable pub is_dirty : AccountsState → Bool
is_dirty s =
    has_drafts edit_eq s.edit_baseline s.account_edits
    || has_drafts bool_eq s.disabled_baseline s.disabled_edits
