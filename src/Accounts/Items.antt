-- ===== src/Accounts/Items.antt =====
-- What frontend/components/admin/accounts-panel.tsx makes of the accounts: workspaces, the maps of the
-- scheduling limits and of the disabled flags, and the models that a workspace lets one choose.
use gx_notion2api.Prelude.{
  ℕ, Bool, Option, none, some, List, [], ◌∷◌, ◌++◌, Text, txt, if◌then◌else◌, is_present, is_given,
  or_text, text_eq, keep, find, insert, flag, listed, trim, ltb,
}
use gx_notion2api.Prelude.{ℤ, pos}
use gx_notion2api.Types.Models.{ModelItem}
use gx_notion2api.Types.Accounts.{AccountItem, WorkspaceItem, ModelCapabilities}
use gx_notion2api.Chat.Targets.{manual_models, is_choosable}

pub record AccountEditState : Type 0 where
  pub priority : ℤ
  pub hourly_quota : ℕ
  pub max_concurrency : ℕ

-- `${email}\u0000${workspaceId || 'account'}`
unfoldable pub workspace_edit_key : Text → Option Text → Text
workspace_edit_key email id = email ++ (0 ∷ or_text id (txt "account"))

abbrev pub bare_workspace : Text → WorkspaceItem
bare_workspace id = record {
  model_capabilities = none;
  ai_disabled = none;
  eligible = none;
  eligibility_reason = none;
  id = id;
  view_id = none;
  name = none;
  plan_type = none;
  subscription_tier = none;
  ai_enabled = none;
  status = none;
  last_error = none;
  priority = none;
  hourly_quota = none;
  max_concurrency = none;
  quota_limited = none;
  remaining_quota = none;
  window_started_at = none;
  window_request_count = none;
  cooldown_until = none;
  cooldown_active = none;
  cooldown_remaining_sec = none;
  last_used_at = none;
  last_success_at = none;
  last_refresh_at = none;
  last_quota_exhausted_at = none;
  consecutive_failures = none;
  total_successes = none;
  total_failures = none;
  default = none;
  active = none;
}

-- The workspace of an account that lists none
abbrev pub own_workspace : AccountItem → Text → WorkspaceItem
own_workspace item id = record (bare_workspace id) {
  view_id = item.space_view_id;
  name = item.space_name;
  plan_type = item.plan_type;
  priority = item.priority;
  hourly_quota = item.hourly_quota;
  max_concurrency = item.max_concurrency;
  quota_limited = item.quota_limited;
  remaining_quota = item.remaining_quota;
  cooldown_active = item.cooldown_active;
  cooldown_remaining_sec = item.cooldown_remaining_sec;
  total_successes = item.total_successes;
  total_failures = item.total_failures;
  last_used_at = item.last_used_at;
}

abbrev pub own_workspaces : AccountItem → Option Text → List WorkspaceItem
own_workspaces item none = []
own_workspaces item (some id) = if is_present id then own_workspace item id ∷ [] else []

abbrev pub workspaces_or_own : AccountItem → List WorkspaceItem → List WorkspaceItem
workspaces_or_own item [] = own_workspaces item item.space_id
workspaces_or_own item (workspace ∷ rest) = workspace ∷ rest

unfoldable pub workspace_items : AccountItem → List WorkspaceItem
workspace_items item = workspaces_or_own item (listed item.workspaces)

abbrev pub int_or_zero : Option ℤ → ℤ
int_or_zero none = pos 0
int_or_zero (some n) = n

abbrev pub nat_or : Option ℕ → ℕ → ℕ
nat_or none n = n
nat_or (some m) n = m

-- `Math.max(1, n)`
abbrev pub at_least_one : ℕ → ℕ
at_least_one n = if ltb n 1 then 1 else n

-- `{ priority: Number(… ?? 0), hourlyQuota: Number(… ?? 0), maxConcurrency: Math.max(1, …) }`
unfoldable pub edit_of_limits : Option ℤ → Option ℕ → Option ℕ → AccountEditState
edit_of_limits priority quota concurrency = record {
  priority = int_or_zero priority;
  hourly_quota = nat_or quota 0;
  max_concurrency = at_least_one (nat_or concurrency 1);
}

abbrev pub Edits : Type 0
Edits = List (Text × AccountEditState)

unfoldable pub add_workspaces : Text → List WorkspaceItem → Edits → Edits
unfolding edit_of_limits
add_workspaces email [] edits = edits
add_workspaces email (w ∷ ws) edits = add_workspaces email ws (
    insert (workspace_edit_key email (some w.id))
      (edit_of_limits w.priority w.hourly_quota w.max_concurrency) edits)

abbrev pub add_limits : AccountItem → Text → List WorkspaceItem → Edits → Edits
add_limits item email [] edits =
    insert (workspace_edit_key email none)
      (edit_of_limits item.priority item.hourly_quota item.max_concurrency) edits
add_limits item email (w ∷ ws) edits = add_workspaces email (w ∷ ws) edits

abbrev pub add_account : AccountItem → Option Text → Edits → Edits
add_account item none edits = edits
add_account item (some email) edits =
    if is_present email then add_limits item email (workspace_items item) edits else edits

unfoldable pub add_accounts : List AccountItem → Edits → Edits
unfolding add_workspaces
add_accounts [] edits = edits
add_accounts (item ∷ items) edits = add_accounts items (add_account item item.email edits)

unfoldable pub build_account_edit_map : List AccountItem → Edits
unfolding add_accounts
build_account_edit_map items = add_accounts items []

unfoldable pub add_disabled : List AccountItem → List (Text × Bool) → List (Text × Bool)
add_disabled [] flags = flags
add_disabled (item ∷ items) flags = add_disabled items (
    if is_given item.email
    then insert (or_text item.email []) (flag item.disabled) flags
    else flags)

unfoldable pub build_disabled_edit_map : List AccountItem → List (Text × Bool)
unfolding add_disabled
build_disabled_edit_map items = add_disabled items []

abbrev pub capability_of : Option WorkspaceItem → Option ModelCapabilities
capability_of none = none
capability_of (some workspace) = workspace.model_capabilities

abbrev pub workspace_with : Text → List WorkspaceItem → Option WorkspaceItem
workspace_with id workspaces = find (λ w. text_eq w.id id) workspaces

abbrev pub listed_workspaces : Option AccountItem → List WorkspaceItem
listed_workspaces none = []
listed_workspaces (some account) = listed account.workspaces

-- `manualModelOptions`
unfoldable pub manual_model_options : Option AccountItem → Text → List ModelItem → List ModelItem
unfolding is_choosable
manual_model_options account workspace_id models =
    keep (is_choosable models)
      (manual_models (capability_of (workspace_with workspace_id (listed_workspaces account))))

unfoldable pub workspace_title : WorkspaceItem → Text
workspace_title workspace = or_text (some (trim (or_text workspace.name []))) workspace.id
