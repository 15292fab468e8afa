-- ===== src/Accounts/Selection.antt =====
-- What frontend/components/admin/accounts-panel.tsx derives for the selected account and workspace.
use gx_notion2api.Prelude.{
  Bool, false, Option, none, some, List, [], Text, or_text, text_eq, find, lookup, coalesce, flag,
}
use gx_notion2api.Types.Accounts.{AccountItem, WorkspaceItem}
use gx_notion2api.Accounts.Items.{AccountEditState, Edits, workspace_edit_key, edit_of_limits}
use gx_notion2api.Accounts.Panel.{AccountsProps, AccountsState, account_with, workspaces_of, id_of}

-- `selectedAccount` and `selectedWorkspace`
unfoldable pub selected_account : AccountsProps → AccountsState → Option AccountItem
unfolding account_with
selected_account props s = account_with s.selected_email props.items

unfoldable pub selected_workspace : AccountsProps → AccountsState → Option WorkspaceItem
unfolding selected_account
selected_workspace props s =
    find (λ w. text_eq w.id s.selected_workspace_id) (workspaces_of (selected_account props s))

abbrev pub limits_of : Option WorkspaceItem → Option AccountItem → AccountEditState
limits_of none none = edit_of_limits none none none
limits_of none (some account) =
    edit_of_limits account.priority account.hourly_quota account.max_concurrency
limits_of (some w) none = edit_of_limits w.priority w.hourly_quota w.max_concurrency
limits_of (some w) (some account) =
    edit_of_limits (coalesce w.priority account.priority)
      (coalesce w.hourly_quota account.hourly_quota)
      (coalesce w.max_concurrency account.max_concurrency)

abbrev pub edit_or : Option AccountEditState → AccountEditState → AccountEditState
edit_or none edit = edit
edit_or (some edit) _ = edit

abbrev pub edit_of_selected : Option AccountItem → Option WorkspaceItem → Edits → AccountEditState
edit_of_selected none workspace edits = limits_of workspace none
edit_of_selected (some account) workspace edits =
    edit_or (lookup (workspace_edit_key (or_text account.email []) (id_of workspace)) edits)
      (limits_of workspace (some account))

-- `selectedEdit`
unfoldable pub selected_edit : AccountsProps → AccountsState → AccountEditState
unfolding selected_account selected_workspace edit_of_limits
selected_edit props s =
    edit_of_selected (selected_account props s) (selected_workspace props s) s.account_edits

abbrev pub disabled_of : Option Bool → AccountItem → Bool
disabled_of none account = flag account.disabled
disabled_of (some draft) account = draft

abbrev pub disabled_of_selected : Option AccountItem → List (Text × Bool) → Bool
disabled_of_selected none edits = false
disabled_of_selected (some account) edits =
    disabled_of (lookup (or_text account.email []) edits) account

-- `selectedDisabled`
unfoldable pub selected_disabled : AccountsProps → AccountsState → Bool
unfolding selected_account
selected_disabled props s = disabled_of_selected (selected_account props s) s.disabled_edits
