-- ===== src/Accounts/Editing.antt =====
-- Drafts of the scheduling limits, and the calls that save, activate and delete accounts, in
-- frontend/components/admin/accounts-panel.tsx. Each call is split at its request.
pub mod Limits
pub mod Histories
pub mod Saves
use gx_notion2api.Prelude.{
  message_or, ℕ, ◌+◌, Bool, true, false, not, ◌&&◌, ◌||◌, Option, none, some, List, [], ◌∷◌, ◌++◌,
  Text, txt, if◌then◌else◌, is_present, or_text, text_eq, lookup, insert, flag, first, find, ℤ, pos,
  negsuc, trim,
}
use gx_notion2api.Types.Accounts.{AccountItem, WorkspaceItem}
use gx_notion2api.Accounts.Items.{
  AccountEditState, Edits, workspace_edit_key, at_least_one, workspace_title, bare_workspace,
}
use gx_notion2api.Accounts.Panel.{AccountsProps, AccountsState, account_with, workspaces_of, id_of}
use gx_notion2api.Accounts.Selection.{edit_or, selected_edit, selected_workspace}

abbrev pub toast : Text → AccountsState → AccountsState
toast notice s = record s { toasts = s.toasts ++ notice ∷ [] }

-- `populateEmail`
unfoldable pub populate_email : AccountsProps → Text → AccountsState → AccountsState
unfolding account_with
populate_email props email s =
    let workspaces = workspaces_of (account_with email props.items) in
    record s {
      selected_email = email;
      selected_workspace_id =
          or_text (id_of (find (λ w. flag w.active) workspaces))
            (or_text (id_of (first workspaces)) []);
      start_email = email;
      verify_email = email;
      quick_test_email = email;
      manual = record s.manual { email = email };
    }

-- `Math.max(0, n)`
abbrev pub not_negative : ℤ → ℕ
not_negative (pos n) = n
not_negative (negsuc n) = 0

-- What an input of the panel changes
pub data Patch : Type 0 where
  priority : ℤ → Patch
  hourly_quota : ℤ → Patch
  max_concurrency : ℤ → Patch

unfoldable pub patched : Patch → AccountEditState → AccountEditState
patched (priority n) edit = record edit { priority = n }
patched (hourly_quota n) edit = record edit { hourly_quota = not_negative n }
patched (max_concurrency n) edit = record edit { max_concurrency = at_least_one (not_negative n) }

-- `updateWorkspaceEdit`
unfoldable pub update_workspace_edit :
    AccountsProps → Text → Option Text → Patch → AccountsState → AccountsState
unfolding patched
update_workspace_edit props email id patch s =
    let key = workspace_edit_key email id in
    record s {
      account_edits =
          insert key (patched patch (edit_or (lookup key s.account_edits) (selected_edit props s)))
            s.account_edits;
    }

unfoldable pub set_disabled : Text → Bool → AccountsState → AccountsState
set_disabled email checked s = record s { disabled_edits = insert email checked s.disabled_edits }

-- `放弃修改`
unfoldable pub discard_drafts : AccountsState → AccountsState
discard_drafts s = record s {
  account_edits = s.edit_baseline;
  disabled_edits = s.disabled_baseline;
}

-- The body of the request that saves an account
pub record AccountSettings : Type 0 where
  pub email : Text
  pub workspace_id : Option Text
  pub limits : AccountEditState
  pub disabled : Bool

-- `saveAccount` up to its request
unfoldable pub begin_save_account :
    Text
    → Option Text
    → AccountEditState
    → Bool
    → AccountsState
    → AccountsState × Option AccountSettings
begin_save_account email id edit disabled s =
    let settings : AccountSettings = record {
      email = email;
      workspace_id = id;
      limits = edit;
      disabled = disabled;
    } in
    if s.saving_account then (s, none) else (record s { saving_account = true }, some settings)

abbrev pub flag_or : Option Bool → Bool → Bool
flag_or none b = b
flag_or (some b) _ = b

-- `saveAccount` after its request
unfoldable pub account_saved : AccountSettings → AccountsState → AccountsState
account_saved sent s =
    let key = workspace_edit_key sent.email sent.workspace_id in
    record (toast (txt "工作区设置已保存") s) {
      account_edits = insert key (edit_or (lookup key s.edit_baseline) sent.limits) s.account_edits;
      disabled_edits =
          insert sent.email (flag_or (lookup sent.email s.disabled_baseline) sent.disabled)
            s.disabled_edits;
      saving_account = false;
    }

unfoldable pub account_not_saved : Option Text → AccountsState → AccountsState
account_not_saved cause s = record (toast (message_or cause (txt "保存账号设置失败")) s) {
  saving_account = false;
}

abbrev pub and_id : Option Text → Text
and_id none = []
and_id (some id) = if is_present id then txt " · " ++ id else []

-- `activateAccount` after its request
unfoldable pub account_activated :
    AccountsProps → Text → Option Text → AccountsState → AccountsState
unfolding populate_email
account_activated props email id s =
    populate_email props email (toast (txt "已激活 " ++ (email ++ and_id id)) s)

unfoldable pub account_not_activated : Option Text → AccountsState → AccountsState
account_not_activated cause s = toast (message_or cause (txt "激活账号失败")) s

abbrev pub title_of : Option WorkspaceItem → Text → Text
title_of none id = workspace_title (bare_workspace id)
title_of (some workspace) id = workspace_title workspace

-- `setDefaultWorkspace` after its request
unfoldable pub default_workspace_set : AccountsProps → Text → AccountsState → AccountsState
unfolding workspace_title
default_workspace_set props id s =
    toast (txt "已将 " ++ (title_of (selected_workspace props s) id ++ txt " 设为默认工作区")) s

unfoldable pub default_workspace_not_set : Option Text → AccountsState → AccountsState
default_workspace_not_set cause s = toast (message_or cause (txt "设置默认工作区失败")) s

-- `deleteAccount` after its request, if it was confirmed
unfoldable pub account_deleted : Text → AccountsState → AccountsState
account_deleted email s = toast (txt "已删除 " ++ email) s

unfoldable pub account_not_deleted : Option Text → AccountsState → AccountsState
account_not_deleted cause s = toast (message_or cause (txt "删除账号失败")) s
