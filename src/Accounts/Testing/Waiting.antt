-- ===== src/Accounts/Testing/Waiting.antt =====
-- What frontend/components/admin/accounts-panel.tsx does while the answer to a quick test is awaited.
use gx_notion2api.Prelude.{◌≡◌, refl, ◌∙◌, Option, true, List, Text, arith}
use gx_notion2api.Accounts.Panel.{
  AccountsProps, AccountsState, adopt_items, choose_selected_workspace, choose_test_workspace,
  keep_test_model, choose_test_model,
}
use gx_notion2api.Accounts.Editing.{
  AccountSettings, update_workspace_edit, set_disabled, discard_drafts, begin_save_account,
  account_saved, account_not_saved, populate_email, account_activated, account_not_activated,
  default_workspace_set, default_workspace_not_set, account_deleted, account_not_deleted,
}
use gx_notion2api.Accounts.Editing.Histories
use gx_notion2api.Accounts.Testing.{run_quick_test}
use gx_notion2api.Accounts.Joining.{
  start_login, login_started, login_not_started, verify_login, login_verified, login_not_verified,
  import_failed, Import, account_imported,
}

-- A step of the panel other than the answer to the quick test
pub data Step (s : AccountsState) : AccountsState → Type 0 where
  drafts :
      (sent : List AccountSettings) (t : Histories.System)
      → Histories.Step (record { panel = s; sent = sent }) t
      → Step s t.panel
  tests :
      (props : AccountsProps) (email : Text) (id : Option Text)
      → Step s (run_quick_test props email id s).0
  chooses_workspace : (props : AccountsProps) → Step s (choose_test_workspace props s)
  keeps_model : (props : AccountsProps) → Step s (keep_test_model props s)
  chooses_model : (props : AccountsProps) → Step s (choose_test_model props s)
  activates :
      (props : AccountsProps) (email : Text) (id : Option Text)
      → Step s (account_activated props email id s)
  not_activated : (cause : Option Text) → Step s (account_not_activated cause s)
  default_set : (props : AccountsProps) (id : Text) → Step s (default_workspace_set props id s)
  default_not_set : (cause : Option Text) → Step s (default_workspace_not_set cause s)
  deletes : (email : Text) → Step s (account_deleted email s)
  not_deleted : (cause : Option Text) → Step s (account_not_deleted cause s)
  starts_login : Step s (start_login s).0
  login_starts : (email : Text) (message : Option Text) → Step s (login_started email message s)
  login_fails : (cause : Option Text) → Step s (login_not_started cause s)
  verifies : Step s (verify_login s).0
  login_is_verified :
      (props : AccountsProps) (email : Text) (message : Option Text)
      → Step s (login_verified props email message s)
  not_verified : (cause : Option Text) → Step s (login_not_verified cause s)
  imports :
      (props : AccountsProps) (account status : Option Text) (sent : Import)
      → Step s (account_imported props account status sent s)
  import_fails : (message : Text) → Step s (import_failed message s)

pub data Waits (s : AccountsState) : AccountsState → Type 0 where
  here : Waits s s
  next : {t u : AccountsState} → Waits s t → Step t u → Waits s u

drafts_wait :
    {s t : Histories.System}
    → Histories.Step s t
    → t.panel.quick_test_in_flight ≡ s.panel.quick_test_in_flight
unfolding adopt_items choose_selected_workspace populate_email update_workspace_edit set_disabled
    discard_drafts begin_save_account account_saved account_not_saved
drafts_wait {s} (Histories.refreshes props) = ground arith
drafts_wait {s} (Histories.chooses props) = ground arith
drafts_wait {s} (Histories.selects props email) = ground arith
drafts_wait {s} (Histories.edits props email id patch) = ground arith
drafts_wait {s} (Histories.disables email checked) = refl
drafts_wait {s} Histories.discards = refl
drafts_wait {s} (Histories.saves props email id disabled) = ground arith
drafts_wait {s} (Histories.answers settings sent) = ground arith
drafts_wait {s} (Histories.refuses cause) = refl

step_waits :
    {s t : AccountsState} → Step s t → s.quick_test_in_flight ≡ true → t.quick_test_in_flight ≡ true
unfolding run_quick_test choose_test_workspace keep_test_model choose_test_model account_activated
    account_not_activated default_workspace_set default_workspace_not_set account_deleted
    account_not_deleted start_login login_started login_not_started verify_login login_verified
    login_not_verified account_imported import_failed populate_email
step_waits {s} (drafts sent t step) h = drafts_wait step ∙ h
step_waits {s} (tests props email id) h = ground (arith, h)
step_waits {s} (chooses_workspace props) h = ground (arith, h)
step_waits {s} (keeps_model props) h = ground (arith, h)
step_waits {s} (chooses_model props) h = ground (arith, h)
step_waits {s} (activates props email id) h = ground (arith, h)
step_waits {s} (not_activated cause) h = h
step_waits {s} (default_set props id) h = ground (arith, h)
step_waits {s} (default_not_set cause) h = h
step_waits {s} (deletes email) h = ground (arith, h)
step_waits {s} (not_deleted cause) h = h
step_waits {s} starts_login h = ground (arith, h)
step_waits {s} (login_starts email message) h = h
step_waits {s} (login_fails cause) h = h
step_waits {s} verifies h = ground (arith, h)
step_waits {s} (login_is_verified props email message) h = ground (arith, h)
step_waits {s} (not_verified cause) h = h
step_waits {s} (imports props account status sent) h = ground (arith, h)
step_waits {s} (import_fails message) h = h

pub Waits-quick_test_in_flight :
    {s t : AccountsState}
    → Waits s t
    → s.quick_test_in_flight ≡ true
    → t.quick_test_in_flight ≡ true
Waits-quick_test_in_flight here h = h
Waits-quick_test_in_flight (next r step) h = step_waits step (Waits-quick_test_in_flight r h)
