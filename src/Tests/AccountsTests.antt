-- ===== src/Tests/AccountsTests.antt =====
-- The accounts panel at small inputs.
use gx_notion2api.Prelude.{
  ◌≡◌, ◌⊎◌, refl, true, false, some, none, [], ◌∷◌, Text, txt, lookup, insert, pos, negsuc,
  if◌then◌else◌, text_eq, int_eq, or_text, trim,
}
use gx_notion2api.Accounts.Items.{
  AccountEditState, bare_workspace, workspace_edit_key, build_account_edit_map, workspace_items,
}
use gx_notion2api.Accounts.Drafts.{edit_eq, merge_drafts}
use gx_notion2api.Accounts.Panel.{AccountsProps, AccountsState, initial_accounts, adopt_items}
use gx_notion2api.Accounts.Selection.{selected_edit}
use gx_notion2api.Tests.Samples.{sample_account}
use gx_notion2api.Accounts.Editing.{
  AccountSettings, priority, max_concurrency, update_workspace_edit, account_saved,
}
use gx_notion2api.Accounts.Editing.Histories.{
  System, Reach, here, next, refreshes, edits, IsRunnable, Reach-IsRunnable,
}
use gx_notion2api.Accounts.Editing.Saves.{key_of, adopt_items-account_saved}
use gx_notion2api.Accounts.Testing.Waiting
use gx_notion2api.Accounts.Testing.{QuickTest, is_supported, run_quick_test, quick_test}
use gx_notion2api.Accounts.Testing.Requests.{run_quick_test_lem}
use gx_notion2api.Accounts.Joining.{
  Json, no_object, Import, import_of, perform_manual_import, safe_parse_probe_json,
}
use gx_notion2api.Accounts.Joining.Imports.{IsReadable, names_session, perform_manual_import_lem}

abbrev ada : Text
ada = txt "ada@example.com"

abbrev props : AccountsProps
props = record {
  items = sample_account ada (bare_workspace (txt "w1") ∷ bare_workspace (txt "w2") ∷ []) ∷ [];
  active_account = ada;
  active_workspace_id = txt "w1";
  models = [];
  default_model = none;
}

abbrev loaded : AccountsState
loaded = adopt_items props (initial_accounts props)

abbrev edited : AccountsState
edited = update_workspace_edit props ada (some (txt "w1")) (priority (pos 7)) loaded

abbrev seven : AccountEditState
seven = record { priority = pos 7; hourly_quota = 0; max_concurrency = 1 }

abbrev zero_edit : AccountEditState
zero_edit = record { priority = pos 0; hourly_quota = 0; max_concurrency = 1 }

abbrev w1 : Text
w1 = workspace_edit_key ada (some (txt "w1"))

-- An edit is kept by a refresh.
edit_kept : lookup w1 (adopt_items props edited).account_edits ≡ some seven
unfolding adopt_items update_workspace_edit initial_accounts selected_edit lookup insert
    build_account_edit_map workspace_edit_key merge_drafts workspace_items text_eq or_text edit_eq
    int_eq
edit_kept = refl

abbrev sent : AccountSettings
sent = record { email = ada; workspace_id = some (txt "w1"); limits = seven; disabled = true }

w1_known : lookup (key_of sent) edited.edit_baseline ≡ some zero_edit
unfolding adopt_items update_workspace_edit lookup insert build_account_edit_map workspace_edit_key
    workspace_items text_eq or_text key_of
w1_known = refl

adopt_items-account_saved_example :
    lookup w1 (adopt_items props (account_saved sent edited)).account_edits ≡ (
      if text_eq (key_of sent) w1
      then lookup w1 (build_account_edit_map props.items)
      else lookup w1 (adopt_items props edited).account_edits)
adopt_items-account_saved_example =
    adopt_items-account_saved props edited sent zero_edit w1 w1_known

abbrev start : System
start = record { panel = initial_accounts props; sent = [] }

start-IsRunnable : IsRunnable start
unfolding initial_accounts
start-IsRunnable = record { drafts = tt; baseline = tt; sent_limits = tt }

abbrev after_edit : System
after_edit = record {
  panel =
      update_workspace_edit props ada none (max_concurrency (negsuc 4))
        (adopt_items props (initial_accounts props));
  sent = [];
}

history : Reach start after_edit
history = next (next here (refreshes props)) (edits props ada none (max_concurrency (negsuc 4)))

Reach-IsRunnable_example : IsRunnable after_edit
Reach-IsRunnable_example = Reach-IsRunnable start-IsRunnable history

abbrev asked : QuickTest
asked = quick_test props ada (txt "w1") loaded

quick_test_sent : (run_quick_test props ada (some (txt "w1")) loaded).1 ≡ some asked
unfolding run_quick_test adopt_items initial_accounts
quick_test_sent = refl

-- A draft is edited, and a second test is tried, before the first is answered.
abbrev edited_while : AccountsState
edited_while =
    update_workspace_edit props ada (some (txt "w1")) (priority (pos 3))
      (run_quick_test props ada (some (txt "w1")) loaded).0

edited-Waits :
    Waiting.Waits
      (run_quick_test props ada (some (txt "w1")) loaded).0
      (run_quick_test props ada none edited_while).0
edited-Waits =
    Waiting.next
      (Waiting.next Waiting.here (
        Waiting.drafts [] (record { panel = edited_while; sent = [] })
          (edits props ada (some (txt "w1")) (priority (pos 3)))))
      (Waiting.tests props ada none)

run_quick_test_lem_example :
    (loaded.quick_test_in_flight ≡ false)
    × ((asked.model ≡ txt "auto")
        ⊎ (is_supported props asked.email asked.workspace_id asked.model ≡ true))
    × ((run_quick_test props ada (some (txt "w1")) loaded).0.quick_test_model ≡ asked.model)
    × ((run_quick_test props ada none (run_quick_test props ada none edited_while).0).1 ≡ none)
run_quick_test_lem_example =
    run_quick_test_lem props ada (some (txt "w1")) loaded asked
      (run_quick_test props ada none edited_while).0 props ada none quick_test_sent edited-Waits

-- A form with an email alone
abbrev filled_in : AccountsState
filled_in = record (initial_accounts props) {
  manual = record (initial_accounts props).manual { email = ada };
}

abbrev imported : Import
imported = import_of ada filled_in.manual

abbrev parse : Text → Json
parse raw = no_object

import_sent : (perform_manual_import parse filled_in).1 ≡ some imported
unfolding perform_manual_import initial_accounts trim or_text
import_sent = refl

perform_manual_import_lem_example :
    (names_session imported ≡ true)
    × (imported.cookie_header ≡ trim filled_in.manual.cookie_header)
    × (imported.probe_json_text ≡ trim filled_in.manual.probe_json_text)
    × IsReadable (safe_parse_probe_json parse filled_in.manual.probe_json_text)
perform_manual_import_lem_example = perform_manual_import_lem parse filled_in imported import_sent
