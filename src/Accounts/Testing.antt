-- ===== src/Accounts/Testing.antt =====
-- `runQuickTest` of frontend/components/admin/accounts-panel.tsx, split at its request. What
-- `JSON.stringify` shows of the answer is left out.
pub mod Waiting
pub mod Requests
use gx_notion2api.Prelude.{
  message_or, Bool, true, false, not, ◌&&◌, ◌||◌, Option, none, some, List, [], ◌∷◌, ◌++◌, Text,
  txt, if◌then◌else◌, is_present, or_text, text_eq, any, trim,
}
use gx_notion2api.Types.Models.{ModelItem}
use gx_notion2api.Types.Accounts.{WorkspaceItem}
use gx_notion2api.Accounts.Items.{manual_model_options, workspace_title, workspace_with}
use gx_notion2api.Accounts.Panel.{
  AccountsProps, AccountsState, account_with, workspaces_of, default_test_prompt,
}
use gx_notion2api.Accounts.Editing.{toast}

-- The body of the request, and what the messages about it call it
pub record QuickTest : Type 0 where
  pub email : Text
  pub workspace_id : Text
  pub model : Text
  pub prompt : Text
  pub target : Text
  pub fallback_note : Text

-- A default argument takes the place of an undefined one.
abbrev pub id_or_default : Option Text → Text → Text
id_or_default none fallback = fallback
id_or_default (some id) fallback = id

abbrev pub and_title : Option WorkspaceItem → Text
and_title none = []
and_title (some workspace) = txt " · " ++ workspace_title workspace

-- `supported`
unfoldable pub is_supported : AccountsProps → Text → Text → Text → Bool
unfolding manual_model_options account_with any
is_supported props email id model =
    any (λ item. text_eq item.id model)
      (manual_model_options (account_with email props.items) id props.models)

unfoldable pub tested_model : AccountsProps → Text → Text → Text → Text
tested_model props email id model =
    if text_eq model (txt "auto") || is_supported props email id model then model else txt "auto"

abbrev pub fallback_text : Text → Text → Text
fallback_text chosen model =
    if text_eq chosen model then [] else txt "该工作区不支持手动选择 " ++ (model ++ txt "，本次改用 Auto。")

abbrev pub and_note : Text → Text
and_note note = if is_present note then txt " · " ++ note else []

-- `${target} · 模型 ${selectedModel}…`
abbrev pub described : QuickTest → Text
described test = test.target ++ (txt " · 模型 " ++ (test.model ++ and_note test.fallback_note))

unfoldable pub quick_test : AccountsProps → Text → Text → AccountsState → QuickTest
unfolding tested_model
quick_test props email id s = record {
  email = email;
  workspace_id = id;
  model = tested_model props email id s.quick_test_model;
  prompt = or_text (some (trim s.quick_test_prompt)) default_test_prompt;
  target = email ++ and_title (workspace_with id (workspaces_of (account_with email props.items)));
  fallback_note = fallback_text (tested_model props email id s.quick_test_model) s.quick_test_model;
}

abbrev pub warned : Text → AccountsState → AccountsState
warned note s = if is_present note then toast note s else s

abbrev pub testing : QuickTest → AccountsState → AccountsState
testing test s = record (warned test.fallback_note s) {
  quick_test_in_flight = true;
  quick_test_email = test.email;
  quick_test_workspace_id = test.workspace_id;
  quick_test_model = test.model;
  quick_testing = true;
  quick_test_message = txt "测试中：" ++ described test;
}

-- `runQuickTest` up to its request
unfoldable pub run_quick_test :
    AccountsProps → Text → Option Text → AccountsState → AccountsState × Option QuickTest
unfolding quick_test
run_quick_test props email workspace_id s =
    let test = quick_test props email (id_or_default workspace_id s.quick_test_workspace_id) s in
    if s.quick_test_in_flight then (s, none) else (testing test s, some test)

-- `runQuickTest` after its request
unfoldable pub quick_test_passed : QuickTest → AccountsState → AccountsState
quick_test_passed test s = record (toast (test.target ++ txt " 测试成功") s) {
  quick_test_message = txt "测试成功：" ++ described test;
  quick_test_in_flight = false;
  quick_testing = false;
}

unfoldable pub quick_test_failed : QuickTest → Option Text → AccountsState → AccountsState
quick_test_failed test cause s =
    let message = message_or cause (txt "账号测试失败") in
    record (toast message s) {
      quick_test_message = test.target ++ (txt "：" ++ message);
      quick_test_in_flight = false;
      quick_testing = false;
    }
