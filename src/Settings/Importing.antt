-- ===== src/Settings/Importing.antt =====
-- The files, the snapshots and the strategy test of frontend/components/admin/settings-panel.tsx, each
-- call split where it awaits. Reading a file with `JSON.parse` is left to the browser, and the texts of
-- results as `JSON.stringify` shows them are left out.
pub mod Imports
use gx_notion2api.Prelude.{
  message_or, ℕ, ◌+◌, Bool, true, false, not, ◌&&◌, Option, none, some, List, [], ◌∷◌, ◌++◌, Text,
  txt, if◌then◌else◌, is_present, is_given, or_text, or_else, text_eq, any, flag, trim, length,
  keep,
}
use gx_notion2api.Types.Models.{ModelItem}
use gx_notion2api.Types.Config.{AppConfigShape, FeatureConfig, PromptConfig}
use gx_notion2api.Settings.Prompts.{build_prompt_strategy_form_state}
use gx_notion2api.Settings.Forms.{SettingsFormState}
use gx_notion2api.Settings.Syncing.{SettingsState}

unfoldable pub begin_import : SettingsState → SettingsState
begin_import s = record s { message = txt "导入配置中..." }

-- `onImport` answered, with the form as it was when the import began
unfoldable pub config_imported : SettingsFormState → Text → SettingsState → SettingsState
config_imported form file_name s = record s {
  baseline = form;
  message = txt "配置已导入: " ++ file_name;
}

unfoldable pub config_not_imported : Option Text → SettingsState → SettingsState
config_not_imported cause s = record s { message = message_or cause (txt "导入失败") }

-- `applyPromptStrategy`
unfoldable pub apply_prompt_strategy : PromptConfig → SettingsState → SettingsState
apply_prompt_strategy prompt s = record s {
  form = record s.form { prompts = build_prompt_strategy_form_state (some prompt) };
}

unfoldable pub begin_strategy_import : SettingsState → SettingsState
begin_strategy_import s = record s { message = txt "导入策略中..." }

unfoldable pub strategy_imported : PromptConfig → Text → SettingsState → SettingsState
unfolding apply_prompt_strategy
strategy_imported prompt file_name s = record (apply_prompt_strategy prompt s) {
  message = txt "已载入策略文件: " ++ file_name;
}

unfoldable pub strategy_not_imported : Option Text → SettingsState → SettingsState
strategy_not_imported cause s = record s { message = message_or cause (txt "策略导入失败") }

unfoldable pub strategy_downloaded : SettingsState → SettingsState
strategy_downloaded s = record s { message = txt "已导出当前满血策略 JSON" }

-- The three calls whose answer is only shown
pub data Operation : Type 0 where
  export_config create_snapshot list_snapshots : Operation

abbrev pub waiting_text : Operation → Text
waiting_text export_config = txt "导出配置中..."
waiting_text create_snapshot = txt "生成快照中..."
waiting_text list_snapshots = txt "读取快照列表中..."

abbrev pub done_text : Operation → Text
done_text export_config = txt "配置已导出到下方"
done_text create_snapshot = txt "配置快照已生成"
done_text list_snapshots = txt "快照列表已刷新"

abbrev pub failed_text : Operation → Text
failed_text export_config = txt "导出失败"
failed_text create_snapshot = txt "快照生成失败"
failed_text list_snapshots = txt "读取快照失败"

unfoldable pub begin_operation : Operation → SettingsState → SettingsState
begin_operation operation s = record s { message = waiting_text operation }

unfoldable pub operation_done : Operation → SettingsState → SettingsState
operation_done operation s = record s { message = done_text operation }

unfoldable pub operation_failed : Operation → Option Text → SettingsState → SettingsState
operation_failed operation cause s = record s { message = message_or cause (failed_text operation) }

abbrev pub first_model_id : List ModelItem → Option Text
first_model_id [] = none
first_model_id (model ∷ models) = some model.id

-- `currentModel`
unfoldable pub current_model : List ModelItem → SettingsFormState → Text
current_model models form =
    or_text (or_else (some form.default_model) (first_model_id models)) (txt "auto")

abbrev pub is_set : Bool → Bool
is_set b = b

-- `persistenceEnabledCount`
unfoldable pub persistence_enabled_count : SettingsFormState → ℕ
persistence_enabled_count form = length (
    keep is_set (
      form.persist_conversation_snapshots ∷ form.persist_responses
      ∷ form.persist_continuation_sessions ∷ form.persist_sillytavern_bindings ∷ []))

-- The strategy test
pub record StrategyTestState : Type 0 where
  pub strategy_test_prompt : Text
  pub strategy_test_model : Text
  pub strategy_test_use_web_search : Bool
  pub strategy_testing : Bool

abbrev pub searches : Option FeatureConfig → Bool
searches none = false
searches (some features) = flag features.use_web_search

-- The effect on the configuration and the models
unfoldable pub sync_strategy_test :
    AppConfigShape → List ModelItem → StrategyTestState → StrategyTestState
sync_strategy_test config models s = record s {
  strategy_test_model =
      or_text (or_else config.default_model (or_else config.model_id (first_model_id models)))
        (txt "auto");
  strategy_test_use_web_search = searches config.features;
}

-- The body of its request
pub record StrategyTest : Type 0 where
  pub prompt : Text
  pub model : Text
  pub use_web_search : Bool

-- `runStrategyTest` up to its request
unfoldable pub run_strategy_test : StrategyTestState → StrategyTestState × Option StrategyTest
run_strategy_test s =
    if is_present (trim s.strategy_test_prompt)
    then (
      record s { strategy_testing = true },
      some (record {
        prompt = s.strategy_test_prompt;
        model = s.strategy_test_model;
        use_web_search = s.strategy_test_use_web_search;
      }),
    )
    else (s, none)

unfoldable pub strategy_tested : StrategyTestState → StrategyTestState
strategy_tested s = record s { strategy_testing = false }
