-- ===== src/Tests/PagesTests.antt =====
-- The quota indicator, the export and the saved session at small inputs.
use gx_notion2api.Prelude.{
  ◌≤◌, ◌≡◌, refl, true, false, some, none, List, [], ◌++◌, ◌∷◌, txt, All, any, text_eq, length,
  arith,
}
use gx_notion2api.Types.Models.{ModelItem}
use gx_notion2api.Types.Usage.{AiUsageReport}
use gx_notion2api.Chat.Targets.{ChatTarget, workspace}
use gx_notion2api.Chat.State.{ChatState, fresh_chat}
use gx_notion2api.Chat.Quotas.{
  QuotaState, initial_quota, QuotaRead, refresh_quota, run_quota_effect, quota_came,
}
use gx_notion2api.Chat.Quotas.Reads
use gx_notion2api.Chat.Quotas.Reads.{
  IsSound, all_came, QuotaAnswer, refused, reported, all_came-run_quota_effect,
}
use gx_notion2api.Chat.Quotas.Reads.Kept.{Reach-IsSound}
use gx_notion2api.Chat.Sessions.{session_of, first_chat, restore_session, save_session}
use gx_notion2api.Chat.Sessions.Restoring.{IsRestored, restore_session-save_session}
use gx_notion2api.Chat.Exporting.{is_forbidden, safe_file_name}
use gx_notion2api.Chat.Exporting.FileNames.{safe_file_name_lem}

abbrev target : ChatTarget
target = record {
  id = workspace (txt "e") (txt "w");
  email = txt "e";
  workspace_id = txt "w";
  name = txt "W";
  tier = [];
  capability = none;
  disabled = false;
  eligible = true;
}

abbrev AnswersAll : QuotaRead → AiUsageReport → Type 0
AnswersAll read report = Unit

abbrev report : AiUsageReport
report = record {
  email = txt "e";
  space_id = some (txt "w");
  workspace_name = none;
  status = txt "ok";
  detail = none;
  cached = false;
  fetched_at = none;
  usage = none;
}

abbrev before : Reads.System
before = record { panel = initial_quota; sent = []; marks = []; granted = 0 }

before-IsSound : IsSound AnswersAll before
unfolding initial_quota
before-IsSound = record { from = tt; newest = tt; spaced = tt; counted = omega arith }

-- A click on the refresh button, the forced read that it leads to, and its answer
abbrev clicked_once : Reads.System
clicked_once = Reads.clicked 70000 (refresh_quota 70000 (some target) initial_quota) before

abbrev asking : Reads.System
asking = record clicked_once {
  panel = (run_quota_effect true (some target) clicked_once.panel).0;
  sent = Reads.and_sent (run_quota_effect true (some target) clicked_once.panel).1 [];
}

abbrev read : QuotaRead
read = record {
  number = 1;
  key = txt "e" ++ (0 ∷ txt "w");
  email = txt "e";
  workspace = txt "w";
  force = true;
}

read_IsSent : Reads.IsSent read asking.sent
unfolding run_quota_effect refresh_quota initial_quota
read_IsSent = Reads.newest

abbrev after : Reads.System
after = record asking {
  panel = quota_came read report asking.panel;
  marks = Reads.unmarked read report asking.panel asking.marks;
}

quota_history : Reads.Reach AnswersAll before after
quota_history =
    Reads.next
      (Reads.next (Reads.next Reads.here (Reads.refreshes 70000 (some target)))
        (Reads.renders true (some target)))
      (Reads.comes read report read_IsSent tt)

Reach-IsSound_example : IsSound AnswersAll after
Reach-IsSound_example = Reach-IsSound AnswersAll before-IsSound quota_history

-- A read of the first run, which is awaited while the workspace is given up, and which then fails
abbrev loading_panel : QuotaState
loading_panel = record initial_quota { quota_loading = true; run = 1 }

abbrev ended : List (QuotaRead × QuotaAnswer)
ended = (read, refused (some (txt "timeout"))) ∷ (read, reported report) ∷ []

all_came-run_quota_effect_example :
    (all_came ended (run_quota_effect true none loading_panel).0
      ≡ (run_quota_effect true none loading_panel).0)
    × ((run_quota_effect true none loading_panel).0.quota ≡ none)
    × ((run_quota_effect true none loading_panel).0.quota_loading ≡ loading_panel.quota_loading)
all_came-run_quota_effect_example =
    all_came-run_quota_effect true loading_panel ended (omega arith, (omega arith, tt))

safe_file_name_lem_example :
    (1 ≤ length (safe_file_name (txt "a/b: c")))
    × (length (safe_file_name (txt "a/b: c")) ≤ 80)
    × All (λ c. is_forbidden c ≡ false) (safe_file_name (txt "a/b: c"))
safe_file_name_lem_example = safe_file_name_lem (txt "a/b: c")

abbrev model : ModelItem
model = record {
  default_reasoning_effort = none;
  supported_reasoning_efforts = none;
  disabled_reason = none;
  id = txt "m";
  name = none;
  family = none;
  group = none;
  notion_model = none;
  aliases = none;
  beta = none;
  enabled = none;
}

abbrev left : ChatState
left = record (fresh_chat (txt "m") true) { prompt = txt "draft"; conversation_id = txt "c1" }

saved : save_session left ≡ some (session_of left)
unfolding save_session
saved = refl

model_listed : any (λ item. text_eq item.id left.model) (model ∷ []) ≡ true
unfolding any text_eq
model_listed = refl

restore_session-save_session_example :
    IsRestored left
      (restore_session (model ∷ []) (session_of left) (first_chat (txt "other") false))
restore_session-save_session_example =
    restore_session-save_session (model ∷ []) left (session_of left) (txt "other") false saved
      model_listed
