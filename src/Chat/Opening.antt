-- ===== src/Chat/Opening.antt =====
-- `openConversation` of frontend/components/admin/chat-workspace.tsx, split at its await, and the poll
-- of a conversation that runs elsewhere.
use gx_notion2api.Prelude.{
  ℕ, ◌+◌, Bool, true, false, ◌&&◌, ◌||◌, Option, none, some, List, [], ◌++◌, Text, txt,
  if◌then◌else◌, any, is_present, or_text, or_else, option_eq, text_eq, take, nat_eq, flag, listed,
}
use gx_notion2api.Types.Models.{ModelItem}
use gx_notion2api.Types.Conversations.{ConversationDetail}
use gx_notion2api.Chat.Targets.{Target, auto, workspace, ChatTarget}
use gx_notion2api.Chat.State.{ChatState, toast, is_held, reset_conversation}

-- What `openConversation` sets before it asks
abbrev pub opening : Text → Text → ChatState → ChatState
opening id draft s = record s {
  load_revision = s.load_revision + 1;
  loading = true;
  error = [];
  load_failed = false;
  remote_running = false;
  quota_open = false;
  conversation_id = id;
  messages = [];
  files = [];
  prompt = draft;
  owner = [];
  target = auto;
  title = txt "加载对话…";
  mobile_open = false;
  renaming_id = [];
  rename_value = [];
  editing_id = [];
  edit_value = [];
}

abbrev pub switch_notice : Text
switch_notice = txt "请先停止当前生成，再切换对话"

-- The state, and the revision of the question if one is asked
unfoldable pub open_conversation : Text → Text → ChatState → ChatState × Option ℕ
open_conversation id draft s =
    if is_held s.abort_ref
    then (toast switch_notice s, none)
    else (opening id draft s, some (s.load_revision + 1))

-- What the question comes to: the item, an `ApiError` with status 404 and the code
-- 'conversation_not_found', or anything else, with the message of an `Error`
pub data LoadAnswer : Type 0 where
  loaded : ConversationDetail → LoadAnswer
  not_found : LoadAnswer
  broken : Option Text → LoadAnswer

-- `item.account_email && item.space_id ? targetID(…) : target`
abbrev pub bound_to : Option Text → Option Text → Target → Target
bound_to (some email) (some id) target =
    if is_present email && is_present id then workspace email id else target
bound_to _ _ target = target

-- `status === 'running' || status === 'queued'`
abbrev pub is_active_status : Option Text → Bool
is_active_status status =
    option_eq status (some (txt "running")) || option_eq status (some (txt "queued"))

-- The first 60 code units of the prompt stand in for a missing title.
abbrev pub short_prompt : Option Text → Option Text
short_prompt none = none
short_prompt (some t) = some (take 60 t)

abbrev pub known_model : List ModelItem → Option Text → Text → Text
known_model models none model = model
known_model models (some id) model =
    if is_present id && any (λ item. text_eq item.id id) models then id else model

unfoldable pub show_item : List ModelItem → ConversationDetail → ChatState → ChatState
show_item models item s = record s {
  messages = listed item.messages;
  owner = or_text item.account_email [];
  title = or_text (or_else item.title (short_prompt item.request_prompt)) (txt "对话");
  remote_only = flag item.remote_only;
  target = bound_to item.account_email item.space_id s.target;
  model = known_model models item.model s.model;
  remote_running = is_active_status item.status;
}

unfoldable pub missing_notice : Text → Text
missing_notice draft = txt "该会话已不存在，已切换到新对话。" ++ (if is_present draft then txt "草稿已保留。" else [])

unfoldable pub handle_answer :
    List ModelItem → List ChatTarget → Text → LoadAnswer → ChatState → ChatState
unfolding show_item missing_notice
handle_answer models targets draft (loaded item) s = show_item models item s
handle_answer models targets draft not_found s =
    toast (missing_notice draft) (reset_conversation targets draft s)
handle_answer models targets draft (broken e) s = record s {
  title = txt "对话加载失败";
  load_failed = true;
  error = elim e [ none ↦ txt "会话加载失败" | some message ↦ message ];
}

-- `mounted.current && revision === loadRevision.current`
unfoldable pub is_current : ℕ → ChatState → Bool
is_current revision s = s.mounted && nat_eq revision s.load_revision

-- `finally`
unfoldable pub end_loading : ℕ → ChatState → ChatState
unfolding is_current
end_loading revision s = if is_current revision s then record s { loading = false } else s

-- `openConversation` after its await
unfoldable pub conversation_came :
    List ModelItem → List ChatTarget → ℕ → Text → LoadAnswer → ChatState → ChatState
unfolding handle_answer end_loading is_current
conversation_came models targets revision draft answer s =
    if is_current revision s
    then end_loading revision (handle_answer models targets draft answer s)
    else s

-- The poll of a conversation that runs elsewhere, unless its effect was cleaned up
unfoldable pub poll_came : Bool → ConversationDetail → ChatState → ChatState
poll_came cancelled item s =
    if cancelled
    then s
    else record s { messages = listed item.messages; remote_running = is_active_status item.status }
