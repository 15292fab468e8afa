-- ===== src/Chat/State.antt =====
-- The state of the chat workspace in frontend/components/admin/chat-workspace.tsx, with the refs that
-- its calls read, and the updates of a conversation that is left. Indicators of the page (drag, scroll,
-- clipboard, quota) are not part of it.
use gx_notion2api.Prelude.{
  ℕ, ◌+◌, Bool, true, false, Option, none, some, List, [], ◌∷◌, ◌++◌, Text, txt, if◌then◌else◌, any,
}
use gx_notion2api.Types.Conversations.{ConversationMessage}
use gx_notion2api.Chat.Attachments.{ChatFile}
use gx_notion2api.Chat.Targets.{Target, auto, ChatTarget, target_eq}

-- `abort_ref` is `none` where `abortRef` is null, else it tells whether the controller is aborted.
-- `toasts` are the notices given so far.
pub record ChatState : Type 0 where
  pub prompt : Text
  pub model : Text
  pub use_web_search : Bool
  pub conversation_id : Text
  pub remote_only : Bool
  pub messages : List ConversationMessage
  pub files : List ChatFile
  pub loading : Bool
  pub load_failed : Bool
  pub remote_running : Bool
  pub running : Bool
  pub error : Text
  pub target : Target
  pub owner : Text
  pub title : Text
  pub mobile_open : Bool
  pub quota_open : Bool
  pub renaming_id : Text
  pub rename_value : Text
  pub editing_id : Text
  pub edit_value : Text
  pub busy_id : Text
  pub saving_edit : Bool
  pub abort_ref : Option Bool
  pub load_revision : ℕ
  pub active_conversation_ref : Text
  pub mounted : Bool
  pub toasts : List Text

-- The first render, once it is mounted and the saved session, if any, is restored without one
abbrev pub fresh_chat : Text → Bool → ChatState
fresh_chat model use_web_search = record {
  prompt = [];
  model = model;
  use_web_search = use_web_search;
  conversation_id = [];
  remote_only = false;
  messages = [];
  files = [];
  loading = false;
  load_failed = false;
  remote_running = false;
  running = false;
  error = [];
  target = auto;
  owner = [];
  title = txt "新对话";
  mobile_open = false;
  quota_open = false;
  renaming_id = [];
  rename_value = [];
  editing_id = [];
  edit_value = [];
  busy_id = [];
  saving_edit = false;
  abort_ref = none;
  load_revision = 0;
  active_conversation_ref = [];
  mounted = true;
  toasts = [];
}

abbrev pub toast : Text → ChatState → ChatState
toast notice s = record s { toasts = s.toasts ++ notice ∷ [] }

unfoldable pub cancel_rename : ChatState → ChatState
cancel_rename s = record s { renaming_id = []; rename_value = [] }

unfoldable pub cancel_edit : ChatState → ChatState
cancel_edit s = record s { editing_id = []; edit_value = [] }

abbrev pub is_held : Option Bool → Bool
is_held none = false
is_held (some aborted) = true

-- `if (!targets.some((item) => item.id === target)) setTarget('auto')`
abbrev pub kept_target : List ChatTarget → Target → Target
kept_target targets target = if any (λ item. target_eq item.id target) targets then target else auto

abbrev pub reset : List ChatTarget → Text → ChatState → ChatState
reset targets draft s = record s {
  load_revision = s.load_revision + 1;
  active_conversation_ref = [];
  conversation_id = [];
  messages = [];
  owner = [];
  title = txt "新对话";
  error = [];
  prompt = draft;
  files = [];
  loading = false;
  load_failed = false;
  remote_running = false;
  mobile_open = false;
  quota_open = false;
  remote_only = false;
  renaming_id = [];
  rename_value = [];
  editing_id = [];
  edit_value = [];
  target = kept_target targets s.target;
}

-- `resetConversation`; `startNew` is the case of no draft.
unfoldable pub reset_conversation : List ChatTarget → Text → ChatState → ChatState
reset_conversation targets draft s = if is_held s.abort_ref then s else reset targets draft s

-- The effect that mirrors the conversation into its ref, and unmounting
unfoldable pub sync_active : ChatState → ChatState
sync_active s = record s { active_conversation_ref = s.conversation_id }

-- `abortRef.current?.abort()`
abbrev pub aborted : Option Bool → Option Bool
aborted none = none
aborted (some _) = some true

unfoldable pub stop : ChatState → ChatState
stop s = record s { abort_ref = aborted s.abort_ref }

unfoldable pub unmount_chat : ChatState → ChatState
unmount_chat s = record s {
  mounted = false;
  load_revision = s.load_revision + 1;
  abort_ref = aborted s.abort_ref;
}
