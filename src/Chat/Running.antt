-- ===== src/Chat/Running.antt =====
-- `performRun` of frontend/components/admin/chat-workspace.tsx, split at its awaits. The ids that
-- `newID` makes are arguments.
pub mod Streams
use gx_notion2api.Prelude.{
  ℕ, ◌+◌, Bool, true, false, not, ◌&&◌, ◌||◌, Option, none, some, List, [], ◌∷◌, ◌++◌, Text, txt,
  map, if◌then◌else◌, any, is_present, is_given, or_text, or_else, option_eq, text_eq, take, ltb,
  flag, listed, length, trim,
}
use gx_notion2api.Types.Conversations.{
  ConversationMessage, ConversationMessageAttachment, ConversationDetail,
}
use gx_notion2api.Types.Chat.{AttachmentInput, ChatRunInput, ChatRunResult}
use gx_notion2api.Chat.Attachments.{ChatFile}
use gx_notion2api.Chat.Targets.{Target, ChatTarget, is_auto, find_target}
use gx_notion2api.Chat.State.{ChatState, is_held}
use gx_notion2api.Chat.Opening.{bound_to, is_active_status}

-- What a run captures when it starts
pub record Run : Type 0 where
  pub id : Text
  pub answer_id : Text
  pub is_new : Bool
  pub sent_prompt : Text
  pub sent_files : List ChatFile
  pub model : Text
  pub use_web_search : Bool
  pub selected_target : Option ChatTarget

abbrev pub no_files : List ChatFile → Bool
no_files [] = true
no_files (file ∷ files) = false

-- The first early return of `performRun`
unfoldable pub cannot_run : ChatState → Bool
cannot_run s =
    is_held s.abort_ref
    || s.saving_edit
    || s.loading
    || s.load_failed
    || s.remote_running
    || (not (is_present (trim s.prompt)) && no_files s.files)

abbrev pub is_missing : Option ChatTarget → Bool
is_missing none = true
is_missing (some target) = false

abbrev pub id_or : Text → Text → Text
id_or id other = if is_present id then id else other

abbrev pub lost_notice : Text
lost_notice = txt "所选工作区已不可用，请重新选择商业工作区。"

-- `performRun` up to the reading of the files
unfoldable pub start_run : List ChatTarget → Text → Text → ChatState → ChatState × Option Run
unfolding cannot_run
start_run targets new_conversation new_answer s =
    let selected = find_target s.target targets in
    let run : Run = record {
      id = id_or s.conversation_id (txt "conv_" ++ new_conversation);
      answer_id = txt "answer_" ++ new_answer;
      is_new = not (is_present s.conversation_id);
      sent_prompt = s.prompt;
      sent_files = s.files;
      model = s.model;
      use_web_search = s.use_web_search;
      selected_target = selected;
    } in
    if cannot_run s
    then (s, none)
    else if not (is_present s.conversation_id) && not (is_auto s.target) && is_missing selected
    then (record s { error = lost_notice }, none)
    else (record s { abort_ref = some false; running = true; error = [] }, some run)

abbrev pub plain_message : ConversationMessage
plain_message = record {
  requested_model = none;
  model_selection_mode = none;
  model_observations = none;
  id = none;
  role = none;
  status = none;
  content = none;
  created_at = none;
  updated_at = none;
  edited_at = none;
  truncated = none;
  step_type = none;
  attachments = none;
}

abbrev pub shown_file : ChatFile → ConversationMessageAttachment
shown_file file = record {
  name = some file.name;
  content_type = some file.content_type;
  content_type_camel = none;
  url = none;
  source = none;
}

abbrev pub user_message : Run → ConversationMessage
user_message run = record plain_message {
  id = some (txt "user_" ++ run.answer_id);
  role = some (txt "user");
  content = some run.sent_prompt;
  status = some (txt "completed");
  attachments = some (map shown_file run.sent_files);
}

abbrev pub empty_answer : Run → ConversationMessage
empty_answer run = record plain_message {
  id = some run.answer_id;
  role = some (txt "assistant");
  content = some [];
  status = some (txt "streaming");
}

unfoldable pub run_input : Run → List AttachmentInput → ChatRunInput
run_input run attachments = record {
  account_email = elim run.selected_target [ none ↦ none | some target ↦ some target.email ];
  workspace_id = elim run.selected_target [ none ↦ none | some target ↦ some target.workspace_id ];
  prompt = run.sent_prompt;
  model = run.model;
  use_web_search = run.use_web_search;
  attachments = attachments;
  conversation_id = some run.id;
}

abbrev pub is_aborted : Option Bool → Bool
is_aborted none = false
is_aborted (some b) = b

-- `abortRef.current = null; if (mounted.current) setRunning(false);`
unfoldable pub finish_run : ChatState → ChatState
finish_run s = record s { abort_ref = none; running = if s.mounted then false else s.running }

abbrev pub shown_turn : Run → ChatState → ChatState
shown_turn run s = record s {
  title = if run.is_new then or_text (some (take 60 run.sent_prompt)) (txt "附件对话") else s.title;
  conversation_id = run.id;
  messages = s.messages ++ user_message run ∷ empty_answer run ∷ [];
  prompt = [];
  files = [];
}

-- `performRun` from the read files to the request, which is sent unless the run was stopped
unfoldable pub files_read : Run → List AttachmentInput → ChatState → ChatState × Option ChatRunInput
unfolding run_input finish_run
files_read run attachments s =
    if is_aborted s.abort_ref
    then (finish_run s, none)
    else (shown_turn run s, some (run_input run attachments))

-- `current.map((message) => message.id === answerID ? f(message) : message)`
unfoldable pub update_message :
    Text
    → (ConversationMessage → ConversationMessage)
    → List ConversationMessage
    → List ConversationMessage
update_message id f [] = []
update_message id f (message ∷ messages) =
    (if option_eq message.id (some id) then f message else message) ∷ update_message id f messages

abbrev pub content_of : ConversationMessage → Text
content_of message = or_text message.content []

abbrev pub with_delta : Text → ConversationMessage → ConversationMessage
with_delta delta message = record message { content = some (content_of message ++ delta) }

-- The callback of the stream
unfoldable pub delta_came : Run → Text → ChatState → ChatState
unfolding update_message
delta_came run delta s =
    if s.mounted
    then record s { messages = update_message run.answer_id (with_delta delta) s.messages }
    else s

abbrev pub completed : ChatRunResult → ConversationMessage → ConversationMessage
completed result message = record message {
  content = some result.text;
  status = some (txt "completed");
  truncated = result.truncated;
}

-- `performRun` from the answer to the reload; a run that has left the page is over.
unfoldable pub result_came : Run → ChatRunResult → ChatState → ChatState × Bool
unfolding update_message finish_run
result_came run result s =
    if s.mounted
    then (
      record s {
        conversation_id = id_or result.conversation_id run.id;
        remote_only = false;
        messages = update_message run.answer_id (completed result) s.messages;
      },
      true,
    )
    else (finish_run s, false)

-- The end of a run, with what the reload brings, if anything
unfoldable pub reload_came : Option ConversationDetail → ChatState → ChatState
unfolding finish_run
reload_came none s = finish_run s
reload_came (some item) s = finish_run (
    if s.mounted
    then record s {
      messages = listed item.messages;
      owner = or_text item.account_email [];
      target = bound_to item.account_email item.space_id s.target;
    }
    else s)

abbrev pub failed_message : ConversationMessage → ConversationMessage
failed_message message = record message { status = some (txt "failed") }

abbrev pub run_error : Bool → Option Text → Text
run_error true cause = txt "已停止生成"
run_error false none = txt "生成失败"
run_error false (some message) = message

-- The `catch` up to its reload; the draft and the files come back unless the operator stopped the run.
unfoldable pub run_failed : Run → Option Text → ChatState → ChatState × Bool
unfolding update_message finish_run
run_failed run cause s =
    let stopped = is_aborted s.abort_ref in
    if s.mounted
    then (
      record s {
        error = run_error stopped cause;
        messages = update_message run.answer_id failed_message s.messages;
        prompt = if stopped then s.prompt else id_or s.prompt run.sent_prompt;
        files = if stopped then s.files else run.sent_files;
      },
      true,
    )
    else (finish_run s, false)

abbrev pub last_message : List ConversationMessage → Option ConversationMessage
last_message [] = none
last_message (m ∷ []) = some m
last_message (m ∷ n ∷ rest) = last_message (n ∷ rest)

-- Does the screen show more of the answer than the server's last message?
unfoldable pub shows_more : Text → Option ConversationMessage → ConversationMessage → Bool
shows_more answer_id none message = false
shows_more answer_id (some optimistic) message =
    option_eq message.role (some (txt "assistant"))
    && option_eq optimistic.id (some answer_id)
    && ltb (length (content_of message)) (length (content_of optimistic))

abbrev pub shown_content : Option ConversationMessage → Option Text
shown_content none = none
shown_content (some optimistic) = optimistic.content

abbrev pub partial_answer : Option ConversationMessage → ConversationMessage → ConversationMessage
partial_answer optimistic message = record message {
  content = shown_content optimistic;
  status = some (txt "failed");
}

-- `persisted.map(…)`, which looks at the last message alone
unfoldable pub reconcile :
    Text → Option ConversationMessage → List ConversationMessage → List ConversationMessage
unfolding shows_more
reconcile answer_id optimistic [] = []
reconcile answer_id optimistic (m ∷ []) =
    (if shows_more answer_id optimistic m then partial_answer optimistic m else m) ∷ []
reconcile answer_id optimistic (m ∷ n ∷ rest) = m ∷ reconcile answer_id optimistic (n ∷ rest)

-- The end of a failed run, with what the reload brings, if anything
unfoldable pub recovery_came : Run → Option ConversationDetail → ChatState → ChatState
unfolding finish_run reconcile
recovery_came run none s = finish_run s
recovery_came run (some item) s = finish_run (
    if s.mounted
    then record s {
      messages = reconcile run.answer_id (last_message s.messages) (listed item.messages);
      remote_only = flag item.remote_only;
      owner = or_text item.account_email [];
      target = bound_to item.account_email item.space_id s.target;
      remote_running = is_active_status item.status;
    }
    else s)
