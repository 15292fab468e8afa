-- ===== src/Chat/Editing.antt =====
-- Renaming, deleting and editing in frontend/components/admin/chat-workspace.tsx, each split at its
-- request. The handlers read `conversationID` as it was when they began; it is an argument of what
-- they do after the request.
pub mod Answers
use gx_notion2api.Prelude.{
  message_or, Bool, true, false, not, ◌&&◌, ◌||◌, Option, none, some, List, [], ◌∷◌, ◌++◌, Text,
  txt, if◌then◌else◌, is_present, is_given, or_text, or_else, option_eq, text_eq, trim, flag,
  listed, find,
}
use gx_notion2api.Types.Conversations.{ConversationMessage, ConversationSummary, ConversationDetail}
use gx_notion2api.Chat.Targets.{ChatTarget}
use gx_notion2api.Chat.State.{ChatState, toast, cancel_rename, cancel_edit, reset_conversation}
use gx_notion2api.Chat.Opening.{is_active_status}

-- `item.title || item.request_prompt || item.preview || '新对话'`
unfoldable pub conversation_label : ConversationSummary → Text
conversation_label item =
    or_text (or_else item.title (or_else item.request_prompt item.preview)) (txt "新对话")

unfoldable pub start_rename : ConversationSummary → ChatState → ChatState
start_rename item s =
    if flag item.remote_only
    then toast (txt "该对话只存在于 Notion，无法在此重命名") s
    else record s { renaming_id = item.id; rename_value = conversation_label item }

abbrev pub is_label : Text → Option ConversationSummary → Bool
is_label next none = true
is_label next (some item) = text_eq next (conversation_label item)

abbrev pub is_item : Text → ConversationSummary → Bool
is_item id entry = text_eq entry.id id

-- `commitRename` up to its request, which carries the new name
unfoldable pub commit_rename : List ConversationSummary → Text → ChatState → ChatState × Option Text
unfolding cancel_rename
commit_rename conversations id s =
    let next = trim s.rename_value in
    if not (is_present next) || is_label next (find (is_item id) conversations)
    then (cancel_rename s, none)
    else (record s { busy_id = id }, some next)

-- `commitRename` after its requests
unfoldable pub rename_came : Text → Text → Text → ChatState → ChatState
unfolding cancel_rename
rename_came id next conversation_id s =
    let named = if text_eq id conversation_id then record s { title = next } else s in
    record (toast (txt "已重命名") (cancel_rename named)) { busy_id = [] }

unfoldable pub rename_failed : Option Text → ChatState → ChatState
rename_failed cause s = record (toast (message_or cause (txt "重命名失败")) s) { busy_id = [] }

-- `removeConversation` up to its request, with the answer to its confirmation
unfoldable pub remove_conversation : Bool → ConversationSummary → ChatState → ChatState × Bool
remove_conversation confirmed item s =
    if flag item.remote_only
    then (toast (txt "该对话只存在于 Notion，无法在此删除") s, false)
    else if not confirmed
    then (s, false)
    else if is_active_status item.status
    then (toast (txt "此对话正在生成，完成后再删除") s, false)
    else (record s { busy_id = item.id }, true)

-- `removeConversation` after its request
unfoldable pub conversation_removed :
    List ChatTarget → ConversationSummary → Text → ChatState → ChatState
unfolding reset_conversation
conversation_removed targets item conversation_id s =
    let left = if text_eq item.id conversation_id then reset_conversation targets [] s else s in
    record (toast (txt "已删除") left) { busy_id = [] }

unfoldable pub removal_failed : Option Text → ChatState → ChatState
removal_failed cause s = record (toast (message_or cause (txt "删除失败")) s) { busy_id = [] }

unfoldable pub start_edit : ConversationMessage → ChatState → ChatState
start_edit message s =
    if not (is_given message.id)
    then s
    else if s.running
    then toast (txt "正在生成，暂时不能编辑") s
    else record s { editing_id = or_text message.id []; edit_value = or_text message.content [] }

-- A request of an edit: the conversation, the message and its new text
pub record Edit : Type 0 where
  pub target_id : Text
  pub message_id : Text
  pub next : Text

-- `commitEdit` up to its request
unfoldable pub commit_edit : ConversationMessage → ChatState → ChatState × Option Edit
unfolding cancel_edit
commit_edit message s =
    let next = trim s.edit_value in
    let edit : Edit = record {
      target_id = s.conversation_id;
      message_id = or_text message.id [];
      next = next;
    } in
    if not (is_present s.conversation_id) || not (is_given message.id)
    then (s, none)
    else if text_eq next (trim (or_text message.content []))
    then (cancel_edit s, none)
    else if not (is_present next)
    then (toast (txt "内容不能为空") s, none)
    else (record s { saving_edit = true }, some edit)

-- `commitEdit` after its request
unfoldable pub edit_came : Text → ConversationDetail → ChatState → ChatState
unfolding cancel_edit
edit_came target_id item s =
    if not s.mounted
    then record s { saving_edit = false }
    else if not (text_eq s.active_conversation_ref target_id)
    then record (toast (txt "已保存") (cancel_edit s)) { saving_edit = false }
    else record (toast (txt "已保存") (cancel_edit s)) {
      messages = listed item.messages;
      title = or_text item.title s.title;
      saving_edit = false;
    }

-- `removeMessage` up to its request, which names the conversation and the message
unfoldable pub remove_message :
    Bool → ConversationMessage → ChatState → ChatState × Option (Text × Text)
remove_message confirmed message s =
    if s.running
      || s.saving_edit
      || s.remote_only
      || not (is_present s.conversation_id)
      || not (is_given message.id)
    then (s, none)
    else if not confirmed
    then (s, none)
    else (record s { saving_edit = true }, some (s.conversation_id, or_text message.id []))

-- `removeMessage` after its request
unfoldable pub message_removed : Text → ConversationDetail → ChatState → ChatState
unfolding cancel_edit
message_removed target_id item s =
    if not s.mounted
    then record s { saving_edit = false }
    else if text_eq s.active_conversation_ref target_id
    then record (toast (txt "已删除本地消息") (cancel_edit s)) {
      messages = listed item.messages;
      saving_edit = false;
    }
    else record (toast (txt "已删除本地消息") s) { saving_edit = false }

-- A failed edit or removal of a message
unfoldable pub save_failed : Text → Option Text → ChatState → ChatState
save_failed fallback cause s = record (toast (message_or cause fallback) s) { saving_edit = false }
