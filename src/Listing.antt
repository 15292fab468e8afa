-- ===== src/Listing.antt =====
-- The list of frontend/components/admin/conversations-panel.tsx: its account filter, its selection,
-- its effects and its deletions, each split at its request. The answers to the confirmations and of
-- the requests are arguments.
pub mod Selections
use gx_notion2api.Prelude.{
  message_or, ℕ, Bool, true, false, not, ◌&&◌, ◌||◌, Option, none, some, List, [], ◌∷◌, ◌++◌, Text,
  txt, map, if◌then◌else◌, is_present, or_text, option_eq, text_eq, trim, keep, find, first, any,
  contains, length, nat_eq, decimal,
}
use gx_notion2api.Types.Conversations.{ConversationSummary}

-- `toasts` are the notices given so far.
pub record ListState : Type 0 where
  pub selected_ids : List Text
  pub busy : Bool
  pub account_filter : Text
  pub toasts : List Text

abbrev pub filter_all : Text
filter_all = txt "__all__"

abbrev pub filter_unknown : Text
filter_unknown = txt "__unknown__"

-- `item.account_email?.trim()`, empty where there is none
abbrev pub account_of : ConversationSummary → Text
account_of item = trim (or_text item.account_email [])

unfoldable pub is_shown : Text → ConversationSummary → Bool
is_shown account_filter item =
    if text_eq account_filter filter_all
    then true
    else if text_eq account_filter filter_unknown
    then not (is_present (account_of item))
    else is_present (account_of item) && text_eq (account_of item) account_filter

-- `filteredConversations`
unfoldable pub filtered_conversations : Text → List ConversationSummary → List ConversationSummary
unfolding is_shown
filtered_conversations account_filter conversations = keep (is_shown account_filter) conversations

-- `conversations.some((item) => item.id === id)`
unfoldable pub is_listed : List ConversationSummary → Text → Bool
is_listed conversations id = any (λ item. text_eq item.id id) conversations

-- The effects that drop the selected ids that are not listed, of all conversations and of the shown
unfoldable pub prune_selection : List ConversationSummary → ListState → ListState
unfolding is_listed
prune_selection conversations s = record s {
  selected_ids = keep (is_listed conversations) s.selected_ids;
}

-- The effect that selects the first shown conversation where the selected one is not shown: the id that
-- it asks for, if any
unfoldable pub auto_select : Text → List ConversationSummary → Option Text
unfolding is_listed
auto_select selected shown =
    if is_listed shown selected then none else first (map (λ item. item.id) shown)

-- `toggleConversation`
unfoldable pub toggle_conversation : Text → ListState → ListState
toggle_conversation id s = record s {
  selected_ids =
      if contains id s.selected_ids
      then keep (λ item. not (text_eq item id)) s.selected_ids
      else s.selected_ids ++ id ∷ [];
}

-- `toggleSelectAll`
unfoldable pub toggle_select_all : List ConversationSummary → ListState → ListState
toggle_select_all shown s = record s {
  selected_ids =
      if nat_eq (length s.selected_ids) (length shown) then [] else map (λ item. item.id) shown;
}

-- The shown conversations that are selected
unfoldable pub selected_items : List ConversationSummary → ListState → List ConversationSummary
selected_items shown s = keep (λ item. contains item.id s.selected_ids) shown

abbrev pub has_origin : Text → ConversationSummary → Bool
has_origin origin item = option_eq item.origin (some origin)

unfoldable pub selected_local_count : List ConversationSummary → ListState → ℕ
unfolding selected_items
selected_local_count shown s =
    length (keep (λ item. not (has_origin (txt "notion") item)) (selected_items shown s))

unfoldable pub selected_remote_count : List ConversationSummary → ListState → ℕ
unfolding selected_items
selected_remote_count shown s =
    length (keep (λ item. not (has_origin (txt "local") item)) (selected_items shown s))

unfoldable pub has_running_selection : List ConversationSummary → ListState → Bool
unfolding selected_items
has_running_selection shown s =
    any (λ item. option_eq item.status (some (txt "running"))) (selected_items shown s)

-- `allSelected`
unfoldable pub all_selected : List ConversationSummary → ListState → Bool
all_selected shown s =
    not (nat_eq (length shown) 0) && nat_eq (length s.selected_ids) (length shown)

-- What a deletion comes to: nothing, or an error, with the message of an `Error`
pub data Deletion : Type 0 where
  deleted : Deletion
  refused : Option Text → Deletion

-- `handleSingleDelete` up to its request
unfoldable pub begin_delete : Bool → ListState → ListState × Bool
begin_delete confirmed s = if confirmed then (record s { busy = true }, true) else (s, false)

unfoldable pub single_deleted : Text → Deletion → ListState → ListState
single_deleted id deleted s = record s {
  selected_ids = keep (λ item. not (text_eq item id)) s.selected_ids;
  toasts = s.toasts ++ txt "会话已删除，并已同步到 Notion。" ∷ [];
  busy = false;
}
single_deleted id (refused cause) s = record s {
  toasts = s.toasts ++ message_or cause (txt "删除会话失败") ∷ [];
  busy = false;
}

abbrev pub no_ids : List Text → Bool
no_ids [] = true
no_ids (id ∷ ids) = false

-- `handleBatchDelete` up to its request, with the ids that it sends
unfoldable pub begin_batch_delete : Bool → ListState → ListState × Option (List Text)
begin_batch_delete confirmed s =
    if no_ids s.selected_ids
    then (s, none)
    else if confirmed
    then (record s { busy = true }, some s.selected_ids)
    else (s, none)

-- The notice counts the ids that were sent.
unfoldable pub batch_deleted : List Text → Deletion → ListState → ListState
batch_deleted sent deleted s = record s {
  selected_ids = [];
  toasts = s.toasts ++ (txt "已删除 " ++ (decimal (length sent) ++ txt " 条会话，本地与 Notion 已同步。")) ∷ [];
  busy = false;
}
batch_deleted sent (refused cause) s = record s {
  toasts = s.toasts ++ message_or cause (txt "批量删除失败") ∷ [];
  busy = false;
}
