-- ===== src/Console/Merging.antt =====
-- Sorting and merging of conversations, of frontend/hooks/use-admin-console.ts. `get_time` stands
-- for `new Date(value).getTime()` of a valid date, counted from the earliest instant that a Date
-- holds, so that every instant is a natural number; differences are the same.
pub mod Order
pub mod Ids
pub mod Messages
use gx_notion2api.Prelude.{
  ℕ, Bool, true, false, not, ◌&&◌, ◌||◌, Option, none, some, List, [], ◌∷◌, ◌++◌, Text, txt,
  text_eq, option_eq, is_given, is_present, or_text, or_else, coalesce, if◌then◌else◌, leb, keep,
  find,
}
use gx_notion2api.Types.Conversations.{ConversationSummary, ConversationMessage}

-- `new Date(0)`, in milliseconds from the earliest instant
abbrev pub epoch : ℕ
epoch = 8640000000000000

-- `current.origin === 'merged' && current.thread_id && … && (!next.origin || next.origin === 'local')`
unfoldable pub preserves_merged_title : ConversationSummary → ConversationSummary → Bool
preserves_merged_title current next =
    option_eq current.origin (some (txt "merged"))
    && is_given current.thread_id
    && option_eq current.thread_id next.thread_id
    && (not (is_given next.origin) || option_eq next.origin (some (txt "local")))

-- The branch of `mergeConversationSummaryState` with a current summary
unfoldable pub merge_summaries : ConversationSummary → ConversationSummary → ConversationSummary
merge_summaries current next = record {
  id = next.id;
  title =
      if preserves_merged_title current next
      then or_else current.title next.title
      else or_else next.title current.title;
  title_edited_at = coalesce next.title_edited_at current.title_edited_at;
  origin = or_else next.origin current.origin;
  remote_only = coalesce next.remote_only current.remote_only;
  preview = coalesce next.preview current.preview;
  request_prompt = coalesce next.request_prompt current.request_prompt;
  status = coalesce next.status current.status;
  source = coalesce next.source current.source;
  transport = coalesce next.transport current.transport;
  model = coalesce next.model current.model;
  notion_model = coalesce next.notion_model current.notion_model;
  account_email = coalesce next.account_email current.account_email;
  space_id = coalesce next.space_id current.space_id;
  thread_id = coalesce next.thread_id current.thread_id;
  trace_id = coalesce next.trace_id current.trace_id;
  response_id = coalesce next.response_id current.response_id;
  completion_id = coalesce next.completion_id current.completion_id;
  created_by_display_name = or_else next.created_by_display_name current.created_by_display_name;
  created_at = coalesce next.created_at current.created_at;
  updated_at = coalesce next.updated_at current.updated_at;
  error = coalesce next.error current.error;
}

unfoldable pub merge_conversation_summary_state :
    Option ConversationSummary → ConversationSummary → ConversationSummary
unfolding merge_summaries
merge_conversation_summary_state none next = next
merge_conversation_summary_state (some current) next = merge_summaries current next

abbrev pub has_id : Text → ConversationSummary → Bool
has_id id item = text_eq item.id id

abbrev pub message_has_id : Text → ConversationMessage → Bool
message_has_id id item = option_eq item.id (some id)

-- `next[index] = nextMessage` at the first message with the id, or `next.push(nextMessage)`
unfoldable pub put_message :
    Text → ConversationMessage → List ConversationMessage → List ConversationMessage
put_message id message [] = message ∷ []
put_message id message (m ∷ ms) =
    if message_has_id id m then message ∷ ms else m ∷ put_message id message ms

unfoldable pub merge_with_id :
    Option Text → List ConversationMessage → ConversationMessage → List ConversationMessage
unfolding put_message
merge_with_id none messages message = messages
merge_with_id (some id) messages message =
    if is_present id then put_message id message messages else messages

-- An `undefined` list of messages stands for the empty one.
unfoldable pub merge_conversation_messages :
    List ConversationMessage → Option ConversationMessage → List ConversationMessage
unfolding merge_with_id
merge_conversation_messages messages none = messages
merge_conversation_messages messages (some message) = merge_with_id message.id messages message

module _ (get_time : Text → ℕ) where
  -- `new Date(item.updated_at || item.created_at || 0).getTime()`
  unfoldable pub time_of_text : Text → ℕ
  time_of_text t = if is_present t then get_time t else epoch

  unfoldable pub time_of : ConversationSummary → ℕ
  unfolding time_of_text
  time_of item = time_of_text (or_text item.updated_at (or_text item.created_at []))

  -- One item into a list in the order of the comparator, before the items that are as new
  unfoldable pub insert_by_time :
      ConversationSummary → List ConversationSummary → List ConversationSummary
  insert_by_time item [] = item ∷ []
  insert_by_time item (other ∷ rest) =
      if leb (time_of other) (time_of item)
      then item ∷ other ∷ rest
      else other ∷ insert_by_time item rest

  -- `sort` is stable; a comparator by a number leaves one stable result, which insertion gives.
  unfoldable pub sort_conversations : List ConversationSummary → List ConversationSummary
  unfolding insert_by_time
  sort_conversations [] = []
  sort_conversations (item ∷ items) = insert_by_time item (sort_conversations items)

  unfoldable pub upsert : ConversationSummary → List ConversationSummary → List ConversationSummary
  upsert summary current = sort_conversations (
      keep (λ item. not (has_id summary.id item)) current
      ++ merge_conversation_summary_state (find (has_id summary.id) current) summary ∷ [])

  -- The updater of `upsertConversationSummary`, its guard included
  unfoldable pub upsert_conversation_summary :
      Option ConversationSummary → List ConversationSummary → List ConversationSummary
  unfolding upsert
  upsert_conversation_summary none current = current
  upsert_conversation_summary (some summary) current =
      if is_present summary.id then upsert summary current else current
