-- ===== src/Console/Events.antt =====
-- The events of `/admin/events`, of `ensureStream` in frontend/hooks/use-admin-console.ts.
pub mod Deltas
use gx_notion2api.Prelude.{
  ℕ, Bool, true, false, ◌&&◌, ◌||◌, Option, none, some, List, [], ◌∷◌, Text, txt, is_given,
  is_present, option_eq, or_else, if◌then◌else◌, lookup, insert,
}
use gx_notion2api.Types.Conversations.{ConversationSummary, ConversationDetail, ConversationMessage}
use gx_notion2api.Console.Merging.{upsert_conversation_summary, merge_conversation_messages}
use gx_notion2api.Console.State.{ConsoleState, remember_conversation, connected}

-- `event_type` is the source's `type`, `sent_at` its `at`.
pub record EventPayload : Type 0 where
  pub event_type : Option Text
  pub summary : Option ConversationSummary
  pub conversation : Option ConversationDetail
  pub conversation_id : Option Text
  pub message : Option ConversationMessage
  pub sent_at : Option Text

abbrev pub is_type : EventPayload → Text → Bool
is_type payload name = option_eq payload.event_type (some name)

abbrev pub messages_of : ConversationDetail → List ConversationMessage
messages_of d = elim d.messages [ none ↦ [] | some messages ↦ messages ]

abbrev pub summary_status : Option ConversationSummary → Option Text
summary_status none = none
summary_status (some summary) = summary.status

abbrev pub summary_updated_at : Option ConversationSummary → Option Text
summary_updated_at none = none
summary_updated_at (some summary) = summary.updated_at

-- The record that `conversation.delta` writes for a cached conversation
unfoldable pub apply_delta : EventPayload → ConversationDetail → ConversationDetail
apply_delta payload existing = record {
  summary = record existing.summary {
    status = or_else (summary_status payload.summary) existing.status;
    updated_at =
        or_else (or_else (summary_updated_at payload.summary) payload.sent_at) existing.updated_at;
  };
  messages = some (merge_conversation_messages (messages_of existing) payload.message);
}

abbrev pub put_delta :
    EventPayload
    → Text
    → List (Text × ConversationDetail)
    → Option ConversationDetail
    → List (Text × ConversationDetail)
put_delta payload id current none = current
put_delta payload id current (some existing) = insert id (apply_delta payload existing) current

unfoldable pub delta_details :
    EventPayload → Text → List (Text × ConversationDetail) → List (Text × ConversationDetail)
delta_details payload id current = put_delta payload id current (lookup id current)

-- `if (payload.type === 'conversation.delta' && conversationID)`
unfoldable pub handle_delta : EventPayload → Text → ConsoleState → ConsoleState
unfolding delta_details
handle_delta payload id s =
    if is_type payload (txt "conversation.delta") && is_present id
    then record s { conversation_details = delta_details payload id s.conversation_details }
    else s

-- `setSelectedConversationId((current) => current || conversationID || '')`
unfoldable pub select_if_empty : Text → ConsoleState → ConsoleState
select_if_empty id s = record s {
  selected_conversation_id =
      if is_present s.selected_conversation_id then s.selected_conversation_id else id;
}

abbrev pub is_lifecycle : EventPayload → Bool
is_lifecycle payload =
    is_type payload (txt "conversation.created")
    || is_type payload (txt "conversation.completed")
    || is_type payload (txt "conversation.failed")

unfoldable pub handle_lifecycle : EventPayload → Text → ConsoleState → ConsoleState
unfolding select_if_empty
handle_lifecycle payload id s =
    if is_lifecycle payload && is_present id then select_if_empty id s else s

-- `payload.conversation_id`, where every use tests that it is not empty
unfoldable pub conversation_id_of : EventPayload → Text
conversation_id_of payload = elim payload.conversation_id [ none ↦ [] | some id ↦ id ]

-- The names that the stream listens to
pub data EventName : Type 0 where
  admin_ready conversation_created conversation_updated conversation_delta : EventName
  conversation_completed conversation_failed : EventName

-- What `JSON.parse(event.data)` gives; `missing` stands for an empty `event.data`.
pub data EventData : Type 0 where
  missing unparsable : EventData
  parsed : EventPayload → EventData

module _ (get_time : Text → ℕ) where
  unfoldable pub handle_event : EventPayload → ConsoleState → ConsoleState
  unfolding handle_delta handle_lifecycle conversation_id_of
  handle_event payload s =
      let upserted = record s {
        conversations = upsert_conversation_summary get_time payload.summary s.conversations;
      } in
      let id = conversation_id_of payload in
      handle_lifecycle payload id
        (handle_delta payload id (remember_conversation payload.conversation upserted))

  unfoldable pub receive_event : EventName → EventData → ConsoleState → ConsoleState
  unfolding handle_event
  receive_event name missing s = s
  receive_event name unparsable s = s
  receive_event admin_ready (parsed payload) s = record s { stream_state = connected }
  receive_event _ (parsed payload) s = handle_event payload s
