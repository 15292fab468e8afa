-- ===== src/Console/State.antt =====
-- The state of `useAdminConsole` in frontend/hooks/use-admin-console.ts, with its refs, and the
-- updates that need no server: remembering, closing and opening the stream, and the effects that run
-- after a render.
pub mod Effects
use gx_notion2api.Prelude.{
  ℕ, Bool, true, false, not, ◌&&◌, ◌||◌, Option, none, some, List, [], ◌∷◌, Text, is_present, flag,
  if◌then◌else◌, any, find, first, lookup, insert,
}
use gx_notion2api.Types.Sessions.{AdminVerifyPayload, HealthPayload}
use gx_notion2api.Types.Config.{AdminConfigPayload, VersionPayload}
use gx_notion2api.Types.Accounts.{AccountsPayload}
use gx_notion2api.Types.Conversations.{ConversationSummary, ConversationDetail}
use gx_notion2api.Console.Merging.{has_id}

-- '实时流未连接', '实时流连接中', '实时流已连接', '实时流重连中'
pub data StreamState : Type 0 where
  disconnected connecting connected reconnecting : StreamState

-- `event_source` tells whether `eventSourceRef` holds a source.
pub record ConsoleState : Type 0 where
  pub verify : Option AdminVerifyPayload
  pub config_payload : Option AdminConfigPayload
  pub version_payload : Option VersionPayload
  pub health_payload : Option HealthPayload
  pub accounts_payload : Option AccountsPayload
  pub conversations : List ConversationSummary
  pub conversation_details : List (Text × ConversationDetail)
  pub selected_conversation_id : Text
  pub stream_state : StreamState
  pub boot_loading : Bool
  pub boot_error : Text
  pub event_source : Bool
  pub selected_conversation_id_ref : Text
  pub conversation_details_ref : List (Text × ConversationDetail)

-- The values that the hook starts with
abbrev pub initial : ConsoleState
initial = record {
  verify = none;
  config_payload = none;
  version_payload = none;
  health_payload = none;
  accounts_payload = none;
  conversations = [];
  conversation_details = [];
  selected_conversation_id = [];
  stream_state = disconnected;
  boot_loading = true;
  boot_error = [];
  event_source = false;
  selected_conversation_id_ref = [];
  conversation_details_ref = [];
}

unfoldable pub verified : Option AdminVerifyPayload → Bool
verified none = false
verified (some v) = flag v.authenticated

-- `verify?.authenticated`
unfoldable pub is_authenticated : ConsoleState → Bool
unfolding verified
is_authenticated s = verified s.verify

-- `items[0]?.id || ''`
unfoldable pub first_id : List ConversationSummary → Text
first_id [] = []
first_id (item ∷ items) = item.id

-- The write of both the state and the ref
abbrev pub remember : ConversationDetail → ConsoleState → ConsoleState
remember conversation s =
    let next = insert conversation.id conversation s.conversation_details in
    record s { conversation_details = next; conversation_details_ref = next }

unfoldable pub remember_conversation : Option ConversationDetail → ConsoleState → ConsoleState
remember_conversation none s = s
remember_conversation (some conversation) s =
    if is_present conversation.id then remember conversation s else s

unfoldable pub close_stream : ConsoleState → ConsoleState
close_stream s = record s { event_source = false; stream_state = disconnected }

unfoldable pub ensure_stream : ConsoleState → ConsoleState
unfolding is_authenticated
ensure_stream s =
    if s.event_source || not (is_authenticated s)
    then s
    else record s { event_source = true; stream_state = connecting }

-- `source.onopen` and `source.onerror`
unfoldable pub stream_opened : ConsoleState → ConsoleState
stream_opened s = record s { stream_state = connected }

unfoldable pub stream_failed : ConsoleState → ConsoleState
stream_failed s = record s { stream_state = reconnecting }

-- The effects that mirror the state into the refs
unfoldable pub sync_refs : ConsoleState → ConsoleState
sync_refs s = record s {
  selected_conversation_id_ref = s.selected_conversation_id;
  conversation_details_ref = s.conversation_details;
}

-- The effect that opens the stream for an authenticated operator and closes it for anyone else. The
-- source runs it when `verify?.authenticated` changes, here it runs with all effects.
unfoldable pub follow_authentication : ConsoleState → ConsoleState
unfolding ensure_stream close_stream is_authenticated
follow_authentication s = if is_authenticated s then ensure_stream s else close_stream s

-- The effect that drops a selection which the list no longer has
unfoldable pub repair_selection : ConsoleState → ConsoleState
unfolding first_id
repair_selection s =
    if not (is_present s.selected_conversation_id)
    then s
    else if any (has_id s.selected_conversation_id) s.conversations
    then s
    else record s { selected_conversation_id = first_id s.conversations }

-- The effects, in the order of the hook
unfoldable pub run_effects : ConsoleState → ConsoleState
unfolding sync_refs follow_authentication repair_selection
run_effects s = repair_selection (follow_authentication (sync_refs s))

-- A cached conversation, else the list's summary of it
pub data Selected : Type 0 where
  nothing : Selected
  detailed : ConversationDetail → Selected
  summarised : ConversationSummary → Selected

unfoldable pub from_list : Option ConversationSummary → Selected
from_list none = nothing
from_list (some summary) = summarised summary

unfoldable pub cached_or_listed : Option ConversationDetail → Option ConversationSummary → Selected
unfolding from_list
cached_or_listed none summary = from_list summary
cached_or_listed (some detail) summary = detailed detail

unfoldable pub selected_conversation : ConsoleState → Selected
unfolding cached_or_listed
selected_conversation s =
    if is_present s.selected_conversation_id
    then cached_or_listed (lookup s.selected_conversation_id s.conversation_details)
        (find (has_id s.selected_conversation_id) s.conversations)
    else nothing
