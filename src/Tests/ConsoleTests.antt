-- ===== src/Tests/ConsoleTests.antt =====
-- The console on two conversations. A date is read as its number of characters.
use mathlib.Core.List.{Perm}
use gx_notion2api.Prelude.{
  ℕ, ◌≡◌, refl, true, false, some, none, List, [], ◌∷◌, txt, Text, length, find, lookup,
  if◌then◌else◌, text_eq, text_ne, keep, or_text, option_eq, any, ◌+◌,
}
use gx_notion2api.Types.Sessions.{AdminVerifyPayload}
use gx_notion2api.Types.Conversations.{
  ConversationSummary, ConversationMessage, ConversationDetail, ConversationsPayload,
}
use gx_notion2api.Console.Merging.{
  has_id, time_of, message_has_id, merge_conversation_summary_state, sort_conversations,
  upsert_conversation_summary, merge_conversation_messages,
}
use gx_notion2api.Console.State.{
  ConsoleState, initial, remember_conversation, run_effects, is_authenticated,
}
use gx_notion2api.Console.State.Effects.{HasValidSelection, run_effects_lem}
use gx_notion2api.Console.Merging.Order.{IsSorted, is_at, sort_conversations_stable}
use gx_notion2api.Console.Merging.Ids.{HasDistinctIds, find-upsert_conversation_summary}
use gx_notion2api.Console.Merging.Messages.{other_messages, merge_conversation_messages_lem}
use gx_notion2api.Console.Events.{
  EventPayload, conversation_delta, parsed, receive_event, handle_event, apply_delta,
}
use gx_notion2api.Console.Events.Deltas.{after_delta, handle_event_delta}
use gx_notion2api.Console.Loading.{receive_conversations, is_locked, fail_refresh, end_refresh}
use gx_notion2api.Console.Invariant.{IsConsistent, here, next, event, list_came, effects}
use gx_notion2api.Console.Invariant.Reached.{console-IsConsistent}
use gx_notion2api.Console.Runs.{Server, ok, failed, refresh_all, refresh_conversations}
use gx_notion2api.Console.Runs.Failing.{error_text, verify_outcome, refresh_all_lem}
use gx_notion2api.Console.Runs.Refreshing.{refresh_conversations-HasValidSelection}
use gx_notion2api.Tests.Samples.{summary_of, message_of}

abbrev older : ConversationSummary
older = summary_of (txt "a") (txt "1")

abbrev newer : ConversationSummary
newer = summary_of (txt "b") (txt "22")

abbrev both : List ConversationSummary
both = older ∷ newer ∷ []

sorted_both : sort_conversations length both ≡ newer ∷ older ∷ []
unfolding sort_conversations time_of or_text
sorted_both = refl

sort_conversations_stable_example :
    IsSorted length (sort_conversations length both)
    × Perm (sort_conversations length both) both
    × ((t : ℕ)
        → keep (is_at length t) (sort_conversations length both) ≡ keep (is_at length t) both)
sort_conversations_stable_example = sort_conversations_stable length both

both_distinct : HasDistinctIds both
unfolding text_eq
both_distinct = ((text_ne (txt "b") (txt "a") refl, tt), (tt, tt))

abbrev renewed : ConversationSummary
renewed = summary_of (txt "a") (txt "333")

find-upsert_conversation_summary_example :
    find (has_id (txt "b")) (upsert_conversation_summary length (some renewed) both) ≡ (
      if text_eq (txt "a") (txt "b")
      then some (merge_conversation_summary_state (find (has_id (txt "a")) both) renewed)
      else find (has_id (txt "b")) both)
find-upsert_conversation_summary_example =
    find-upsert_conversation_summary length renewed both (txt "b") both_distinct refl

abbrev question : ConversationMessage
question = message_of (txt "q") (txt "?")

abbrev answer : ConversationMessage
answer = message_of (txt "r") (txt "!")

abbrev transcript : List ConversationMessage
transcript = question ∷ message_of (txt "r") [] ∷ []

merge_conversation_messages_example :
    merge_conversation_messages transcript (some answer) ≡ question ∷ answer ∷ []
unfolding merge_conversation_messages option_eq text_eq
merge_conversation_messages_example = refl

merge_conversation_messages_lem_example :
    ((j : Text)
      → find (message_has_id j) (merge_conversation_messages transcript (some answer))
        ≡ (if text_eq (txt "r") j then some answer else find (message_has_id j) transcript))
    × (other_messages (txt "r") (merge_conversation_messages transcript (some answer))
        ≡ other_messages (txt "r") transcript)
    × (length (merge_conversation_messages transcript (some answer)) ≡ (
        if any (message_has_id (txt "r")) transcript
        then length transcript
        else length transcript + 1))
    × (merge_conversation_messages
          (merge_conversation_messages transcript (some answer))
          (some answer)
        ≡ merge_conversation_messages transcript (some answer))
merge_conversation_messages_lem_example =
    merge_conversation_messages_lem (txt "r") answer refl transcript refl

abbrev listed : ConsoleState
listed = record initial { conversations = both; selected_conversation_id = txt "gone" }

run_effects_lem_example :
    HasValidSelection (run_effects listed)
    × ((run_effects listed).conversation_details_ref ≡ listed.conversation_details)
    × ((run_effects listed).selected_conversation_id_ref ≡ listed.selected_conversation_id)
    × ((run_effects listed).event_source ≡ is_authenticated listed)
    × ((run_effects listed).conversations ≡ listed.conversations)
    × ((run_effects listed).conversation_details ≡ listed.conversation_details)
    × ((run_effects listed).verify ≡ listed.verify)
run_effects_lem_example = run_effects_lem listed

abbrev detail : ConversationDetail
detail = record { summary = older; messages = some transcript }

abbrev cached : ConsoleState
cached = record listed { conversation_details = (txt "a", detail) ∷ [] }

abbrev delta : EventPayload
delta = record {
  event_type = some (txt "conversation.delta");
  summary = none;
  conversation = none;
  conversation_id = some (txt "a");
  message = some answer;
  sent_at = none;
}

-- The event brings a conversation that is not cached yet, as the server's events do.
abbrev brought : EventPayload
brought = record delta { conversation = some detail }

handle_event_delta_example :
    (lookup (txt "a") (handle_event length brought listed).conversation_details
      ≡ after_delta brought (txt "a") (txt "a") listed.conversation_details)
    × ((handle_event length brought listed).selected_conversation_id
        ≡ listed.selected_conversation_id)
handle_event_delta_example =
    handle_event_delta length brought (txt "a") listed (txt "a") refl refl refl

brought_is_cached :
    lookup (txt "a") (handle_event length brought listed).conversation_details
    ≡ some (apply_delta brought detail)
unfolding remember_conversation text_eq lookup
brought_is_cached = (handle_event_delta length brought (txt "a") listed (txt "a") refl refl refl).0

abbrev list_payload : ConversationsPayload
list_payload = record { items = some both }

abbrev arrived : ConsoleState
arrived =
    receive_event length conversation_delta (parsed delta)
      (run_effects (receive_conversations length list_payload initial))

console-IsConsistent_example : IsConsistent length arrived
console-IsConsistent_example = console-IsConsistent length (
    next (next (next here (list_came list_payload both_distinct)) effects)
      (event conversation_delta (parsed delta)))

abbrev locked : AdminVerifyPayload
locked = record {
  authenticated = some false;
  password_required = some true;
  password_configured = some true;
  admin_enabled = some true;
}

abbrev server : Server
server = record {
  verify = ok locked;
  boot = failed none;
  conversations = ok list_payload;
  conversation = λ id. failed (some (txt "timeout"));
  removed = ok tt;
  accounts = failed none;
  bundle = failed none;
  session = ok tt;
}

refresh_conversations-HasValidSelection_example :
    HasValidSelection (refresh_conversations length server cached).1
refresh_conversations-HasValidSelection_example =
    refresh_conversations-HasValidSelection length server cached list_payload refl

abbrev free : AdminVerifyPayload
free = record locked { authenticated = some true }

-- The session is checked, and then the payloads fail to come.
abbrev offline : Server
offline = record server { verify = ok free; boot = failed (some (txt "offline")) }

refresh_all_lem_example :
    ((refresh_all length offline cached).boot_error
      ≡ error_text (verify_outcome length offline cached.selected_conversation_id_ref (ok free)))
    × ((refresh_all length offline cached).boot_loading ≡ false)
refresh_all_lem_example = refresh_all_lem length offline cached

offline_told : (refresh_all length offline cached).boot_error ≡ txt "offline"
unfolding refresh_all is_locked fail_refresh end_refresh
offline_told = refl
