-- ===== src/Console/Loading.antt =====
-- What the console does with the server's answers, of frontend/hooks/use-admin-console.ts. A call
-- that awaits is split where it awaits; the whole calls are in Runs.antt.
use gx_notion2api.Prelude.{
  ℕ, Bool, true, false, not, ◌&&◌, ◌||◌, Option, none, some, List, [], ◌∷◌, Text, txt, is_present,
  flag, if◌then◌else◌, any, lookup, remove,
}
use gx_notion2api.Types.Sessions.{AdminVerifyPayload, HealthPayload}
use gx_notion2api.Types.Config.{AdminConfigPayload, VersionPayload}
use gx_notion2api.Types.Accounts.{AccountsPayload}
use gx_notion2api.Types.Conversations.{
  ConversationSummary, ConversationDetail, ConversationsPayload, ConversationDetailPayload,
}
use gx_notion2api.Console.Merging.{has_id, sort_conversations}
use gx_notion2api.Console.State.{ConsoleState, remember_conversation, close_stream, first_id}

-- Does the cache of details have the conversation?
abbrev pub is_cached : Option ConversationDetail → Bool
is_cached none = false
is_cached (some detail) = true

-- `loadConversationDetail` up to its await: the state, and whether the server is asked
unfoldable pub request_detail : Text → Bool → ConsoleState → ConsoleState × Bool
request_detail id force s =
    if not (is_present id) then (record s { selected_conversation_id = [] }, false) else (
      record s { selected_conversation_id = id },
      force || not (is_cached (lookup id s.conversation_details_ref)),
    )

-- `loadConversationDetail` after its await
unfoldable pub receive_detail : ConversationDetailPayload → ConsoleState → ConsoleState
receive_detail payload s = remember_conversation (some payload.item) s

-- `id && items.some((item) => item.id === id) ? id : items[0]?.id || ''`
unfoldable pub keep_or_first : Text → List ConversationSummary → Text
unfolding first_id
keep_or_first id items = if is_present id && any (has_id id) items then id else first_id items

abbrev pub items_of : ConversationsPayload → List ConversationSummary
items_of payload = elim payload.items [ none ↦ [] | some items ↦ items ]

-- `loadConversations` after its await
unfoldable pub receive_conversations :
    (Text → ℕ) → ConversationsPayload → ConsoleState → ConsoleState
unfolding keep_or_first
receive_conversations get_time payload s =
    let items = sort_conversations get_time (items_of payload) in
    record s {
      conversations = items;
      selected_conversation_id = keep_or_first s.selected_conversation_id items;
    }

-- `refreshAll`, from its start to its last `finally`
unfoldable pub begin_refresh : ConsoleState → ConsoleState
begin_refresh s = record s { boot_loading = true; boot_error = [] }

-- `!password_configured || (!authenticated && password_required)`
unfoldable pub is_locked : AdminVerifyPayload → Bool
is_locked v =
    not (flag v.password_configured) || (not (flag v.authenticated) && flag v.password_required)

unfoldable pub clear_console : ConsoleState → ConsoleState
clear_console s = record (close_stream s) {
  config_payload = none;
  version_payload = none;
  health_payload = none;
  accounts_payload = none;
  conversations = [];
  conversation_details = [];
  selected_conversation_id = [];
}

unfoldable pub receive_verify : AdminVerifyPayload → ConsoleState → ConsoleState
unfolding is_locked clear_console
receive_verify v s =
    let told = record s { verify = some v } in if is_locked v then clear_console told else told

-- The four answers of `Promise.all`
pub record Boot : Type 0 where
  pub config : AdminConfigPayload
  pub version : VersionPayload
  pub health : HealthPayload
  pub accounts : AccountsPayload

unfoldable pub receive_boot : Boot → ConsoleState → ConsoleState
receive_boot boot s = record s {
  config_payload = some boot.config;
  version_payload = some boot.version;
  health_payload = some boot.health;
  accounts_payload = some boot.accounts;
}

-- `refreshAccounts` after its await
unfoldable pub receive_accounts : AccountsPayload → ConsoleState → ConsoleState
receive_accounts payload s = record s { accounts_payload = some payload }

-- The three answers of the `Promise.all` in `refreshConfigBundle`
pub record ConfigBundle : Type 0 where
  pub config : AdminConfigPayload
  pub version : VersionPayload
  pub health : HealthPayload

-- `refreshConfigBundle` after its await
unfoldable pub receive_config_bundle : ConfigBundle → ConsoleState → ConsoleState
receive_config_bundle bundle s = record s {
  config_payload = some bundle.config;
  version_payload = some bundle.version;
  health_payload = some bundle.health;
}

-- What was thrown: the message of an `Error`, or `none` for another value
unfoldable pub fail_refresh : Option Text → ConsoleState → ConsoleState
fail_refresh none s = record s { boot_error = txt "加载控制台失败" }
fail_refresh (some message) s = record s { boot_error = message }

unfoldable pub end_refresh : ConsoleState → ConsoleState
end_refresh s = record s { boot_loading = false }

-- The cache update of `deleteConversation` and of `batchDeleteConversations`
unfoldable pub forget_details :
    List Text → List (Text × ConversationDetail) → List (Text × ConversationDetail)
forget_details [] details = details
forget_details (id ∷ ids) details = forget_details ids (remove id details)

unfoldable pub forget_conversations : List Text → ConsoleState → ConsoleState
forget_conversations ids s = record s {
  conversation_details = forget_details ids s.conversation_details;
}
