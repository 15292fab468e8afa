-- ===== src/Console/Runs.antt =====
-- The whole calls of frontend/hooks/use-admin-console.ts against a server's answers, with no other
-- event between two awaits. The answers are arguments: `failed` carries what was thrown.
pub mod Refreshing
pub mod Failing
use gx_notion2api.Prelude.{
  ℕ, Bool, true, false, Option, none, some, List, [], ◌∷◌, Text, is_present, if◌then◌else◌,
}
use gx_notion2api.Types.Sessions.{AdminVerifyPayload}
use gx_notion2api.Types.Accounts.{AccountsPayload}
use gx_notion2api.Types.Conversations.{
  ConversationSummary, ConversationsPayload, ConversationDetailPayload,
}
use gx_notion2api.Console.State.{ConsoleState}
use gx_notion2api.Console.Loading.{
  request_detail, receive_detail, keep_or_first, receive_conversations, begin_refresh, is_locked,
  receive_verify, Boot, receive_boot, receive_accounts, ConfigBundle, receive_config_bundle,
  fail_refresh, end_refresh, forget_conversations,
}

pub data Reply (A : Type 0) : Type 0 where
  ok : A → Reply A
  failed : Option Text → Reply A

-- A call's outcome: it returns, or it throws what it carries.
pub data Outcome : Type 0 where
  returned : Outcome
  threw : Option Text → Outcome

pub record Server : Type 0 where
  pub verify : Reply AdminVerifyPayload
  pub boot : Reply Boot
  pub conversations : Reply ConversationsPayload
  pub conversation : Text → Reply ConversationDetailPayload
  pub removed : Reply Unit
  pub accounts : Reply AccountsPayload
  pub bundle : Reply ConfigBundle
  pub session : Reply Unit

abbrev pub answer_detail : Reply ConversationDetailPayload → ConsoleState → Outcome × ConsoleState
answer_detail (ok payload) s = (returned, receive_detail payload s)
answer_detail (failed e) s = (threw e, s)

unfoldable pub load_conversation_detail :
    Server → Text → Bool → ConsoleState → Outcome × ConsoleState
load_conversation_detail server id force s =
    let (asked, needed) = request_detail id force s in
    if needed then answer_detail (server.conversation id) asked else (returned, asked)

abbrev pub answer_accounts : Reply AccountsPayload → ConsoleState → Outcome × ConsoleState
answer_accounts (ok payload) s = (returned, receive_accounts payload s)
answer_accounts (failed e) s = (threw e, s)

unfoldable pub refresh_accounts : Server → ConsoleState → Outcome × ConsoleState
refresh_accounts server s = answer_accounts server.accounts s

abbrev pub answer_bundle : Reply ConfigBundle → ConsoleState → Outcome × ConsoleState
answer_bundle (ok bundle) s = (returned, receive_config_bundle bundle s)
answer_bundle (failed e) s = (threw e, s)

unfoldable pub refresh_config_bundle : Server → ConsoleState → Outcome × ConsoleState
refresh_config_bundle server s = answer_bundle server.bundle s

module _ (get_time : Text → ℕ) where
  -- The target is chosen by the ref, which an effect sets.
  unfoldable pub refresh_selected : Server → ConsoleState → Outcome × ConsoleState
  unfolding load_conversation_detail
  refresh_selected server s =
      let target = keep_or_first s.selected_conversation_id_ref s.conversations in
      if is_present target then load_conversation_detail server target true s else (returned, s)

  abbrev pub answer_conversations :
      Server → Reply ConversationsPayload → ConsoleState → Outcome × ConsoleState
  answer_conversations server (ok payload) s =
      refresh_selected server (receive_conversations get_time payload s)
  answer_conversations server (failed e) s = (threw e, s)

  unfoldable pub refresh_conversations : Server → ConsoleState → Outcome × ConsoleState
  unfolding refresh_selected
  refresh_conversations server s = answer_conversations server server.conversations s

  abbrev pub answer_boot : Server → Reply Boot → ConsoleState → Outcome × ConsoleState
  answer_boot server (ok boot) s = refresh_conversations server (receive_boot boot s)
  answer_boot server (failed e) s = (threw e, s)

  abbrev pub answer_verify :
      Server → Reply AdminVerifyPayload → ConsoleState → Outcome × ConsoleState
  answer_verify server (ok v) s =
      if is_locked v
      then (returned, receive_verify v s)
      else answer_boot server server.boot (receive_verify v s)
  answer_verify server (failed e) s = (threw e, s)

  -- `catch` and `finally` of `refreshAll`
  abbrev pub settle : Outcome → ConsoleState → ConsoleState
  settle returned s = end_refresh s
  settle (threw e) s = end_refresh (fail_refresh e s)

  unfoldable pub refresh_all : Server → ConsoleState → ConsoleState
  refresh_all server s =
      let (outcome, told) = answer_verify server server.verify (begin_refresh s) in
      settle outcome told

  -- `refreshAll` catches what its calls throw.
  abbrev pub answer_session : Server → Reply Unit → ConsoleState → Outcome × ConsoleState
  answer_session server (ok _) s = (returned, refresh_all server s)
  answer_session server (failed e) s = (threw e, s)

  unfoldable pub login : Server → ConsoleState → Outcome × ConsoleState
  unfolding refresh_all
  login server s = answer_session server server.session s

  unfoldable pub logout : Server → ConsoleState → Outcome × ConsoleState
  unfolding refresh_all
  logout server s = answer_session server server.session s

  abbrev pub answer_removal :
      Server → List Text → Reply Unit → ConsoleState → Outcome × ConsoleState
  answer_removal server ids (ok _) s = refresh_conversations server (forget_conversations ids s)
  answer_removal server ids (failed e) s = (threw e, s)

  -- `deleteConversation(id)` is the case of one id.
  unfoldable pub batch_delete_conversations :
      Server → List Text → ConsoleState → Outcome × ConsoleState
  unfolding refresh_conversations
  batch_delete_conversations server ids s = answer_removal server ids server.removed s
