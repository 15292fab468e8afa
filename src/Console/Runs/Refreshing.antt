-- ===== src/Console/Runs/Refreshing.antt =====
-- Refreshing the list, and forgetting deleted conversations.
use gx_notion2api.Prelude.{
  ℕ, ◌≡◌, refl, ◌&&◌, true, none, List, [], ◌∷◌, Text, arith, any, is_present, contains, lookup,
  lookup-remove, remove, if◌then◌else◌, Bool-cases, inl, inr, ◌⊎◌,
}
use gx_notion2api.Types.Conversations.{
  ConversationSummary, ConversationDetail, ConversationsPayload, ConversationDetailPayload,
}
use gx_notion2api.Console.Merging.{has_id}
use gx_notion2api.Console.State.{ConsoleState, remember_conversation}
use gx_notion2api.Console.State.Effects.{HasValidSelection, first_id_valid}
use gx_notion2api.Console.Loading.{
  request_detail, receive_detail, keep_or_first, receive_conversations, forget_details,
}
use gx_notion2api.Console.Runs.{
  Reply, ok, failed, Server, answer_detail, load_conversation_detail, refresh_selected,
  refresh_conversations,
}

-- The cache without the deleted ids: they are gone, and every other entry is as before.
pub lookup-forget_details :
    (j : Text) (ids : List Text) (details : List (Text × ConversationDetail))
    → lookup j (forget_details ids details) ≡ (if contains j ids then none else lookup j details)
unfolding forget_details contains
lookup-forget_details j [] details = refl
lookup-forget_details j (id ∷ ids) details =
    ground (arith, lookup-forget_details j ids (remove id details), lookup-remove id j details)

keep_or_first_valid :
    (id : Text) (items : List ConversationSummary)
    → (keep_or_first id items ≡ []) ⊎ (any (has_id (keep_or_first id items)) items ≡ true)
unfolding keep_or_first
keep_or_first_valid id items = elim (Bool-cases (is_present id && any (has_id id) items)) [
  | inl kept ↦ rw kept (inr (ground arith))
  | inr other ↦ rw other (first_id_valid items)
]

-- Remembering a transcript leaves the list and the selection alone.
answered :
    (reply : Reply ConversationDetailPayload) (s : ConsoleState)
    → ((answer_detail reply s).1.conversations ≡ s.conversations)
      × ((answer_detail reply s).1.selected_conversation_id ≡ s.selected_conversation_id)
unfolding receive_detail remember_conversation
answered (failed e) s = (refl, refl)
answered (ok payload) s = elim (Bool-cases (is_present payload.item.id)) [
  | inl given ↦ rw given (refl, refl)
  | inr empty ↦ rw empty (refl, refl)
]

loaded :
    (server : Server) (id : Text) (s : ConsoleState)
    → is_present id ≡ true
    → ((load_conversation_detail server id true s).1.conversations ≡ s.conversations)
      × ((load_conversation_detail server id true s).1.selected_conversation_id ≡ id)
unfolding load_conversation_detail request_detail
loaded server id s given = rw given (answered (server.conversation id) _)

module _ (get_time : Text → ℕ) where
  refresh_selected_valid :
      (server : Server) (s : ConsoleState)
      → HasValidSelection s
      → HasValidSelection (refresh_selected get_time server s).1
  unfolding refresh_selected
  refresh_selected_valid server s h =
      let target : Text = keep_or_first s.selected_conversation_id_ref s.conversations in
      elim (Bool-cases (is_present target)) [
        | inl given ↦
            let (listed, selected) = loaded server target s given in
            rw given (rw (listed, selected) (keep_or_first_valid _ s.conversations))
        | inr empty ↦ rw empty h
      ]

  -- Once the server has sent the list, a refresh leaves a selection that is empty or in that list,
  -- also where the transcript that it then asks for fails to come.
  pub refresh_conversations-HasValidSelection :
      (server : Server) (s : ConsoleState) (payload : ConversationsPayload)
      → server.conversations ≡ ok payload
      → HasValidSelection (refresh_conversations get_time server s).1
  unfolding refresh_conversations receive_conversations
  refresh_conversations-HasValidSelection server s payload sent = rw sent (
      refresh_selected_valid server (receive_conversations get_time payload s)
        (keep_or_first_valid s.selected_conversation_id _))
