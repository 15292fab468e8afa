-- ===== src/Console/Runs/Failing.antt =====
-- How `refreshAll` of frontend/hooks/use-admin-console.ts ends, on every path.
use gx_notion2api.Prelude.{
  ℕ, ◌≡◌, refl, ap, ◌∙◌, true, false, none, some, [], Text, txt, arith, is_present, if◌then◌else◌,
  Bool-cases, inl, inr,
}
use gx_notion2api.Types.Sessions.{AdminVerifyPayload}
use gx_notion2api.Types.Conversations.{ConversationsPayload, ConversationDetailPayload}
use gx_notion2api.Console.Merging.{sort_conversations}
use gx_notion2api.Console.State.{ConsoleState, close_stream, remember_conversation}
use gx_notion2api.Console.Loading.{
  request_detail, receive_detail, keep_or_first, items_of, begin_refresh, is_locked, receive_verify,
  receive_conversations, clear_console, Boot, receive_boot, fail_refresh, end_refresh,
}
use gx_notion2api.Console.Runs.{
  Reply, ok, failed, Outcome, returned, threw, Server, answer_detail, load_conversation_detail,
  refresh_selected, answer_conversations, refresh_conversations, answer_boot, answer_verify, settle,
  refresh_all,
}

abbrev pub outcome_of : Reply ConversationDetailPayload → Outcome
outcome_of (ok _) = returned
outcome_of (failed e) = threw e

-- What the text of the error is, if anything was thrown
abbrev pub error_text : Outcome → Text
error_text returned = []
error_text (threw none) = txt "加载控制台失败"
error_text (threw (some message)) = message

module _ (get_time : Text → ℕ) (server : Server) where
  -- The transcript asked for is the selected one, if it is listed, and else the newest.
  abbrev pub list_outcome : Text → Reply ConversationsPayload → Outcome
  list_outcome selected (failed e) = threw e
  list_outcome selected (ok payload) =
      let target = keep_or_first selected (sort_conversations get_time (items_of payload)) in
      if is_present target then outcome_of (server.conversation target) else returned

  abbrev pub boot_outcome : Text → Reply Boot → Outcome
  boot_outcome selected (failed e) = threw e
  boot_outcome selected (ok _) = list_outcome selected server.conversations

  -- What the first call that fails throws, if one does
  abbrev pub verify_outcome : Text → Reply AdminVerifyPayload → Outcome
  verify_outcome selected (failed e) = threw e
  verify_outcome selected (ok v) =
      if is_locked v then returned else boot_outcome selected server.boot

  -- A run that ends as given and leaves the error alone
  abbrev Ends : Outcome → ConsoleState → Outcome × ConsoleState → Type 0
  Ends outcome s (ended, t) = (ended ≡ outcome) × (t.boot_error ≡ s.boot_error)

  detail-Ends :
      (reply : Reply ConversationDetailPayload) (s : ConsoleState)
      → Ends (outcome_of reply) s (answer_detail reply s)
  unfolding receive_detail remember_conversation
  detail-Ends (failed e) s = (refl, refl)
  detail-Ends (ok payload) s = (refl, ground arith)

  load-Ends :
      (id : Text) (s : ConsoleState)
      → is_present id ≡ true
      → Ends (outcome_of (server.conversation id)) s (load_conversation_detail server id true s)
  unfolding load_conversation_detail request_detail
  load-Ends id s given = rw given (detail-Ends (server.conversation id) _)

  selected-Ends :
      (payload : ConversationsPayload) (s : ConsoleState)
      → Ends
          (list_outcome s.selected_conversation_id_ref (ok payload))
          s
          (refresh_selected get_time server (receive_conversations get_time payload s))
  unfolding refresh_selected receive_conversations
  selected-Ends payload s =
      let target : Text =
        keep_or_first s.selected_conversation_id_ref
          (sort_conversations get_time (items_of payload)) in
      elim (Bool-cases (is_present target)) [
        | inl given ↦ rw given (load-Ends target _ given)
        | inr empty ↦ rw empty (refl, refl)
      ]

  list-Ends :
      (reply : Reply ConversationsPayload) (s : ConsoleState)
      → Ends
          (list_outcome s.selected_conversation_id_ref reply)
          s
          (answer_conversations get_time server reply s)
  list-Ends (failed e) s = (refl, refl)
  list-Ends (ok payload) s = selected-Ends payload s

  boot-Ends :
      (reply : Reply Boot) (s : ConsoleState)
      → Ends
          (boot_outcome s.selected_conversation_id_ref reply)
          s
          (answer_boot get_time server reply s)
  unfolding refresh_conversations receive_boot
  boot-Ends (failed e) s = (refl, refl)
  boot-Ends (ok boot) s = list-Ends server.conversations (receive_boot boot s)

  verify-Ends :
      (reply : Reply AdminVerifyPayload) (s : ConsoleState)
      → Ends
          (verify_outcome s.selected_conversation_id_ref reply)
          s
          (answer_verify get_time server reply s)
  unfolding receive_verify clear_console close_stream
  verify-Ends (failed e) s = (refl, refl)
  verify-Ends (ok v) s = elim (Bool-cases (is_locked v)) [
    | inl locked ↦ rw locked (refl, refl)
    | inr free ↦ rw free (boot-Ends server.boot (record s { verify = some v }))
  ]

  settled :
      (outcome : Outcome) (s : ConsoleState) (run : Outcome × ConsoleState)
      → s.boot_error ≡ []
      → Ends outcome s run
      → ((settle get_time run.0 run.1).boot_error ≡ error_text outcome)
        × ((settle get_time run.0 run.1).boot_loading ≡ false)
  unfolding fail_refresh end_refresh
  settled outcome s (returned, t) clear (own, kept) = (kept ∙ clear ∙ ap error_text own, refl)
  settled outcome s (threw none, t) clear (own, kept) = (ap error_text own, refl)
  settled outcome s (threw (some message), t) clear (own, kept) = (ap error_text own, refl)

  -- A refresh always ends its loading, and its error is what the first call that fails throws: the
  -- check of the session, then, unless the console is locked, the four payloads, the list, and the
  -- transcript of the selected conversation, or of the newest where that one is not listed. The error
  -- is empty where none of them fails, also if an earlier refresh left one.
  pub refresh_all_lem :
      (s : ConsoleState)
      → ((refresh_all get_time server s).boot_error
          ≡ error_text (verify_outcome s.selected_conversation_id_ref server.verify))
        × ((refresh_all get_time server s).boot_loading ≡ false)
  unfolding refresh_all begin_refresh
  refresh_all_lem s =
      settled (verify_outcome s.selected_conversation_id_ref server.verify) (begin_refresh s)
        (answer_verify get_time server server.verify (begin_refresh s)) refl
        (verify-Ends server.verify (begin_refresh s))
