-- ===== src/Console/Invariant.antt =====
-- What every history of the console keeps: events, answers and effects in any order.
pub mod Reached
use gx_notion2api.Prelude.{
  ℕ, ◌≡◌, refl, sym, ap, ◌∙◌, txt, ◌&&◌, Bool, true, false, Option, none, some, List, [], ◌∷◌, Text,
  arith, All, insert, remove, lookup, text_eq, text_eq_iff, is_present, Bool-cases, Option-cases,
  inl, inr, if◌then◌else◌,
}
use gx_notion2api.Types.Sessions.{AdminVerifyPayload}
use gx_notion2api.Types.Accounts.{AccountsPayload}
use gx_notion2api.Types.Conversations.{
  ConversationSummary, ConversationDetail, ConversationsPayload, ConversationDetailPayload,
}
use gx_notion2api.Console.Merging.{upsert_conversation_summary}
use gx_notion2api.Console.Merging.Order.{IsSorted, sort_conversations-IsSorted}
use gx_notion2api.Console.Merging.Ids.{
  HasDistinctIds, sort_conversations-HasDistinctIds, upsert_conversation_summary-HasDistinctIds,
  upsert_conversation_summary-IsSorted,
}
use gx_notion2api.Console.State.{
  ConsoleState, initial, remember_conversation, close_stream, stream_opened, stream_failed,
  run_effects, remember,
}
use gx_notion2api.Console.Events.{
  EventPayload, EventName, EventData, receive_event, handle_event, handle_delta, handle_lifecycle,
  delta_details, put_delta, apply_delta, missing, unparsable, parsed, admin_ready,
  conversation_id_of, conversation_created, conversation_updated, conversation_delta,
  conversation_completed, conversation_failed, is_type, is_lifecycle,
}
use gx_notion2api.Console.Loading.{
  request_detail, receive_detail, receive_conversations, items_of, begin_refresh, receive_verify,
  Boot, receive_boot, receive_accounts, ConfigBundle, receive_config_bundle, fail_refresh,
  end_refresh, forget_details, forget_conversations, is_locked,
}

-- Each transcript is cached under its own id.
abbrev pub IsKeyed : List (Text × ConversationDetail) → Type 0
IsKeyed details = All (λ entry. entry.1.id ≡ entry.0) details

module _ (get_time : Text → ℕ) where
  -- The list shows each conversation once, newest first, and each cached transcript is its own.
  pub record IsConsistent (s : ConsoleState) : Type 0 where
    pub distinct : HasDistinctIds s.conversations
    pub sorted : IsSorted get_time s.conversations
    pub keyed : IsKeyed s.conversation_details
    pub keyed_ref : IsKeyed s.conversation_details_ref

  -- One step of the console. The server lists each conversation once.
  pub data Step (s : ConsoleState) : ConsoleState → Type 0 where
    event :
        (name : EventName) (content : EventData) → Step s (receive_event get_time name content s)
    opened : Step s (stream_opened s)
    interrupted : Step s (stream_failed s)
    closed : Step s (close_stream s)
    effects : Step s (run_effects s)
    detail_asked : (id : Text) (force : Bool) → Step s (request_detail id force s).0
    detail_came : (payload : ConversationDetailPayload) → Step s (receive_detail payload s)
    list_came :
        (payload : ConversationsPayload)
        → HasDistinctIds (items_of payload)
        → Step s (receive_conversations get_time payload s)
    refresh_began : Step s (begin_refresh s)
    verify_came : (v : AdminVerifyPayload) → Step s (receive_verify v s)
    boot_came : (boot : Boot) → Step s (receive_boot boot s)
    accounts_came : (payload : AccountsPayload) → Step s (receive_accounts payload s)
    bundle_came : (bundle : ConfigBundle) → Step s (receive_config_bundle bundle s)
    refresh_failed : (e : Option Text) → Step s (fail_refresh e s)
    refresh_ended : Step s (end_refresh s)
    deleted : (ids : List Text) → Step s (forget_conversations ids s)

  pub data Reach (s : ConsoleState) : ConsoleState → Type 0 where
    here : Reach s s
    next : {t u : ConsoleState} → Reach s t → Step t u → Reach s u

insert-IsKeyed :
    (id : Text) (d : ConversationDetail) (details : List (Text × ConversationDetail))
    → d.id ≡ id
    → IsKeyed details
    → IsKeyed (insert id d details)
unfolding insert
insert-IsKeyed id d [] e h = (e, tt)
insert-IsKeyed id d ((j, w) ∷ details) e (p, h) = elim (Bool-cases (text_eq j id)) [
  | inl same ↦ rw same (e ∙ sym ((text_eq_iff j id).0 same), h)
  | inr other ↦ rw other (p, insert-IsKeyed id d details e h)
]

remove-IsKeyed :
    (id : Text) (details : List (Text × ConversationDetail))
    → IsKeyed details
    → IsKeyed (remove id details)
unfolding remove
remove-IsKeyed id [] h = tt
remove-IsKeyed id ((j, w) ∷ details) (p, h) = elim (Bool-cases (text_eq j id)) [
  | inl same ↦ rw same (remove-IsKeyed id details h)
  | inr other ↦ rw other (p, remove-IsKeyed id details h)
]

forget_details-IsKeyed :
    (ids : List Text) (details : List (Text × ConversationDetail))
    → IsKeyed details
    → IsKeyed (forget_details ids details)
unfolding forget_details
forget_details-IsKeyed [] details h = h
forget_details-IsKeyed (id ∷ ids) details h =
    forget_details-IsKeyed ids (remove id details) (remove-IsKeyed id details h)

lookup-IsKeyed :
    (id : Text) (details : List (Text × ConversationDetail)) (d : ConversationDetail)
    → IsKeyed details
    → lookup id details ≡ some d
    → d.id ≡ id
unfolding lookup
lookup-IsKeyed id [] d h e = absurd (none_some e)
  where
    none_some : ◌≡◌ {A = Option ConversationDetail} none (some d) → ⊥
    none_some q = cc
lookup-IsKeyed id ((j, w) ∷ details) d (p, h) e = elim (Bool-cases (text_eq j id)) [
  | inl same ↦ ground (arith, p, (text_eq_iff j id).0 same, e, same)
  | inr other ↦ lookup-IsKeyed id details d h (rw other at e)
]

delta_details-IsKeyed :
    (payload : EventPayload) (id : Text) (details : List (Text × ConversationDetail))
    → IsKeyed details
    → IsKeyed (delta_details payload id details)
unfolding delta_details apply_delta
delta_details-IsKeyed payload id details h = elim (Option-cases (lookup id details)) [
  | inl gone ↦ rw gone h
  | inr (existing, found) ↦
      rw found (insert-IsKeyed id _ details (lookup-IsKeyed id details existing h found) h)
]

module _ (get_time : Text → ℕ) where
  remember_conversation-IsConsistent :
      (c : Option ConversationDetail) (s : ConsoleState)
      → IsConsistent get_time s
      → IsConsistent get_time (remember_conversation c s)
  unfolding remember_conversation
  remember_conversation-IsConsistent none s h = h
  remember_conversation-IsConsistent (some c) s h = elim (Bool-cases (is_present c.id)) [
    | inl given ↦ rw given (record {
      distinct = h.distinct;
      sorted = h.sorted;
      keyed = insert-IsKeyed c.id c s.conversation_details refl h.keyed;
      keyed_ref = insert-IsKeyed c.id c s.conversation_details refl h.keyed;
    })
    | inr empty ↦ rw empty h
  ]

  handle_delta-IsConsistent :
      (payload : EventPayload) (id : Text) (s : ConsoleState)
      → IsConsistent get_time s
      → IsConsistent get_time (handle_delta payload id s)
  unfolding handle_delta
  handle_delta-IsConsistent payload id s h =
      elim (Bool-cases (is_type payload (txt "conversation.delta") && is_present id)) [
        | inl yes_delta ↦ rw yes_delta (record {
          distinct = h.distinct;
          sorted = h.sorted;
          keyed = delta_details-IsKeyed payload id s.conversation_details h.keyed;
          keyed_ref = h.keyed_ref;
        })
        | inr other ↦ rw other h
      ]

  handle_lifecycle-IsConsistent :
      (payload : EventPayload) (id : Text) (s : ConsoleState)
      → IsConsistent get_time s
      → IsConsistent get_time (handle_lifecycle payload id s)
  unfolding handle_lifecycle
  handle_lifecycle-IsConsistent payload id s h =
      elim (Bool-cases (is_lifecycle payload && is_present id)) [
        | inl e ↦ rw e (record {
          distinct = h.distinct;
          sorted = h.sorted;
          keyed = h.keyed;
          keyed_ref = h.keyed_ref;
        })
        | inr e ↦ rw e h
      ]

  upserted-IsConsistent :
      (summary : Option ConversationSummary) (s : ConsoleState)
      → IsConsistent get_time s
      → IsConsistent get_time (record s {
        conversations = upsert_conversation_summary get_time summary s.conversations;
      })
  upserted-IsConsistent summary s h = record {
    distinct =
        upsert_conversation_summary-HasDistinctIds get_time summary s.conversations h.distinct;
    sorted = upsert_conversation_summary-IsSorted get_time summary s.conversations h.sorted;
    keyed = h.keyed;
    keyed_ref = h.keyed_ref;
  }

  handle_event-IsConsistent :
      (payload : EventPayload) (s : ConsoleState)
      → IsConsistent get_time s
      → IsConsistent get_time (handle_event get_time payload s)
  handle_event-IsConsistent payload s h =
      unfold handle_event in
      handle_lifecycle-IsConsistent payload _ _ (
        handle_delta-IsConsistent payload _ _ (
          remember_conversation-IsConsistent payload.conversation _
            (upserted-IsConsistent payload.summary s h)))

  receive_event-IsConsistent :
      (name : EventName) (content : EventData) (s : ConsoleState)
      → IsConsistent get_time s
      → IsConsistent get_time (receive_event get_time name content s)
  unfolding receive_event
  receive_event-IsConsistent name missing s h = h
  receive_event-IsConsistent name unparsable s h = h
  receive_event-IsConsistent admin_ready (parsed payload) s h = record {
    distinct = h.distinct;
    sorted = h.sorted;
    keyed = h.keyed;
    keyed_ref = h.keyed_ref;
  }
  receive_event-IsConsistent _ (parsed payload) s h = handle_event-IsConsistent payload s h
