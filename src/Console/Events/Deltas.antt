-- ===== src/Console/Events/Deltas.antt =====
-- Events and the cached transcripts.
use gx_notion2api.Prelude.{
  ℕ, ◌≡◌, refl, true, Option, none, some, List, Text, txt, arith, text_eq, text_eq_iff, lookup,
  lookup-insert, is_present, if◌then◌else◌, option_eq, Option-cases, inl, inr, Bool-cases, ◌&&◌, ap,
  ◌∙◌, false,
}
use gx_notion2api.Types.Conversations.{ConversationDetail}
use gx_notion2api.Console.State.{ConsoleState, remember_conversation}
use gx_notion2api.Console.Events.{
  EventPayload, apply_delta, delta_details, handle_event, handle_delta, handle_lifecycle, is_type,
  is_lifecycle, conversation_id_of,
}
use gx_notion2api.Console.Merging.{upsert_conversation_summary}

abbrev pub apply_to_cached : EventPayload → Option ConversationDetail → Option ConversationDetail
apply_to_cached payload none = none
apply_to_cached payload (some existing) = some (apply_delta payload existing)

lookup-delta_details :
    (payload : EventPayload) (id j : Text) (details : List (Text × ConversationDetail))
    → lookup j (delta_details payload id details)
      ≡ (if text_eq id j then apply_to_cached payload (lookup j details) else lookup j details)
unfolding delta_details
lookup-delta_details payload id j details = elim (Option-cases (lookup id details)) [
  | inl missing ↦ rw missing (ground (arith, missing, text_eq_iff id j))
  | inr (existing, found) ↦ rw found (
      ground
        (arith, found, text_eq_iff id j, lookup-insert id j (apply_delta payload existing) details))
]

-- What is cached under the id `j` once the event's conversation, if it brings one, is remembered
abbrev pub remembered :
    Option ConversationDetail → Text → List (Text × ConversationDetail) → Option ConversationDetail
remembered none j details = lookup j details
remembered (some c) j details =
    if is_present c.id && text_eq c.id j then some c else lookup j details

lookup-remember_conversation :
    (c : Option ConversationDetail) (s : ConsoleState) (j : Text)
    → lookup j (remember_conversation c s).conversation_details
      ≡ remembered c j s.conversation_details
unfolding remember_conversation
lookup-remember_conversation none s j = refl
lookup-remember_conversation (some c) s j = elim (Bool-cases (is_present c.id)) [
  | inl given ↦ rw given (lookup-insert c.id j c s.conversation_details)
  | inr empty ↦ rw empty refl
]

selected-remember_conversation :
    (c : Option ConversationDetail) (s : ConsoleState)
    → (remember_conversation c s).selected_conversation_id ≡ s.selected_conversation_id
unfolding remember_conversation
selected-remember_conversation none s = refl
selected-remember_conversation (some c) s = ground arith

delta_kind :
    (payload : EventPayload)
    → payload.event_type ≡ some (txt "conversation.delta")
    → (is_type payload (txt "conversation.delta") ≡ true) × (is_lifecycle payload ≡ false)
unfolding option_eq text_eq
delta_kind payload kind = rw kind (refl, refl)

delta_handled :
    (payload : EventPayload) (id : Text) (s : ConsoleState)
    → payload.event_type ≡ some (txt "conversation.delta")
    → is_present id ≡ true
    → handle_lifecycle payload id (handle_delta payload id s)
      ≡ record s { conversation_details = delta_details payload id s.conversation_details }
unfolding handle_lifecycle handle_delta
delta_handled payload id s kind given =
    let (is_delta, ends_nothing) = delta_kind payload kind in
    rw (is_delta, ends_nothing, given) refl

-- What a delta event leaves under the id `j`
abbrev pub after_delta :
    EventPayload → Text → Text → List (Text × ConversationDetail) → Option ConversationDetail
after_delta payload id j details =
    if text_eq id j
    then apply_to_cached payload (remembered payload.conversation j details)
    else remembered payload.conversation j details

-- A delta event that names a conversation first caches the conversation that it brings, if any, and
-- then updates the cached transcript that it names, if there is one. Every other cached transcript is
-- as before, and so is the selection.
pub handle_event_delta :
    (get_time : Text → ℕ) (payload : EventPayload) (id : Text) (s : ConsoleState) (j : Text)
    → payload.event_type ≡ some (txt "conversation.delta")
    → payload.conversation_id ≡ some id
    → is_present id ≡ true
    → (lookup j (handle_event get_time payload s).conversation_details
        ≡ after_delta payload id j s.conversation_details)
      × ((handle_event get_time payload s).selected_conversation_id ≡ s.selected_conversation_id)
unfolding handle_event
handle_event_delta get_time payload id s j kind named given =
    let own : conversation_id_of payload ≡ id = unfold conversation_id_of in rw named refl in
    let upserted : ConsoleState = record s {
      conversations = upsert_conversation_summary get_time payload.summary s.conversations;
    } in
    let told : ConsoleState = remember_conversation payload.conversation upserted in
    let e : handle_event get_time payload s ≡ record told {
      conversation_details = delta_details payload id told.conversation_details;
    } =
      ap (λ i. handle_lifecycle payload i (handle_delta payload i told)) own
      ∙ delta_handled payload id told kind given in
    (
      ap (λ t. lookup j t.conversation_details) e
          ∙ lookup-delta_details payload id j told.conversation_details
          ∙ ap (λ o. if text_eq id j then apply_to_cached payload o else o)
              (lookup-remember_conversation payload.conversation upserted j),
      ap (λ t. t.selected_conversation_id) e
          ∙ selected-remember_conversation payload.conversation upserted,
    )
