-- ===== src/Console/Merging/Messages.antt =====
-- Merging one message into a transcript.
use gx_notion2api.Prelude.{
  ◌≡◌, refl, true, not, List, [], ◌∷◌, some, Text, arith, find, keep, text_eq, text_eq_iff,
  option_eq_iff, if◌then◌else◌, is_present, any, length, ◌+◌,
}
use gx_notion2api.Types.Conversations.{ConversationMessage}
use gx_notion2api.Console.Merging.{
  message_has_id, put_message, merge_with_id, merge_conversation_messages,
}

-- The messages with another id, in their order
abbrev pub other_messages : Text → List ConversationMessage → List ConversationMessage
other_messages id messages = keep (λ m. not (message_has_id id m)) messages

module _ (id : Text) (message : ConversationMessage) (same : message.id ≡ some id) where
  find-put_message :
      (j : Text) (messages : List ConversationMessage)
      → find (message_has_id j) (put_message id message messages)
        ≡ (if text_eq id j then some message else find (message_has_id j) messages)
  unfolding put_message find
  find-put_message j [] = ground (arith, same, option_eq_iff message.id (some j), text_eq_iff id j)
  find-put_message j (m ∷ ms) = ground (
    arith,
    same,
    find-put_message j ms,
    option_eq_iff m.id (some id),
    option_eq_iff m.id (some j),
    option_eq_iff message.id (some j),
    text_eq_iff id j,
  )

  others-put_message :
      (messages : List ConversationMessage)
      → other_messages id (put_message id message messages) ≡ other_messages id messages
  unfolding put_message keep
  others-put_message [] = ground (arith, same, option_eq_iff message.id (some id))
  others-put_message (m ∷ ms) = ground (
    arith,
    same,
    others-put_message ms,
    option_eq_iff m.id (some id),
    option_eq_iff message.id (some id),
  )

  length-put_message :
      (messages : List ConversationMessage)
      → length (put_message id message messages)
        ≡ (if any (message_has_id id) messages then length messages else length messages + 1)
  unfolding put_message any
  length-put_message [] = refl
  length-put_message (m ∷ ms) = ground (arith, length-put_message ms)

  put_message_idem :
      (messages : List ConversationMessage)
      → put_message id message (put_message id message messages) ≡ put_message id message messages
  unfolding put_message
  put_message_idem [] = ground (arith, same, option_eq_iff message.id (some id))
  put_message_idem (m ∷ ms) = ground (
    arith,
    same,
    put_message_idem ms,
    option_eq_iff m.id (some id),
    option_eq_iff message.id (some id),
  )

  merge-put_message :
      (messages : List ConversationMessage)
      → is_present id ≡ true
      → merge_conversation_messages messages (some message) ≡ put_message id message messages
  unfolding merge_conversation_messages
  merge-put_message messages given = rw (same, merge_with_id) (rw given)

  -- A message with an id replaces the first message with that id or is added at the end: a lookup of
  -- the id finds it, a lookup of another id and the other messages in their order are as before, the
  -- transcript grows by one exactly when the id was not there, and a second delivery changes nothing.
  pub merge_conversation_messages_lem :
      (messages : List ConversationMessage)
      → is_present id ≡ true
      → ((j : Text)
          → find (message_has_id j) (merge_conversation_messages messages (some message))
            ≡ (if text_eq id j then some message else find (message_has_id j) messages))
        × (other_messages id (merge_conversation_messages messages (some message))
            ≡ other_messages id messages)
        × (length (merge_conversation_messages messages (some message))
            ≡ (if any (message_has_id id) messages then length messages else length messages + 1))
        × (merge_conversation_messages
              (merge_conversation_messages messages (some message))
              (some message)
            ≡ merge_conversation_messages messages (some message))
  merge_conversation_messages_lem messages given = (
    λ j. rw (merge-put_message messages given) (find-put_message j messages),
    rw (merge-put_message messages given) (others-put_message messages),
    rw (merge-put_message messages given) (length-put_message messages),
    rw (merge-put_message messages given) (
        rw (merge-put_message (put_message id message messages) given) (put_message_idem messages)),
  )
