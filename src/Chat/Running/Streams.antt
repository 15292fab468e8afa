-- ===== src/Chat/Running/Streams.antt =====
-- What a stream and a reload after a failure do to the transcript.
use gx_notion2api.Prelude.{
  append_assoc, append-nil, ap, ℕ, suc, ◌≡◌, refl, sym, ◌∙◌, Bool, true, false, none, Option, some,
  List, [], ◌∷◌, ◌++◌, Text, All, arith, inl, inr, ◌⊎◌, Bool-cases, length, length-append,
  option_eq, option_eq_iff, or_text, text_eq, text_eq_iff, text_eq_refl, All-append, ◌<◌, txt,
  if◌then◌else◌,
}
use gx_notion2api.Types.Conversations.{ConversationMessage}
use gx_notion2api.Chat.State.{ChatState}
use gx_notion2api.Chat.Running.{
  Run, delta_came, update_message, with_delta, shown_turn, user_message, empty_answer, content_of,
  reconcile, shows_more, partial_answer,
}

-- The callback on each delta of a stream, in order
unfoldable pub stream : Run → List Text → ChatState → ChatState
stream run [] s = s
stream run (delta ∷ deltas) s = stream run deltas (delta_came run delta s)

abbrev pub joined : List Text → Text
joined [] = []
joined (delta ∷ deltas) = delta ++ joined deltas

abbrev pub is_named : Text → ConversationMessage → Bool
is_named id message = option_eq message.id (some id)

-- No message of the list has the id.
abbrev pub IsFree : Text → List ConversationMessage → Type 0
IsFree id messages = All (λ m. is_named id m ≡ false) messages

-- An update reaches the message past those of other ids.
update_message_past :
    (id : Text) (f : ConversationMessage → ConversationMessage) (ms rest : List ConversationMessage)
    → IsFree id ms
    → update_message id f (ms ++ rest) ≡ ms ++ update_message id f rest
unfolding update_message
update_message_past id f [] rest h = refl
update_message_past id f (m ∷ ms) rest (other, h) =
    rw (other, update_message_past id f ms rest h) refl

longer_is_other : (id : Text) (n : ℕ) (t : Text) → length t ≡ suc n → text_eq (t ++ id) id ≡ false
longer_is_other id n t long = elim (Bool-cases (text_eq (t ++ id) id)) [
  | inl same ↦ absurd (
      let e = ap length ((text_eq_iff (t ++ id) id).0 same) in
      omega (arith, e, length-append t id, long))
  | inr other ↦ other
]

-- The answer with what has come so far
abbrev pub answer_with : Run → Text → ConversationMessage
answer_with run text = record (empty_answer run) { content = some text }

delta_lem :
    (run : Run) (delta : Text) (s : ChatState)
    → s.mounted ≡ true
    → ((delta_came run delta s).mounted ≡ true)
      × ((delta_came run delta s).messages
          ≡ update_message run.answer_id (with_delta delta) s.messages)
unfolding delta_came
delta_lem run delta s there = (ground arith, ground arith)

or_text_nil : (t : Text) → or_text (some t) [] ≡ t
unfolding or_text
or_text_nil [] = refl
or_text_nil (c ∷ t) = refl

update_message_answer :
    (run : Run) (delta text : Text)
    → update_message run.answer_id (with_delta delta) (answer_with run text ∷ [])
      ≡ answer_with run (text ++ delta) ∷ []
unfolding update_message option_eq
update_message_answer run delta text = rw (text_eq_refl run.answer_id, or_text_nil text) refl

stream_from :
    (run : Run) (deltas : List Text) (s : ChatState) (ms : List ConversationMessage) (text : Text)
    → s.mounted ≡ true
    → IsFree run.answer_id ms
    → s.messages ≡ ms ++ answer_with run text ∷ []
    → (stream run deltas s).messages ≡ ms ++ answer_with run (text ++ joined deltas) ∷ []
unfolding stream
stream_from run [] s ms text there free e =
    e ∙ ap (λ t. ms ++ answer_with run t ∷ []) (sym (append-nil text))
stream_from run (delta ∷ deltas) s ms text there free e =
    let (still, wrote) = delta_lem run delta s there in
    let came : (delta_came run delta s).messages ≡ ms ++ answer_with run (text ++ delta) ∷ [] =
      wrote
      ∙ ap (update_message run.answer_id (with_delta delta)) e
      ∙ update_message_past run.answer_id (with_delta delta) ms _ free
      ∙ ap (λ rest. ms ++ rest) (update_message_answer run delta text) in
    stream_from run deltas (delta_came run delta s) ms (text ++ delta) still free came
    ∙ ap (λ t. ms ++ answer_with run t ∷ []) (append_assoc text delta (joined deltas))

-- The id of the operator's message is longer than that of the answer.
user_message_lem : (run : Run) → is_named run.answer_id (user_message run) ≡ false
unfolding option_eq
user_message_lem run = longer_is_other run.answer_id 4 (txt "user_") refl

append_two :
    (ms : List ConversationMessage) (m n : ConversationMessage)
    → (ms ++ m ∷ []) ++ n ∷ [] ≡ ms ++ m ∷ n ∷ []
append_two [] m n = refl
append_two (k ∷ ms) m n = ap (λ r. k ∷ r) (append_two ms m n)

-- On a mounted page whose messages all have other ids than the answer, a turn and the deltas of its
-- stream leave the earlier messages as they were, followed by the operator's message and by the
-- answer, which holds all deltas in order.
pub stream-shown_turn :
    (run : Run) (deltas : List Text) (s : ChatState)
    → s.mounted ≡ true
    → IsFree run.answer_id s.messages
    → (stream run deltas (shown_turn run s)).messages
      ≡ s.messages ++ user_message run ∷ answer_with run (joined deltas) ∷ []
stream-shown_turn run deltas s there free =
    stream_from run deltas (shown_turn run s) (s.messages ++ user_message run ∷ []) [] there
      (All-append (λ m. is_named run.answer_id m ≡ false) s.messages (user_message run ∷ []) free
        (user_message_lem run, tt))
      (sym (append_two s.messages (user_message run) (empty_answer run)))
    ∙ append_two s.messages (user_message run) (answer_with run (joined deltas))

abbrev kept_last : Text → Option ConversationMessage → ConversationMessage → ConversationMessage
kept_last answer_id optimistic m =
    if shows_more answer_id optimistic m then partial_answer optimistic m else m

reconcile_append :
    (answer_id : Text) (optimistic : Option ConversationMessage) (ms : List ConversationMessage)
    (m : ConversationMessage)
    → reconcile answer_id optimistic (ms ++ m ∷ []) ≡ ms ++ kept_last answer_id optimistic m ∷ []
unfolding reconcile
reconcile_append answer_id optimistic [] m = refl
reconcile_append answer_id optimistic (n ∷ []) m = refl
reconcile_append answer_id optimistic (n ∷ k ∷ ms) m =
    ap (λ r. n ∷ r) (reconcile_append answer_id optimistic (k ∷ ms) m)

-- The last stored message is an answer, and the message on screen is the answer of this run and
-- shows more of it.
abbrev pub IsCutShort : Text → ConversationMessage → ConversationMessage → Type 0
IsCutShort answer_id shown m =
    (m.role ≡ some (txt "assistant"))
    × (shown.id ≡ some answer_id)
    × (length (content_of m) < length (content_of shown))

shows_more_lem :
    (answer_id : Text) (shown m : ConversationMessage)
    → shows_more answer_id (some shown) m ≡ true
    → IsCutShort answer_id shown m
unfolding shows_more
shows_more_lem answer_id shown m e = (
  ground (arith, e, option_eq_iff m.role (some (txt "assistant"))),
  ground (arith, e, option_eq_iff shown.id (some answer_id)),
  ground (arith, e),
)

shows_more_cut :
    (answer_id : Text) (shown m : ConversationMessage)
    → IsCutShort answer_id shown m
    → shows_more answer_id (some shown) m ≡ true
unfolding shows_more
shows_more_cut answer_id shown m (role, own, less) =
    let role_eq = (option_eq_iff m.role (some (txt "assistant"))).1 role in
    let id_eq = (option_eq_iff shown.id (some answer_id)).1 own in
    rw (role_eq, id_eq) (ground (arith, less))

none_kept :
    (answer_id : Text) (ms : List ConversationMessage) (m : ConversationMessage)
    → reconcile answer_id none (ms ++ m ∷ []) ≡ ms ++ m ∷ []
unfolding shows_more
none_kept answer_id ms m = reconcile_append answer_id none ms m

-- The reload after a failure shows the server's messages, but where the message on screen is the
-- answer of this run, the server's last message is an answer too, and it has less text, the text on
-- screen is kept in its place and marked as failed. That is the only case in which it is; nothing is
-- kept where no message is on screen.
pub reconcile-append :
    (answer_id : Text) (shown : ConversationMessage) (ms : List ConversationMessage)
    (m : ConversationMessage)
    → (reconcile answer_id none (ms ++ m ∷ []) ≡ ms ++ m ∷ [])
      × ((IsCutShort answer_id shown m
            × (reconcile answer_id (some shown) (ms ++ m ∷ [])
                ≡ ms ++ record m { content = shown.content; status = some (txt "failed") } ∷ []))
          ⊎ ((¬ IsCutShort answer_id shown m)
              × (reconcile answer_id (some shown) (ms ++ m ∷ []) ≡ ms ++ m ∷ [])))
reconcile-append answer_id shown ms m = (
  none_kept answer_id ms m,
  elim (Bool-cases (shows_more answer_id (some shown) m)) [
    | inl more ↦ inl (
      shows_more_lem answer_id shown m more,
      reconcile_append answer_id (some shown) ms m ∙ rw more refl,
    )
    | inr same ↦ inr (
      (λ cut. ground (arith, shows_more_cut answer_id shown m cut, same)),
      reconcile_append answer_id (some shown) ms m ∙ rw same refl,
    )
  ],
)
