-- ===== src/Api/Streaming.antt =====
-- The loop of `apiEventStream` in frontend/lib/services/core/api-client.ts over the events of a
-- stream, and `streamTestPrompt` of frontend/lib/services/admin/admin.service.ts, which reads it.
pub mod Answers
use gx_notion2api.Prelude.{
  Bool, true, false, ◌||◌, Option, none, some, List, [], ◌∷◌, Text, txt, ◌++◌, if◌then◌else◌,
  or_text, or_else, option_eq,
}
use gx_notion2api.Types.Chat.{ChatRunResult}

-- What the client reads of an event: the message of its error, if it has one, and of its first choice
-- the reason to stop and the delta, if that is a string
pub record StreamEvent : Type 0 where
  pub error : Option (Option Text)
  pub finish_reason : Option Text
  pub delta : Option Text

-- The data of an event: the end mark, a JSON text, or a text that `JSON.parse` refuses, with the
-- message of the error it throws
pub data StreamData : Type 0 where
  end_mark : StreamData
  event : StreamEvent → StreamData
  unparsable : Text → StreamData

pub data StreamOutcome {ℓ} (A : Type ℓ) : Type ℓ where
  finished : A → StreamOutcome A
  broken : Text → StreamOutcome A

abbrev pub interrupted : Text
interrupted = txt "连接中断，回答尚未完成"

abbrev pub and_then {ℓ κ} :
    {A : Type ℓ} {B : Type κ} → StreamOutcome A → (A → StreamOutcome B) → StreamOutcome B
and_then (finished a) f = f a
and_then (broken m) f = broken m

-- The loop of `apiEventStream`
unfoldable pub read_events {ℓ} :
    {S : Type ℓ} → (StreamData → S → StreamOutcome S) → List StreamData → S → StreamOutcome S
read_events on_event [] s = broken interrupted
read_events on_event (end_mark ∷ rest) s = finished s
read_events on_event (event e ∷ rest) s =
    and_then (on_event (event e) s) (read_events on_event rest)
read_events on_event (unparsable m ∷ rest) s =
    and_then (on_event (unparsable m) s) (read_events on_event rest)

-- The variables of `streamTestPrompt`; `shown` are the calls of `onDelta`.
pub record TestStream : Type 0 where
  pub text : Text
  pub truncated : Bool
  pub shown : List Text

abbrev pub before_stream : TestStream
before_stream = record { text = []; truncated = false; shown = [] }

abbrev pub is_length : StreamEvent → Bool
is_length e = option_eq e.finish_reason (some (txt "length"))

abbrev pub with_text : Option Text → TestStream → TestStream
with_text none s = s
with_text (some delta) s = record s { text = s.text ++ delta; shown = s.shown ++ delta ∷ [] }

abbrev pub read_event : Option (Option Text) → StreamEvent → TestStream → StreamOutcome TestStream
read_event (some message) e s = broken (or_text message (txt "生成失败"))
read_event none e s =
    finished (with_text e.delta (record s { truncated = s.truncated || is_length e }))

-- The callback of `streamTestPrompt`
unfoldable pub on_test_event : StreamData → TestStream → StreamOutcome TestStream
on_test_event end_mark s = finished s
on_test_event (event e) s = read_event e.error e s
on_test_event (unparsable m) s = broken m

abbrev pub test_result :
    Option Text → Option Text → StreamOutcome TestStream → StreamOutcome ChatRunResult
test_result header sent (broken m) = broken m
test_result header sent (finished s) = finished (record {
  conversation_id = or_text (or_else header sent) [];
  text = s.text;
  truncated = some s.truncated;
})

-- `streamTestPrompt` on the data of its stream, with the header 'x-conversation-id' and the id that
-- was sent
unfoldable pub stream_test_prompt :
    Option Text → Option Text → List StreamData → StreamOutcome ChatRunResult
unfolding on_test_event read_events
stream_test_prompt header sent items =
    test_result header sent (read_events on_test_event items before_stream)
