-- ===== src/Api/Streaming/Answers.antt =====
-- What a streamed run comes to.
use gx_notion2api.Prelude.{
  append_assoc, append-nil, ◌≡◌, refl, ap, sym, ◌∙◌, Bool, true, false, ◌||◌, Option, none, some,
  List, [], ◌∷◌, Text, ◌++◌, map, any, or_text, or_else,
}
use gx_notion2api.Types.Chat.{ChatRunResult}
use gx_notion2api.Api.Streaming.{
  StreamEvent, StreamData, end_mark, event, finished, broken, interrupted, read_events,
  on_test_event, TestStream, before_stream, is_length, with_text, test_result, stream_test_prompt,
}

abbrev pub delta_of : Option Text → Text
delta_of none = []
delta_of (some delta) = delta

-- The text of a stream: its deltas in order
abbrev pub deltas_of : List StreamEvent → Text
deltas_of [] = []
deltas_of (e ∷ es) = delta_of e.delta ++ deltas_of es

-- No event is an error.
abbrev pub IsSound : List StreamEvent → Type 0
IsSound [] = Unit
IsSound (e ∷ es) = (e.error ≡ none) × IsSound es

abbrev took : StreamEvent → TestStream → TestStream
took e s = with_text e.delta (record s { truncated = s.truncated || is_length e })

abbrev after : List StreamEvent → TestStream → TestStream
after [] s = s
after (e ∷ es) s = after es (took e s)

read_after :
    (es : List StreamEvent) (items : List StreamData) (s : TestStream)
    → IsSound es
    → read_events on_test_event (map event es ++ items) s
      ≡ read_events on_test_event items (after es s)
unfolding read_events on_test_event
read_after [] items s h = refl
read_after (e ∷ es) items s (sound, h) = rw sound (read_after es items (took e s) h)

or_assoc : (a b c : Bool) → (a || b) || c ≡ a || (b || c)
or_assoc true b c = refl
or_assoc false b c = refl

with_text_text : (o : Option Text) (s : TestStream) → (with_text o s).text ≡ s.text ++ delta_of o
with_text_text none s = sym (append-nil s.text)
with_text_text (some d) s = refl

with_text_truncated : (o : Option Text) (s : TestStream) → (with_text o s).truncated ≡ s.truncated
with_text_truncated none s = refl
with_text_truncated (some d) s = refl

after_text : (es : List StreamEvent) (s : TestStream) → (after es s).text ≡ s.text ++ deltas_of es
after_text [] s = sym (append-nil s.text)
after_text (e ∷ es) s =
    after_text es (took e s)
    ∙ ap (λ t. t ++ deltas_of es)
        (with_text_text e.delta (record s { truncated = s.truncated || is_length e }))
    ∙ append_assoc s.text (delta_of e.delta) (deltas_of es)

or_false : (a : Bool) → a ≡ a || false
or_false true = refl
or_false false = refl

after_truncated :
    (es : List StreamEvent) (s : TestStream)
    → (after es s).truncated ≡ s.truncated || any is_length es
unfolding any
after_truncated [] s = or_false s.truncated
after_truncated (e ∷ es) s =
    after_truncated es (took e s)
    ∙ ap (λ b. b || any is_length es)
        (with_text_truncated e.delta (record s { truncated = s.truncated || is_length e }))
    ∙ or_assoc s.truncated (is_length e) (any is_length es)

abbrev result_of : Option Text → Option Text → Text → Bool → ChatRunResult
result_of header sent text truncated = record {
  conversation_id = or_text (or_else header sent) [];
  text = text;
  truncated = some truncated;
}

-- A stream of events without an error gives, once its end mark came, all its deltas in order, and it
-- counts as truncated exactly if some event stopped for its length; what follows the mark is not read.
-- Without the end mark it fails as interrupted.
pub stream_test_prompt_lem :
    (header sent : Option Text) (es : List StreamEvent) (rest : List StreamData)
    → IsSound es
    → (stream_test_prompt header sent (map event es ++ end_mark ∷ rest)
        ≡ finished (record {
          conversation_id = or_text (or_else header sent) [];
          text = deltas_of es;
          truncated = some (any is_length es);
        }))
      × (stream_test_prompt header sent (map event es ++ []) ≡ broken interrupted)
unfolding stream_test_prompt read_events
stream_test_prompt_lem header sent es rest h = (
  ap (test_result header sent) (read_after es (end_mark ∷ rest) before_stream h)
      ∙ ap (λ t. finished (result_of header sent t (after es before_stream).truncated))
          (after_text es before_stream)
      ∙ ap (λ b. finished (result_of header sent (deltas_of es) b))
          (after_truncated es before_stream),
  ap (test_result header sent) (read_after es [] before_stream h),
)
