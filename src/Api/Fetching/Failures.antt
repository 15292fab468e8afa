-- ===== src/Api/Fetching/Failures.antt =====
-- What a failed call says.
use gx_notion2api.Prelude.{
  ℕ, ◌≡◌, refl, true, false, Option, none, some, Text, ◌++◌, [], ◌∷◌, Bool-cases, inl, inr,
  is_present, or_text, or_else, decimal,
}
use gx_notion2api.Api.Fetching.{
  Payload, object, text, other, Response, Outcome, done, failed, broken, Body, readable, unreadable,
  answer_payload, answer_body, payload_error, api_fetch, status_line, text_or,
  describe_html_response,
}

append_present : (xs ys : Text) (c : ℕ) → is_present (xs ++ c ∷ ys) ≡ true
append_present [] ys c = refl
append_present (x ∷ xs) ys c = refl

text_or_present : (t u : Text) → is_present u ≡ true → is_present (text_or t u) ≡ true
text_or_present t u h = elim (Bool-cases (is_present t)) [ inl e ↦ rw e e | inr e ↦ rw e h ]

or_text_present :
    (o : Option Text) (u : Text) → is_present u ≡ true → is_present (or_text o u) ≡ true
unfolding or_text
or_text_present none u h = h
or_text_present (some t) u h = text_or_present t u h

status_line_present : (status : ℕ) (t : Text) → is_present (status_line status t) ≡ true
status_line_present status t = append_present (decimal status) t 32

payload_error_lem :
    (summarize : Text → Text) (status : ℕ) (status_text : Text) (payload : Payload)
    → ((payload_error summarize status status_text payload).status ≡ status)
      × (is_present (payload_error summarize status status_text payload).message ≡ true)
unfolding payload_error
payload_error_lem summarize status status_text (object detail code message error_code) =
    (refl, or_text_present (or_else detail message) _ (status_line_present status status_text))
payload_error_lem summarize status status_text (text raw) = (
  refl,
  text_or_present (describe_html_response summarize status raw) _
      (text_or_present raw _ (status_line_present status status_text)),
)
payload_error_lem summarize status status_text (other raw) =
    (refl, text_or_present raw _ (status_line_present status status_text))

abbrev pub IsTold : Response → Outcome Payload → Type 0
IsTold response (done payload) = (response.ok ≡ true) × (response.body ≡ readable payload)
IsTold response (failed e) =
    (payload : Payload) × (response.body ≡ readable payload)
    × (response.ok ≡ false)
    × (e.status ≡ response.status)
    × (is_present e.message ≡ true)
IsTold response (broken message) = response.body ≡ unreadable message

answer_payload_lem :
    (summarize : Text → Text) (response : Response) (payload : Payload)
    → response.body ≡ readable payload
    → IsTold response (answer_payload summarize response payload)
answer_payload_lem summarize response payload own = elim (Bool-cases response.ok) [
  | inl good ↦ rw good (refl, own)
  | inr bad ↦
      let (kept, told) = payload_error_lem summarize response.status response.status_text payload in
      rw bad (payload, own, refl, kept, told)
]

answer_body_lem :
    (summarize : Text → Text) (response : Response) (body : Body)
    → response.body ≡ body
    → IsTold response (answer_body summarize response body)
answer_body_lem summarize response (readable payload) own =
    answer_payload_lem summarize response payload own
answer_body_lem summarize response (unreadable message) own = own

-- A call gives the body of a response that is ok and whose body could be read. A response that is not
-- ok and whose body could be read fails with the response's status and a message that is not empty,
-- whatever the body. A body that could not be read is thrown without a status, also where the response
-- is ok.
pub api_fetch_lem :
    (summarize : Text → Text) (response : Response) → IsTold response (api_fetch summarize response)
unfolding api_fetch
api_fetch_lem summarize response = answer_body_lem summarize response response.body refl
