-- ===== src/Api/Fetching.antt =====
-- `apiFetch` of frontend/lib/services/core/api-client.ts, after its `fetch`. What the regular
-- expressions make of an HTML page is the argument `summarize` (`summarizeHTMLText`).
pub mod Failures
use gx_notion2api.Prelude.{
  ℕ, Bool, true, false, Option, none, some, Text, txt, [], ◌++◌, if◌then◌else◌, is_present, or_text,
  or_else, includes, decimal, not,
}

-- A JSON value or a text: an object, with what the client reads of an error object, or a text. Another JSON value
-- is `other`, with what `String` makes of it, empty if it is falsy.
pub data Payload : Type 0 where
  object : (detail code : Option Text) (message error_code : Option Text) → Payload
  text : Text → Payload
  other : Text → Payload

-- What `response.json()` or `response.text()` gives; `unreadable` carries what the former throws for a
-- body that is marked as JSON and is none.
pub data Body : Type 0 where
  readable : Payload → Body
  unreadable : Text → Body

pub record Response : Type 0 where
  pub ok : Bool
  pub status : ℕ
  pub status_text : Text
  pub body : Body

pub record ApiError : Type 0 where
  pub message : Text
  pub status : ℕ
  pub code : Option Text

pub data Outcome {ℓ} (A : Type ℓ) : Type ℓ where
  done : A → Outcome A
  failed : ApiError → Outcome A
  broken : Text → Outcome A

-- `${response.status} ${response.statusText}`
abbrev pub status_line : ℕ → Text → Text
status_line status status_text = decimal status ++ (txt " " ++ status_text)

abbrev pub text_or : Text → Text → Text
text_or t fallback = if is_present t then t else fallback

module _ (summarize : Text → Text) where
  -- `describeHTMLResponse`
  unfoldable pub describe_html_response : ℕ → Text → Text
  describe_html_response status raw =
      let summary = summarize raw in
      if is_present summary
      then txt "收到 HTML 错误页（HTTP "
        ++ (decimal status ++ (txt "），错误详情可能被网关替换，请查看会话记录中的失败原因：" ++ summary))
      else []

  unfoldable pub payload_error : ℕ → Text → Payload → ApiError
  unfolding describe_html_response
  payload_error status status_text (object detail code message error_code) = record {
    message = or_text (or_else detail message) (status_line status status_text);
    status = status;
    code = or_else code error_code;
  }
  payload_error status status_text (text raw) = record {
    message =
        text_or (describe_html_response status raw) (text_or raw (status_line status status_text));
    status = status;
    code = none;
  }
  payload_error status status_text (other raw) = record {
    message = text_or raw (status_line status status_text);
    status = status;
    code = none;
  }

  abbrev pub answer_payload : Response → Payload → Outcome Payload
  answer_payload response payload =
      if response.ok
      then done payload
      else failed (payload_error response.status response.status_text payload)

  -- What reading the body throws is thrown before `response.ok` is looked at.
  abbrev pub answer_body : Response → Body → Outcome Payload
  answer_body response (readable payload) = answer_payload response payload
  answer_body response (unreadable message) = broken message

  unfoldable pub api_fetch : Response → Outcome Payload
  unfolding payload_error
  api_fetch response = answer_body response response.body
