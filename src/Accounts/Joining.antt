-- ===== src/Accounts/Joining.antt =====
-- How an account joins the pool in frontend/components/admin/accounts-panel.tsx: a login by a code sent
-- by mail, and the import of a session by hand. Each call is split at its request. What `JSON.parse`
-- makes of a text is the argument `parse`.
pub mod Imports
use gx_notion2api.Prelude.{
  message_or, Bool, true, false, not, ◌&&◌, ◌||◌, Option, none, some, List, [], ◌∷◌, ◌++◌, Text,
  txt, if◌then◌else◌, is_present, is_given, or_text, or_else, trim, keep,
}
use gx_notion2api.Settings.Prompts.{join}
use gx_notion2api.Accounts.Panel.{AccountsProps, AccountsState, ManualImportState}
use gx_notion2api.Accounts.Editing.{toast, populate_email}

-- The start of a login up to its request, with the email that it names
unfoldable pub start_login : AccountsState → AccountsState × Option Text
start_login s =
    if not (is_present (trim s.start_email))
    then (record s { start_message = txt "请输入邮箱" }, none)
    else (record s { starting = true; start_message = txt "请求验证码中..." }, some (trim s.start_email))

-- After its request, with the message of the answer; the email is read as it was sent.
unfoldable pub login_started : Text → Option Text → AccountsState → AccountsState
login_started email message s = record (toast (txt "验证码请求成功") s) {
  verify_email = email;
  quick_test_email = email;
  selected_email = email;
  start_message = or_text message (txt "验证码已发送，请在右侧输入验证码");
  starting = false;
}

unfoldable pub login_not_started : Option Text → AccountsState → AccountsState
login_not_started cause s =
    let message = message_or cause (txt "请求验证码失败") in
    record (toast message s) { start_message = message; starting = false }

-- The check of a code up to its request, with the email and the code
unfoldable pub verify_login : AccountsState → AccountsState × Option (Text × Text)
verify_login s =
    if not (is_present (trim s.verify_email)) || not (is_present (trim s.verify_code))
    then (record s { verify_message = txt "请输入邮箱和验证码" }, none)
    else (
      record s { verifying = true; verify_message = txt "验证中..." },
      some (trim s.verify_email, trim s.verify_code),
    )

unfoldable pub login_verified : AccountsProps → Text → Option Text → AccountsState → AccountsState
unfolding populate_email
login_verified props email message s =
    record (toast (txt "验证码验证成功") (populate_email props email s)) {
      verify_code = [];
      verify_message = or_text message (txt "验证成功，账号已自动激活");
      verifying = false;
    }

unfoldable pub login_not_verified : Option Text → AccountsState → AccountsState
login_not_verified cause s =
    let message = message_or cause (txt "验证码验证失败") in
    record (toast message s) { verify_message = message; verifying = false }

pub record ProbeDraft : Type 0 where
  pub email : Option Text
  pub user_id : Option Text
  pub space_id : Option Text
  pub client_version : Option Text

-- What `JSON.parse` gives: an object, with the fields that are read, another value, or an error
pub data Json : Type 0 where
  object : ProbeDraft → Json
  no_object : Json
  unparsable : Text → Json

-- What `safeParseProbeJSON` gives: nothing, a draft, or an error with its message
pub data Probe : Type 0 where
  no_probe : Probe
  draft : ProbeDraft → Probe
  refused : Text → Probe

abbrev pub probe_of : Json → Probe
probe_of (object probe) = draft probe
probe_of no_object = refused (txt "Probe JSON 必须是对象")
probe_of (unparsable message) = refused message

-- `payload.email?.trim() || current.email`
abbrev pub trimmed_or : Option Text → Text → Text
trimmed_or none fallback = fallback
trimmed_or (some t) fallback = or_text (some (trim t)) fallback

abbrev pub filled : ProbeDraft → ManualImportState → ManualImportState
filled probe manual = record manual {
  email = trimmed_or probe.email manual.email;
  user_id = trimmed_or probe.user_id manual.user_id;
  space_id = trimmed_or probe.space_id manual.space_id;
  client_version = trimmed_or probe.client_version manual.client_version;
}

abbrev pub label_if : Option Text → Text → Text
label_if value label = if is_given value then label else []

abbrev pub extracted : ProbeDraft → List Text
extracted probe = keep is_present (
    label_if probe.email (txt "Email")
    ∷ label_if probe.user_id (txt "User ID")
    ∷ label_if probe.space_id (txt "Space ID")
    ∷ label_if probe.client_version (txt "Client Version")
    ∷ [])

abbrev pub extracted_hint : List Text → Text
extracted_hint [] = []
extracted_hint (label ∷ labels) = txt "已从 Probe JSON 自动提取 " ++ join (txt " / ") (label ∷ labels)

abbrev pub hinted : Probe → AccountsState → AccountsState
hinted no_probe s = record s { manual_hint = [] }
hinted (draft probe) s = record s {
  manual = filled probe s.manual;
  manual_hint = extracted_hint (extracted probe);
}
hinted (refused message) s = record s { manual_hint = message }

-- The body of the request
pub record Import : Type 0 where
  pub email : Text
  pub user_id : Text
  pub user_name : Text
  pub space_id : Text
  pub space_name : Text
  pub client_version : Text
  pub cookie_header : Text
  pub probe_json_text : Text
  pub active : Bool

abbrev pub import_of : Text → ManualImportState → Import
import_of email manual = record {
  email = email;
  user_id = trim manual.user_id;
  user_name = trim manual.user_name;
  space_id = trim manual.space_id;
  space_name = trim manual.space_name;
  client_version = trim manual.client_version;
  cookie_header = trim manual.cookie_header;
  probe_json_text = trim manual.probe_json_text;
  active = manual.active;
}

abbrev pub probe_email : Probe → Text
probe_email no_probe = []
probe_email (draft probe) = trimmed_or probe.email []
probe_email (refused message) = []

-- The end of an import that failed, also before its request
unfoldable pub import_failed : Text → AccountsState → AccountsState
import_failed message s = record (toast message s) { manual_hint = message; manual_busy = false }

abbrev pub is_blank : Text → ManualImportState → Bool
is_blank email manual =
    not (is_present email)
    && not (is_present (trim manual.cookie_header))
    && not (is_present (trim manual.probe_json_text))

abbrev pub import_email : Probe → ManualImportState → Text
import_email probe manual = or_text (some (trim manual.email)) (probe_email probe)

abbrev pub send_import : Probe → AccountsState → AccountsState × Option Import
send_import (refused message) s = (import_failed message s, none)
send_import probe s =
    if is_blank (import_email probe s.manual) s.manual
    then (import_failed (txt "请至少提供 cookie_header、Probe JSON 或邮箱") s, none)
    else (
      record s { manual_busy = true; manual_hint = txt "导入中..." },
      some (import_of (import_email probe s.manual) s.manual),
    )

module _ (parse : Text → Json) where
  unfoldable pub safe_parse_probe_json : Text → Probe
  safe_parse_probe_json raw =
      if is_present (trim raw) then probe_of (parse (trim raw)) else no_probe

  -- The effect on the text of the probe
  unfoldable pub read_probe : AccountsState → AccountsState
  unfolding safe_parse_probe_json
  read_probe s = hinted (safe_parse_probe_json s.manual.probe_json_text) s

  -- `performManualImport` up to its request
  unfoldable pub perform_manual_import : AccountsState → AccountsState × Option Import
  unfolding safe_parse_probe_json import_failed
  perform_manual_import s = send_import (safe_parse_probe_json s.manual.probe_json_text) s

-- `performManualImport` after its request, with the emails of the answer's account and status
unfoldable pub account_imported :
    AccountsProps → Option Text → Option Text → Import → AccountsState → AccountsState
unfolding populate_email
account_imported props account status sent s =
    let email = or_text (or_else account status) sent.email in
    record (toast (txt "手动导入成功") (populate_email props email s)) {
      manual_hint = txt "账号 " ++ (email ++ txt " 已导入");
      manual_busy = false;
    }
