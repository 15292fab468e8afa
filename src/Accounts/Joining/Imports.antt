-- ===== src/Accounts/Joining/Imports.antt =====
-- What an import by hand sends.
use gx_notion2api.Prelude.{
  ◌≡◌, ap, sym, ◌∙◌, Bool, true, false, ◌||◌, some, Text, arith, is_present, trim,
}
use gx_notion2api.Accounts.Panel.{AccountsState, ManualImportState}
use gx_notion2api.Accounts.Joining.{
  Json, Probe, no_probe, draft, refused, Import, is_blank, import_email, send_import, import_of,
  safe_parse_probe_json, perform_manual_import,
}

-- The text of a probe, if there is one, is that of an object.
abbrev pub IsReadable : Probe → Type 0
IsReadable no_probe = Unit
IsReadable (draft probe) = Unit
IsReadable (refused message) = ⊥

-- The request has an email, a cookie or a probe.
abbrev pub names_session : Import → Bool
names_session sent =
    is_present sent.email || is_present sent.cookie_header || is_present sent.probe_json_text

blank_lem :
    (email : Text) (manual : ManualImportState)
    → is_blank email manual ≡ false
    → names_session (import_of email manual) ≡ true
blank_lem email manual h = ground (arith, h)

send_lem :
    (probe : Probe) (s : AccountsState) (sent : Import)
    → (send_import probe s).1 ≡ some sent
    → IsReadable probe
      × (is_blank (import_email probe s.manual) s.manual ≡ false)
      × (import_of (import_email probe s.manual) s.manual ≡ sent)
send_lem no_probe s sent e = (tt, ground (arith, e), ground (arith, e))
send_lem (draft probe) s sent e = (tt, ground (arith, e), ground (arith, e))
send_lem (refused message) s sent e = ground (arith, e)

module _ (parse : Text → Json) where
  -- An import that is sent has an email, a cookie or a probe; its cookie and its probe are the trimmed
  -- texts of the form, and the text of the probe, if there is one, is that of an object.
  pub perform_manual_import_lem :
      (s : AccountsState) (sent : Import)
      → (perform_manual_import parse s).1 ≡ some sent
      → (names_session sent ≡ true)
        × (sent.cookie_header ≡ trim s.manual.cookie_header)
        × (sent.probe_json_text ≡ trim s.manual.probe_json_text)
        × IsReadable (safe_parse_probe_json parse s.manual.probe_json_text)
  unfolding perform_manual_import
  perform_manual_import_lem s sent e =
      let probe = safe_parse_probe_json parse s.manual.probe_json_text in
      let (readable, named, made) = send_lem probe s sent e in
      (
        ap names_session (sym made) ∙ blank_lem (import_email probe s.manual) s.manual named,
        ap (λ (i : Import). i.cookie_header) (sym made),
        ap (λ (i : Import). i.probe_json_text) (sym made),
        readable,
      )
