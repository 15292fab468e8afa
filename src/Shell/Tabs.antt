-- ===== src/Shell/Tabs.antt =====
-- Histories of the frame: panels that report unsaved changes, tabs chosen on the page, and addresses
-- that the browser goes back or forward to, in any order.
pub mod Staying
use gx_notion2api.Prelude.{
  ◌≡◌, refl, sym, ap, ◌∙◌, Bool, true, false, not, ◌&&◌, Option, some, Text, arith, text_eq_iff,
  Bool-cases, inl, inr, text_eq,
}
use gx_notion2api.Shell.{
  TabKey, dashboard, tester, conversations, settings, accounts, models, tab_text, tab_eq,
  requested_tab, ShellState, initial_shell, report_settings, report_accounts, has_unsaved,
  can_leave, set_active_tab, sync_tab, leave_panels, continue_conversation, resume_handled,
  begin_login, login_ended, login_failed,
}

-- `confirmed` is the answer that a question about unsaved changes gets in this step.
pub data Step (confirmed : Bool) (s : ShellState) : ShellState → Type 0 where
  chooses : (tab : TabKey) → Step confirmed s (leave_panels (set_active_tab confirmed tab s))
  moves :
      (url : Option Text)
      → Step confirmed s (leave_panels (sync_tab confirmed (record s { url_tab = url })))
  continues : (id : Text) → Step confirmed s (leave_panels (continue_conversation confirmed id s))
  edits_settings :
      (dirty : Bool)
      → tab_eq s.active_tab settings ≡ true
      → Step confirmed s (report_settings dirty s)
  edits_accounts :
      (dirty : Bool)
      → tab_eq s.active_tab accounts ≡ true
      → Step confirmed s (report_accounts dirty s)
  resumes : Step confirmed s (resume_handled s)
  logs_in : Step confirmed s (begin_login s)
  enters : Step confirmed s (login_ended s)
  is_refused : (cause : Option Text) → Step confirmed s (login_failed cause s)

pub data Reach (s : ShellState) : ShellState → Type 0 where
  here : Reach s s
  next : {t u : ShellState} {confirmed : Bool} → Reach s t → Step confirmed t u → Reach s u

-- The ref and the address agree with the tab on screen, and only a panel on screen has unsaved changes.
pub record IsInStep (s : ShellState) : Type 0 where
  pub same : s.active_tab_ref ≡ s.active_tab
  pub addressed : requested_tab s.url_tab ≡ s.active_tab
  pub settings_seen : (s.settings_dirty && not (tab_eq s.active_tab settings)) ≡ false
  pub accounts_seen : (s.accounts_dirty && not (tab_eq s.active_tab accounts)) ≡ false

requested_tab-tab_text : (tab : TabKey) → requested_tab (some (tab_text tab)) ≡ tab
unfolding requested_tab text_eq
requested_tab-tab_text dashboard = refl
requested_tab-tab_text tester = refl
requested_tab-tab_text conversations = refl
requested_tab-tab_text settings = refl
requested_tab-tab_text accounts = refl
requested_tab-tab_text models = refl

left_seen : (dirty on : Bool) → ((dirty && on) && not on) ≡ false
left_seen true true = refl
left_seen true false = refl
left_seen false true = refl
left_seen false false = refl

-- A state in which the ref and the address agree with the tab is in step once the panels have left.
leave_panels-IsInStep :
    (s : ShellState)
    → s.active_tab_ref ≡ s.active_tab
    → requested_tab s.url_tab ≡ s.active_tab
    → IsInStep (leave_panels s)
unfolding leave_panels
leave_panels-IsInStep s e f = record {
  same = e;
  addressed = f;
  settings_seen = left_seen s.settings_dirty (tab_eq s.active_tab settings);
  accounts_seen = left_seen s.accounts_dirty (tab_eq s.active_tab accounts);
}

chosen-IsInStep :
    (confirmed : Bool) (tab : TabKey) (s : ShellState)
    → s.active_tab_ref ≡ s.active_tab
    → requested_tab s.url_tab ≡ s.active_tab
    → IsInStep (leave_panels (set_active_tab confirmed tab s))
unfolding set_active_tab
chosen-IsInStep confirmed tab s e f = elim (Bool-cases (can_leave confirmed tab s)) [
  | inl goes ↦ rw goes (
      leave_panels-IsInStep
        (record s { active_tab_ref = tab; active_tab = tab; url_tab = some (tab_text tab) }) refl
        (requested_tab-tab_text tab))
  | inr stays ↦ rw stays (leave_panels-IsInStep s e f)
]

synced-IsInStep :
    (confirmed : Bool) (s : ShellState)
    → s.active_tab_ref ≡ s.active_tab
    → IsInStep (leave_panels (sync_tab confirmed s))
unfolding sync_tab
synced-IsInStep confirmed s e =
    let tab = requested_tab s.url_tab in
    elim (Bool-cases (can_leave confirmed tab s)) [
      | inl goes ↦
          rw goes
            (leave_panels-IsInStep (record s { active_tab_ref = tab; active_tab = tab }) refl refl)
      | inr stays ↦ rw stays (
          leave_panels-IsInStep (record s { url_tab = some (tab_text s.active_tab_ref) }) e
            (rw e (requested_tab-tab_text s.active_tab)))
    ]

Step-IsInStep : {confirmed : Bool} {s t : ShellState} → Step confirmed s t → IsInStep s → IsInStep t
unfolding continue_conversation report_settings report_accounts resume_handled begin_login
    login_ended login_failed
Step-IsInStep {confirmed = c} {s} (chooses tab) h = chosen-IsInStep c tab s h.same h.addressed
Step-IsInStep {confirmed = c} {s} (moves url) h =
    synced-IsInStep c (record s { url_tab = url }) h.same
Step-IsInStep {confirmed = c} {s} (continues id) h =
    chosen-IsInStep c tester (record s { resume_conversation_id = id }) h.same h.addressed
Step-IsInStep {s} (edits_settings dirty on) h = record {
  same = h.same;
  addressed = h.addressed;
  settings_seen = ground (arith, on, left_seen dirty true);
  accounts_seen = h.accounts_seen;
}
Step-IsInStep {s} (edits_accounts dirty on) h = record {
  same = h.same;
  addressed = h.addressed;
  settings_seen = h.settings_seen;
  accounts_seen = ground (arith, on, left_seen dirty true);
}
Step-IsInStep {s} resumes h = record {
  same = h.same;
  addressed = h.addressed;
  settings_seen = h.settings_seen;
  accounts_seen = h.accounts_seen;
}
Step-IsInStep {s} logs_in h = record {
  same = h.same;
  addressed = h.addressed;
  settings_seen = h.settings_seen;
  accounts_seen = h.accounts_seen;
}
Step-IsInStep {s} enters h = record {
  same = h.same;
  addressed = h.addressed;
  settings_seen = h.settings_seen;
  accounts_seen = h.accounts_seen;
}
Step-IsInStep {s} (is_refused cause) h = record {
  same = h.same;
  addressed = h.addressed;
  settings_seen = h.settings_seen;
  accounts_seen = h.accounts_seen;
}

opened-IsInStep :
    (confirmed : Bool) (url : Option Text)
    → IsInStep (leave_panels (sync_tab confirmed (initial_shell url)))
unfolding initial_shell
opened-IsInStep confirmed url = synced-IsInStep confirmed (initial_shell url) refl

-- From the first reading of any address on, whatever is chosen, edited, gone back to or refused: the tab
-- on screen is the one of the ref and the one that the address asks for, and unsaved changes are only
-- reported for the panel on screen.
pub Reach-IsInStep :
    (url : Option Text) (confirmed : Bool) {t : ShellState}
    → Reach (leave_panels (sync_tab confirmed (initial_shell url))) t
    → IsInStep t
Reach-IsInStep url confirmed here = opened-IsInStep confirmed url
Reach-IsInStep url confirmed (next r step) = Step-IsInStep step (Reach-IsInStep url confirmed r)
