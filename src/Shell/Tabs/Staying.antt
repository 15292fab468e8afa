-- ===== src/Shell/Tabs/Staying.antt =====
-- Unsaved changes keep the page on its tab.
use gx_notion2api.Prelude.{
  ◌≡◌, refl, sym, ap, ◌∙◌, true, false, some, arith, text_eq_iff, Bool-cases, inl, inr,
}
use gx_notion2api.Shell.{
  TabKey, tester, tab_text, tab_eq, requested_tab, ShellState, report_settings, report_accounts,
  has_unsaved, can_leave, set_active_tab, sync_tab, leave_panels, continue_conversation,
  resume_handled, begin_login, login_ended, login_failed,
}
use gx_notion2api.Shell.Tabs.{
  Step, chooses, moves, continues, edits_settings, edits_accounts, resumes, logs_in, enters,
  is_refused, IsInStep, requested_tab-tab_text,
}

same_tab : (left right : TabKey) → tab_eq left right ≡ true → left ≡ right
unfolding tab_eq
same_tab left right h =
    sym (requested_tab-tab_text left)
    ∙ ap (λ t. requested_tab (some t)) ((text_eq_iff (tab_text left) (tab_text right)).0 h)
    ∙ requested_tab-tab_text right

-- The tab and its address are those of the tab given.
abbrev pub StaysOn : TabKey → ShellState → Type 0
StaysOn tab t = (t.active_tab ≡ tab) × (requested_tab t.url_tab ≡ tab)

unconfirmed :
    (tab : TabKey) (s : ShellState)
    → has_unsaved s ≡ true
    → can_leave false tab s ≡ true
    → tab ≡ s.active_tab_ref
unfolding can_leave
unconfirmed tab s unsaved goes = same_tab tab s.active_tab_ref (ground (arith, unsaved, goes))

chosen-StaysOn :
    (tab : TabKey) (s : ShellState)
    → s.active_tab_ref ≡ s.active_tab
    → requested_tab s.url_tab ≡ s.active_tab
    → has_unsaved s ≡ true
    → StaysOn s.active_tab (leave_panels (set_active_tab false tab s))
unfolding set_active_tab leave_panels
chosen-StaysOn tab s e f unsaved = elim (Bool-cases (can_leave false tab s)) [
  | inl goes ↦
      let on : tab ≡ s.active_tab = unconfirmed tab s unsaved goes ∙ e in
      rw goes (on, requested_tab-tab_text tab ∙ on)
  | inr stays ↦ rw stays (refl, f)
]

synced-StaysOn :
    (s : ShellState)
    → s.active_tab_ref ≡ s.active_tab
    → has_unsaved s ≡ true
    → StaysOn s.active_tab (leave_panels (sync_tab false s))
unfolding sync_tab leave_panels
synced-StaysOn s e unsaved = elim (Bool-cases (can_leave false (requested_tab s.url_tab) s)) [
  | inl goes ↦
      let on : requested_tab s.url_tab ≡ s.active_tab =
        unconfirmed (requested_tab s.url_tab) s unsaved goes ∙ e in
      rw goes (on, on)
  | inr stays ↦ rw stays (refl, requested_tab-tab_text s.active_tab_ref ∙ e)
]

-- A step in which the question about unsaved changes is refused leaves a page with unsaved changes on
-- its tab, and the address names that tab again, also where the browser had gone to another.
pub Step-StaysOn :
    {s t : ShellState} → IsInStep s → has_unsaved s ≡ true → Step false s t → StaysOn s.active_tab t
unfolding continue_conversation report_settings report_accounts resume_handled begin_login
    login_ended login_failed
Step-StaysOn {s} h unsaved (chooses tab) = chosen-StaysOn tab s h.same h.addressed unsaved
Step-StaysOn {s} h unsaved (moves url) = synced-StaysOn (record s { url_tab = url }) h.same unsaved
Step-StaysOn {s} h unsaved (continues id) =
    chosen-StaysOn tester (record s { resume_conversation_id = id }) h.same h.addressed unsaved
Step-StaysOn {s} h unsaved (edits_settings dirty on) = (refl, h.addressed)
Step-StaysOn {s} h unsaved (edits_accounts dirty on) = (refl, h.addressed)
Step-StaysOn {s} h unsaved resumes = (refl, h.addressed)
Step-StaysOn {s} h unsaved logs_in = (refl, h.addressed)
Step-StaysOn {s} h unsaved enters = (refl, h.addressed)
Step-StaysOn {s} h unsaved (is_refused cause) = (refl, h.addressed)
