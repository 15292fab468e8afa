-- ===== src/Shell.antt =====
-- The frame of frontend/components/admin/admin-console.tsx: the tabs, the guard of unsaved changes, the
-- `tab` parameter of the address, and the login. `confirmed` is the answer of `window.confirm`. The
-- calls that the frame hands to the panels are those of the console hook, of the service and of here.
pub mod Tabs
use gx_notion2api.Prelude.{
  message_or, Bool, true, false, not, ◌&&◌, ◌||◌, Option, none, some, List, [], ◌∷◌, Text, txt,
  if◌then◌else◌, text_eq, or_text, flag,
}
use gx_notion2api.Types.Sessions.{AdminVerifyPayload}

pub data TabKey : Type 0 where
  dashboard tester conversations settings accounts models : TabKey

-- The keys of `TAB_LABEL`
abbrev pub tab_text : TabKey → Text
tab_text dashboard = txt "dashboard"
tab_text tester = txt "tester"
tab_text conversations = txt "conversations"
tab_text settings = txt "settings"
tab_text accounts = txt "accounts"
tab_text models = txt "models"

abbrev pub tab_label : TabKey → Text
tab_label dashboard = txt "状态"
tab_label tester = txt "聊天"
tab_label conversations = txt "会话"
tab_label settings = txt "设置"
tab_label accounts = txt "账号"
tab_label models = txt "模型"

-- `left === right`
unfoldable pub tab_eq : TabKey → TabKey → Bool
unfolding text_eq
tab_eq left right = text_eq (tab_text left) (tab_text right)

-- The tab whose key the text is, among those given
unfoldable pub tab_among : List TabKey → Text → Option TabKey
tab_among [] key = none
tab_among (tab ∷ tabs) key = if text_eq (tab_text tab) key then some tab else tab_among tabs key

abbrev pub all_tabs : List TabKey
all_tabs = dashboard ∷ tester ∷ conversations ∷ settings ∷ accounts ∷ models ∷ []

abbrev pub tab_or : Option TabKey → TabKey → TabKey
tab_or none tab = tab
tab_or (some tab) _ = tab

-- `value && hasOwnProperty.call(TAB_LABEL, value) ? value : 'tester'`
unfoldable pub requested_tab : Option Text → TabKey
unfolding tab_among
requested_tab none = tester
requested_tab (some value) = tab_or (tab_among all_tabs value) tester

-- `url_tab` is the parameter `tab` of the address.
pub record ShellState : Type 0 where
  pub active_tab : TabKey
  pub active_tab_ref : TabKey
  pub settings_dirty : Bool
  pub accounts_dirty : Bool
  pub url_tab : Option Text
  pub resume_conversation_id : Text
  pub login_busy : Bool
  pub login_message : Text

unfoldable pub initial_shell : Option Text → ShellState
initial_shell url = record {
  active_tab = tester;
  active_tab_ref = tester;
  settings_dirty = false;
  accounts_dirty = false;
  url_tab = url;
  resume_conversation_id = [];
  login_busy = false;
  login_message = [];
}

unfoldable pub report_settings : Bool → ShellState → ShellState
report_settings dirty s = record s { settings_dirty = dirty }

unfoldable pub report_accounts : Bool → ShellState → ShellState
report_accounts dirty s = record s { accounts_dirty = dirty }

-- `settingsDirty.current || accountsDirty.current`
abbrev pub has_unsaved : ShellState → Bool
has_unsaved s = s.settings_dirty || s.accounts_dirty

unfoldable pub can_leave : Bool → TabKey → ShellState → Bool
can_leave confirmed tab s = tab_eq tab s.active_tab_ref || (not (has_unsaved s) || confirmed)

unfoldable pub set_active_tab : Bool → TabKey → ShellState → ShellState
unfolding can_leave
set_active_tab confirmed tab s =
    if can_leave confirmed tab s
    then record s { active_tab_ref = tab; active_tab = tab; url_tab = some (tab_text tab) }
    else s

-- `sync`, on mounting and on `popstate`
unfoldable pub sync_tab : Bool → ShellState → ShellState
unfolding requested_tab can_leave
sync_tab confirmed s =
    let tab = requested_tab s.url_tab in
    if can_leave confirmed tab s
    then record s { active_tab_ref = tab; active_tab = tab }
    else record s { url_tab = some (tab_text s.active_tab_ref) }

-- Only the panel of the active tab is mounted; one that unmounts reports that nothing is unsaved.
unfoldable pub leave_panels : ShellState → ShellState
leave_panels s = record s {
  settings_dirty = s.settings_dirty && tab_eq s.active_tab settings;
  accounts_dirty = s.accounts_dirty && tab_eq s.active_tab accounts;
}

-- `onContinue`
unfoldable pub continue_conversation : Bool → Text → ShellState → ShellState
unfolding set_active_tab
continue_conversation confirmed id s =
    set_active_tab confirmed tester (record s { resume_conversation_id = id })

unfoldable pub resume_handled : ShellState → ShellState
resume_handled s = record s { resume_conversation_id = [] }

-- Does `onLogout` call `logout`?
unfoldable pub may_log_out : Bool → ShellState → Bool
may_log_out confirmed s = not (has_unsaved s && not confirmed)

unfoldable pub begin_login : ShellState → ShellState
begin_login s = record s { login_busy = true; login_message = [] }

unfoldable pub login_ended : ShellState → ShellState
login_ended s = record s { login_busy = false }

unfoldable pub login_failed : Option Text → ShellState → ShellState
login_failed cause s = record s {
  login_message = message_or cause (txt "登录失败");
  login_busy = false;
}

-- `shouldShowOverlay`
unfoldable pub should_show_overlay : Option AdminVerifyPayload → Bool
should_show_overlay none = false
should_show_overlay (some verify) = not (flag verify.authenticated)

-- `authState`
unfoldable pub auth_state : Option AdminVerifyPayload → Text
auth_state none = txt "未启用"
auth_state (some verify) =
    if flag verify.authenticated
    then txt "已认证"
    else if not (flag verify.admin_enabled)
    then txt "未启用"
    else if not (flag verify.password_configured)
    then txt "未配置密码"
    else txt "待登录"
