-- ===== src/Chat/Quotas.antt =====
-- The quota indicator of frontend/components/admin/chat-workspace.tsx. Times are milliseconds. `run`
-- counts the runs of the effect, each of which cancels the read of the run before it. The reads are
-- split at their requests; what is computed from a report is left out.
pub mod Reads
use gx_notion2api.Prelude.{
  message_or, ℕ, ◌+◌, Bool, true, false, not, ◌&&◌, ◌||◌, Option, none, some, List, [], ◌∷◌, ◌++◌,
  Text, txt, if◌then◌else◌, leb, nat_eq, text_eq, is_present, or_text, any, keep,
}
use gx_notion2api.Types.Usage.{AiUsageReport}
use gx_notion2api.Chat.Targets.{ChatTarget}

abbrev pub quota_force_min_interval_ms : ℕ
quota_force_min_interval_ms = 60000

pub record QuotaState : Type 0 where
  pub quota : Option AiUsageReport
  pub quota_key : Text
  pub quota_rows : Option (List AiUsageReport)
  pub quota_loading : Bool
  pub quota_rows_loading : Bool
  pub quota_open : Bool
  pub quota_error : Text
  pub quota_revision : ℕ
  pub quota_forced_at : ℕ
  pub quota_force_next : Bool
  pub run : ℕ

unfoldable pub initial_quota : QuotaState
initial_quota = record {
  quota = none;
  quota_key = [];
  quota_rows = none;
  quota_loading = false;
  quota_rows_loading = false;
  quota_open = false;
  quota_error = [];
  quota_revision = 0;
  quota_forced_at = 0;
  quota_force_next = false;
  run = 0;
}

-- `effectiveWorkspaceKey`
unfoldable pub workspace_key : Option ChatTarget → Text
workspace_key none = []
workspace_key (some target) = target.email ++ (0 ∷ target.workspace_id)

-- `activeQuota`
unfoldable pub active_quota : Text → QuotaState → Option AiUsageReport
active_quota key s = if is_present key && text_eq s.quota_key key then s.quota else none

-- `loadQuotaRows` up to its request
unfoldable pub load_quota_rows : QuotaState → QuotaState
load_quota_rows s = record s { quota_rows_loading = true; quota_error = [] }

-- `eligible.has(row.email + ':' + row.space_id)`
abbrev pub names_row : AiUsageReport → ChatTarget → Bool
names_row row target =
    text_eq (target.email ++ (58 ∷ target.workspace_id))
      (row.email ++ (58 ∷ or_text row.space_id []))

abbrev pub has_space : Option Text → Bool
has_space none = false
has_space (some id) = is_present id

unfoldable pub quota_rows_came : List ChatTarget → List AiUsageReport → QuotaState → QuotaState
quota_rows_came targets accounts s = record s {
  quota_rows = some (keep (λ row. has_space row.space_id && any (names_row row) targets) accounts);
  quota_rows_loading = false;
}

unfoldable pub quota_rows_failed : Option Text → QuotaState → QuotaState
quota_rows_failed cause s = record s {
  quota_error = message_or cause (txt "额度读取失败");
  quota_rows_loading = false;
}

-- The next read is a forced one, if the last was forced a minute ago.
unfoldable pub mark_forced : ℕ → QuotaState → QuotaState
mark_forced now s =
    if leb (s.quota_forced_at + quota_force_min_interval_ms) now
    then record s { quota_forced_at = now; quota_force_next = true }
    else s

abbrev pub with_revision : QuotaState → QuotaState
with_revision s = record s { quota_revision = s.quota_revision + 1 }

-- `refreshQuota`
unfoldable pub refresh_quota : ℕ → Option ChatTarget → QuotaState → QuotaState
unfolding mark_forced load_quota_rows
refresh_quota now none s = if s.quota_open then load_quota_rows s else s
refresh_quota now (some target) s = with_revision (mark_forced now s)

abbrev pub is_none : Option ChatTarget → Bool
is_none none = true
is_none (some target) = false

-- `toggleQuota`
unfoldable pub toggle_quota : Option ChatTarget → QuotaState → QuotaState
unfolding load_quota_rows
toggle_quota target s =
    let toggled : QuotaState = record s { quota_open = not s.quota_open } in
    if not s.quota_open && is_none target then load_quota_rows toggled else toggled

-- A read of the effect: the run that asks, the key and the workspace it asks for, and whether it is forced
pub record QuotaRead : Type 0 where
  pub number : ℕ
  pub key : Text
  pub email : Text
  pub workspace : Text
  pub force : Bool

abbrev pub begin_run : QuotaState → QuotaState
begin_run s = record s { run = s.run + 1 }

abbrev pub ask_for : ChatTarget → QuotaState → QuotaState × Option QuotaRead
ask_for target s = (
  record s { quota_force_next = false; quota_loading = true; quota_error = [] },
  some (record {
    number = s.run;
    key = target.email ++ (0 ∷ target.workspace_id);
    email = target.email;
    workspace = target.workspace_id;
    force = s.quota_force_next;
  }),
)

abbrev pub no_email : QuotaState → QuotaState
no_email s = record s {
  quota = none;
  quota_loading = false;
  quota_error = txt "该工作区所属账号缺少邮箱，无法读取额度";
}

abbrev pub without_quota : QuotaState → QuotaState
without_quota s = record s { quota = none }

-- The effect, past the cancelling of the run before it, up to its request
unfoldable pub run_quota_effect :
    Bool → Option ChatTarget → QuotaState → QuotaState × Option QuotaRead
run_quota_effect visible none s = (without_quota (begin_run s), none)
run_quota_effect visible (some target) s =
    if visible
    then (if is_present target.email
        then ask_for target (begin_run s)
        else (no_email (begin_run s), none))
    else (without_quota (begin_run s), none)

-- A forced read that the server served from its cache does not count.
abbrev pub declined : QuotaRead → AiUsageReport → Bool
declined read report = read.force && report.cached

-- Its request, answered
unfoldable pub quota_came : QuotaRead → AiUsageReport → QuotaState → QuotaState
quota_came read report s =
    if nat_eq read.number s.run
    then record s {
      quota_forced_at = if declined read report then 0 else s.quota_forced_at;
      quota = some report;
      quota_key = read.key;
      quota_loading = false;
    }
    else s

unfoldable pub quota_failed : QuotaRead → Option Text → QuotaState → QuotaState
quota_failed read cause s =
    if nat_eq read.number s.run
    then record s { quota_error = message_or cause (txt "额度读取失败"); quota_loading = false }
    else s
