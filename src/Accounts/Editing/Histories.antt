-- ===== src/Accounts/Editing/Histories.antt =====
-- Histories of the drafts in frontend/components/admin/accounts-panel.tsx: refreshes, edits, saves, and
-- their answers, in any order.
use gx_notion2api.Prelude.{Bool, Option, none, some, List, ◌∷◌, Text, All, Bool-cases, inl, inr}
use gx_notion2api.Accounts.Items.{AccountEditState, workspace_edit_key}
use gx_notion2api.Accounts.Drafts.{edit_eq}
use gx_notion2api.Accounts.Panel.{
  AccountsProps, AccountsState, adopt_items, choose_selected_workspace,
}
use gx_notion2api.Accounts.Selection.{selected_edit}
use gx_notion2api.Accounts.Editing.{
  Patch, update_workspace_edit, set_disabled, discard_drafts, AccountSettings, begin_save_account,
  account_saved, account_not_saved, populate_email,
}
use gx_notion2api.Accounts.Editing.Limits.{
  Holds, LetsRun, lookup-Holds, insert-Holds, merge_drafts-Holds, build_account_edit_map-LetRun,
  edit_or-LetsRun, selected_edit-LetsRun, patched-LetsRun,
}

-- `sent` are all saves that were sent so far; any of them may be answered, also late.
pub record System : Type 0 where
  pub panel : AccountsState
  pub sent : List AccountSettings

abbrev pub and_sent : Option AccountSettings → List AccountSettings → List AccountSettings
and_sent none sent = sent
and_sent (some settings) sent = settings ∷ sent

pub data IsSent (settings : AccountSettings) : List AccountSettings → Type 0 where
  newest : {sent : List AccountSettings} → IsSent settings (settings ∷ sent)
  older :
      {sent : List AccountSettings} {other : AccountSettings}
      → IsSent settings sent
      → IsSent settings (other ∷ sent)

pub data Step (s : System) : System → Type 0 where
  refreshes : (props : AccountsProps) → Step s (record s { panel = adopt_items props s.panel })
  chooses :
      (props : AccountsProps)
      → Step s (record s { panel = choose_selected_workspace props s.panel })
  selects :
      (props : AccountsProps) (email : Text)
      → Step s (record s { panel = populate_email props email s.panel })
  edits :
      (props : AccountsProps) (email : Text) (id : Option Text) (patch : Patch)
      → Step s (record s { panel = update_workspace_edit props email id patch s.panel })
  disables :
      (email : Text) (checked : Bool)
      → Step s (record s { panel = set_disabled email checked s.panel })
  discards : Step s (record s { panel = discard_drafts s.panel })
  saves :
      (props : AccountsProps) (email : Text) (id : Option Text) (disabled : Bool)
      → Step s (record {
        panel = (begin_save_account email id (selected_edit props s.panel) disabled s.panel).0;
        sent =
            and_sent
              (begin_save_account email id (selected_edit props s.panel) disabled s.panel).1
              s.sent;
      })
  answers :
      (settings : AccountSettings)
      → IsSent settings s.sent
      → Step s (record s { panel = account_saved settings s.panel })
  refuses : (cause : Option Text) → Step s (record s { panel = account_not_saved cause s.panel })

pub data Reach (s : System) : System → Type 0 where
  here : Reach s s
  next : {t u : System} → Reach s t → Step t u → Reach s u

-- Every draft, every baseline and every save that was sent lets at least one request run.
pub record IsRunnable (s : System) : Type 0 where
  pub drafts : Holds LetsRun s.panel.account_edits
  pub baseline : Holds LetsRun s.panel.edit_baseline
  pub sent_limits : All (λ settings. LetsRun settings.limits) s.sent

sent-LetsRun :
    {settings : AccountSettings} {sent : List AccountSettings}
    → IsSent settings sent
    → All (λ other. LetsRun other.limits) sent
    → LetsRun settings.limits
sent-LetsRun newest (h, hs) = h
sent-LetsRun (older found) (h, hs) = sent-LetsRun found hs

saved-IsRunnable :
    (s : System) (email : Text) (id : Option Text) (edit : AccountEditState) (disabled : Bool)
    → LetsRun edit
    → IsRunnable s
    → IsRunnable (record {
      panel = (begin_save_account email id edit disabled s.panel).0;
      sent = and_sent (begin_save_account email id edit disabled s.panel).1 s.sent;
    })
unfolding begin_save_account
saved-IsRunnable s email id edit disabled h r = elim (Bool-cases s.panel.saving_account) [
  | inl busy ↦
      rw busy (record { drafts = r.drafts; baseline = r.baseline; sent_limits = r.sent_limits })
  | inr idle ↦
      rw idle
        (record { drafts = r.drafts; baseline = r.baseline; sent_limits = (h, r.sent_limits) })
]

Step-IsRunnable : {s t : System} → Step s t → IsRunnable s → IsRunnable t
unfolding adopt_items choose_selected_workspace populate_email update_workspace_edit set_disabled
    discard_drafts account_saved account_not_saved
Step-IsRunnable {s} (refreshes props) h = record {
  drafts =
      merge_drafts-Holds LetsRun edit_eq s.panel.account_edits s.panel.edit_baseline _ h.drafts
        (build_account_edit_map-LetRun props.items);
  baseline = build_account_edit_map-LetRun props.items;
  sent_limits = h.sent_limits;
}
Step-IsRunnable {s} (chooses props) h = record {
  drafts = h.drafts;
  baseline = h.baseline;
  sent_limits = h.sent_limits;
}
Step-IsRunnable {s} (selects props email) h = record {
  drafts = h.drafts;
  baseline = h.baseline;
  sent_limits = h.sent_limits;
}
Step-IsRunnable {s} (edits props email id patch) h = record {
  drafts =
      insert-Holds LetsRun _ _ s.panel.account_edits
        (patched-LetsRun patch _ (
          edit_or-LetsRun _ (selected_edit props s.panel)
            (lookup-Holds LetsRun (workspace_edit_key email id) s.panel.account_edits h.drafts)
            (selected_edit-LetsRun props s.panel h.drafts)))
        h.drafts;
  baseline = h.baseline;
  sent_limits = h.sent_limits;
}
Step-IsRunnable {s} (disables email checked) h = record {
  drafts = h.drafts;
  baseline = h.baseline;
  sent_limits = h.sent_limits;
}
Step-IsRunnable {s} discards h = record {
  drafts = h.baseline;
  baseline = h.baseline;
  sent_limits = h.sent_limits;
}
Step-IsRunnable {s} (saves props email id disabled) h =
    saved-IsRunnable s email id (selected_edit props s.panel) disabled
      (selected_edit-LetsRun props s.panel h.drafts) h
Step-IsRunnable {s} (answers settings found) h = record {
  drafts =
      insert-Holds LetsRun _ _ s.panel.account_edits
        (edit_or-LetsRun _ settings.limits
          (lookup-Holds LetsRun (workspace_edit_key settings.email settings.workspace_id)
            s.panel.edit_baseline h.baseline)
          (sent-LetsRun found h.sent_limits))
        h.drafts;
  baseline = h.baseline;
  sent_limits = h.sent_limits;
}
Step-IsRunnable {s} (refuses cause) h = record {
  drafts = h.drafts;
  baseline = h.baseline;
  sent_limits = h.sent_limits;
}

-- Where every draft, every baseline and every save that was sent has a limit of at least one concurrent
-- request, this is so after every history of refreshes, edits, saves, answers and discards, whatever
-- the accounts say and whatever is typed.
pub Reach-IsRunnable : {s t : System} → IsRunnable s → Reach s t → IsRunnable t
Reach-IsRunnable h here = h
Reach-IsRunnable h (next r step) = Step-IsRunnable step (Reach-IsRunnable h r)
