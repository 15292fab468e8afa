-- ===== src/Accounts/Editing/Limits.antt =====
-- Histories of the drafts: refreshes, edits, saves and discards in any order. Every limit that the panel
-- holds or sends lets at least one request run.
use gx_notion2api.Prelude.{
  ℕ, is_present, ◌≤◌, Bool, Option, none, some, List, [], ◌∷◌, Text, All, lookup, insert, arith,
  text_eq, Bool-cases, inl, inr, ℤ, pos, negsuc,
}
use gx_notion2api.Types.Accounts.{AccountItem, WorkspaceItem}
use gx_notion2api.Accounts.Items.{
  AccountEditState, Edits, edit_of_limits, add_workspaces, add_limits, add_account, add_accounts,
  build_account_edit_map, workspace_items,
}
use gx_notion2api.Accounts.Drafts.{keep_draft, merge_drafts}
use gx_notion2api.Accounts.Panel.{AccountsProps, AccountsState}
use gx_notion2api.Accounts.Selection.{
  selected_edit, selected_account, selected_workspace, edit_or, edit_of_selected, limits_of,
}
use gx_notion2api.Accounts.Editing.{Patch, priority, hourly_quota, max_concurrency, patched}

module _ {ℓ κ} {V : Type ℓ} (P : V → Type κ) where
  -- `P` holds of the value, if there is one.
  abbrev pub IsAll : Option V → Type κ
  IsAll none = Unit
  IsAll (some v) = P v

  abbrev pub Holds : List (Text × V) → Type κ
  Holds m = All (λ entry. P entry.1) m

  pub lookup-Holds : (key : Text) (m : List (Text × V)) → Holds m → IsAll (lookup key m)
  unfolding lookup
  lookup-Holds key [] h = tt
  lookup-Holds key ((k, v) ∷ m) (p, h) = elim (Bool-cases (text_eq k key)) [
    | inl same ↦ rw same p
    | inr other ↦ rw other (lookup-Holds key m h)
  ]

  pub insert-Holds :
      (key : Text) (v : V) (m : List (Text × V)) → P v → Holds m → Holds (insert key v m)
  unfolding insert
  insert-Holds key v [] p h = (p, tt)
  insert-Holds key v ((k, w) ∷ m) p (q, h) = elim (Bool-cases (text_eq k key)) [
    | inl same ↦ rw same (p, h)
    | inr other ↦ rw other (q, insert-Holds key v m p h)
  ]

  kept-Holds :
      (eq : V → V → Bool) (current previous : Option V) (value : V)
      → IsAll current
      → P value
      → P (keep_draft eq current previous value)
  kept-Holds eq none previous value h p = p
  kept-Holds eq (some c) none value h p = h
  kept-Holds eq (some c) (some b) value h p = elim (Bool-cases (eq c b)) [
    | inl same ↦ rw same p
    | inr other ↦ rw other h
  ]

  pub merge_drafts-Holds :
      (eq : V → V → Bool) (current previous next : List (Text × V))
      → Holds current
      → Holds next
      → Holds (merge_drafts eq current previous next)
  unfolding merge_drafts
  merge_drafts-Holds eq current previous [] h k = tt
  merge_drafts-Holds eq current previous ((key, value) ∷ next) h (p, k) = (
    kept-Holds eq (lookup key current) (lookup key previous) value (lookup-Holds key current h) p,
    merge_drafts-Holds eq current previous next h k,
  )

-- The limit lets at least one request run.
abbrev pub LetsRun : AccountEditState → Type 0
LetsRun edit = 1 ≤ edit.max_concurrency

abbrev LetRun : Edits → Type 0
LetRun edits = Holds LetsRun edits

edit_of_limits-LetsRun : (p : Option ℤ) (q c : Option ℕ) → LetsRun (edit_of_limits p q c)
unfolding edit_of_limits
edit_of_limits-LetsRun p q none = omega arith
edit_of_limits-LetsRun p q (some n) = ground arith

add_workspaces-LetRun :
    (email : Text) (ws : List WorkspaceItem) (edits : Edits)
    → LetRun edits
    → LetRun (add_workspaces email ws edits)
unfolding add_workspaces
add_workspaces-LetRun email [] edits h = h
add_workspaces-LetRun email (w ∷ ws) edits h = add_workspaces-LetRun email ws _ (
    insert-Holds LetsRun _ _ edits
      (edit_of_limits-LetsRun w.priority w.hourly_quota w.max_concurrency) h)

add_limits-LetRun :
    (item : AccountItem) (email : Text) (ws : List WorkspaceItem) (edits : Edits)
    → LetRun edits
    → LetRun (add_limits item email ws edits)
add_limits-LetRun item email [] edits h =
    insert-Holds LetsRun _ _ edits
      (edit_of_limits-LetsRun item.priority item.hourly_quota item.max_concurrency) h
add_limits-LetRun item email (w ∷ ws) edits h = add_workspaces-LetRun email (w ∷ ws) edits h

add_account-LetRun :
    (item : AccountItem) (email : Option Text) (edits : Edits)
    → LetRun edits
    → LetRun (add_account item email edits)
add_account-LetRun item none edits h = h
add_account-LetRun item (some email) edits h = elim (Bool-cases (is_present email)) [
  | inl given ↦ rw given (add_limits-LetRun item email (workspace_items item) edits h)
  | inr empty ↦ rw empty h
]

add_accounts-LetRun :
    (items : List AccountItem) (edits : Edits) → LetRun edits → LetRun (add_accounts items edits)
unfolding add_accounts
add_accounts-LetRun [] edits h = h
add_accounts-LetRun (item ∷ items) edits h =
    add_accounts-LetRun items (add_account item item.email edits)
      (add_account-LetRun item item.email edits h)

pub build_account_edit_map-LetRun :
    (items : List AccountItem) → Holds LetsRun (build_account_edit_map items)
unfolding build_account_edit_map
build_account_edit_map-LetRun items = add_accounts-LetRun items [] tt

pub edit_or-LetsRun :
    (o : Option AccountEditState) (edit : AccountEditState)
    → IsAll LetsRun o
    → LetsRun edit
    → LetsRun (edit_or o edit)
edit_or-LetsRun none edit h k = k
edit_or-LetsRun (some e) edit h k = h

limits_of-LetsRun : (w : Option WorkspaceItem) (a : Option AccountItem) → LetsRun (limits_of w a)
limits_of-LetsRun none none = edit_of_limits-LetsRun none none none
limits_of-LetsRun none (some a) = edit_of_limits-LetsRun a.priority a.hourly_quota a.max_concurrency
limits_of-LetsRun (some w) none = edit_of_limits-LetsRun w.priority w.hourly_quota w.max_concurrency
limits_of-LetsRun (some w) (some a) = edit_of_limits-LetsRun _ _ _

edit_of_selected-LetsRun :
    (a : Option AccountItem) (w : Option WorkspaceItem) (edits : Edits)
    → LetRun edits
    → LetsRun (edit_of_selected a w edits)
edit_of_selected-LetsRun none w edits h = limits_of-LetsRun w none
edit_of_selected-LetsRun (some a) w edits h =
    edit_or-LetsRun _ (limits_of w (some a)) (lookup-Holds LetsRun _ edits h)
      (limits_of-LetsRun w (some a))

pub selected_edit-LetsRun :
    (props : AccountsProps) (s : AccountsState)
    → Holds LetsRun s.account_edits
    → LetsRun (selected_edit props s)
unfolding selected_edit
selected_edit-LetsRun props s h =
    edit_of_selected-LetsRun (selected_account props s) (selected_workspace props s) s.account_edits
      h

pub patched-LetsRun :
    (patch : Patch) (edit : AccountEditState) → LetsRun edit → LetsRun (patched patch edit)
unfolding patched
patched-LetsRun (priority n) edit h = h
patched-LetsRun (hourly_quota n) edit h = h
patched-LetsRun (max_concurrency (pos n)) edit h = ground arith
patched-LetsRun (max_concurrency (negsuc n)) edit h = omega arith
