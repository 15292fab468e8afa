-- ===== src/Accounts/Editing/Saves.antt =====
-- What refreshes and saves do to the drafts of each workspace.
use gx_notion2api.Prelude.{
  ◌≡◌, refl, sym, ap, ◌∙◌, true, false, Option, none, some, [], ◌∷◌, ◌++◌, Text, txt, lookup,
  lookup-insert, text_eq, text_eq_iff, nat_eq, int_eq, int_eq_iff, arith, Bool-cases, inl, inr,
  if◌then◌else◌, or_text, All, ℤ,
}
use gx_notion2api.Accounts.Items.{AccountEditState, workspace_edit_key, build_account_edit_map}
use gx_notion2api.Accounts.Drafts.{edit_eq}
use gx_notion2api.Accounts.Drafts.Merged.{merged_entry, lookup-merge_drafts}
use gx_notion2api.Accounts.Panel.{AccountsProps, AccountsState, adopt_items}
use gx_notion2api.Accounts.Selection.{edit_or}
use gx_notion2api.Accounts.Editing.{AccountSettings, account_saved}

int_eq_refl : (n : ℤ) → int_eq n n ≡ true
int_eq_refl n = (int_eq_iff n n).1 refl

edit_eq_refl : (edit : AccountEditState) → edit_eq edit edit ≡ true
unfolding edit_eq
edit_eq_refl edit = ground (arith, int_eq_refl edit.priority)

-- After a refresh each workspace of the new accounts has its unsaved draft, if it has one, and else the
-- new value; a workspace that is gone has none.
pub lookup-adopt_items :
    (props : AccountsProps) (s : AccountsState) (key : Text)
    → lookup key (adopt_items props s).account_edits
      ≡ merged_entry edit_eq
          (lookup key s.account_edits)
          (lookup key s.edit_baseline)
          (lookup key (build_account_edit_map props.items))
unfolding adopt_items
lookup-adopt_items props s key =
    lookup-merge_drafts edit_eq key s.account_edits s.edit_baseline
      (build_account_edit_map props.items)

unfoldable pub key_of : AccountSettings → Text
key_of sent = workspace_edit_key sent.email sent.workspace_id

saved_edits :
    (sent : AccountSettings) (s : AccountsState) (key : Text)
    → lookup key (account_saved sent s).account_edits ≡ (
        if text_eq (key_of sent) key
        then some (edit_or (lookup (key_of sent) s.edit_baseline) sent.limits)
        else lookup key s.account_edits)
unfolding account_saved key_of
saved_edits sent s key = lookup-insert _ key _ s.account_edits

merged_baseline :
    (edit : AccountEditState) (value : Option AccountEditState)
    → merged_entry edit_eq (some edit) (some edit) value ≡ value
merged_baseline edit none = refl
merged_baseline edit (some value) = rw (edit_eq_refl edit) refl

same_entry :
    {c c' p p' : Option AccountEditState} (value : Option AccountEditState)
    → c ≡ c'
    → p ≡ p'
    → merged_entry edit_eq c p value ≡ merged_entry edit_eq c' p' value
same_entry value e f = rw (e, f) refl

kept_baseline :
    (sent : AccountSettings) (s : AccountsState)
    → (account_saved sent s).edit_baseline ≡ s.edit_baseline
unfolding account_saved
kept_baseline sent s = refl

-- A save that is answered and then refreshed shows what the server now has for the saved workspace, if
-- the panel knew that workspace; the drafts of all other workspaces come through as in a refresh alone.
pub adopt_items-account_saved :
    (props : AccountsProps) (s : AccountsState) (sent : AccountSettings) (known : AccountEditState)
    (key : Text)
    → lookup (key_of sent) s.edit_baseline ≡ some known
    → lookup key (adopt_items props (account_saved sent s)).account_edits ≡ (
        if text_eq (key_of sent) key
        then lookup key (build_account_edit_map props.items)
        else lookup key (adopt_items props s).account_edits)
adopt_items-account_saved props s sent known key e =
    let value = lookup key (build_account_edit_map props.items) in
    let before = lookup-adopt_items props (account_saved sent s) key in
    let baseline = ap (lookup key) (kept_baseline sent s) in
    elim (Bool-cases (text_eq (key_of sent) key)) [
      | inl same ↦
          let here = (text_eq_iff (key_of sent) key).0 same in
          let known_here : lookup key s.edit_baseline ≡ some known =
            ap (λ k. lookup k s.edit_baseline) (sym here) ∙ e in
          let now : lookup key (account_saved sent s).account_edits ≡ some known =
            saved_edits sent s key ∙ rw (same, e) refl in
          rw same
            (before ∙ same_entry value now (baseline ∙ known_here) ∙ merged_baseline known value)
      | inr other ↦
          let now : lookup key (account_saved sent s).account_edits ≡ lookup key s.account_edits =
            saved_edits sent s key ∙ rw other refl in
          rw other (before ∙ same_entry value now baseline ∙ sym (lookup-adopt_items props s key))
    ]

-- The code unit 0 is not in the text.
abbrev pub LacksZero : Text → Type 0
LacksZero t = All (λ c. nat_eq c 0 ≡ false) t

cut_same :
    (e f x y : Text) → LacksZero e → LacksZero f → e ++ 0 ∷ x ≡ f ++ 0 ∷ y → (e ≡ f) × (x ≡ y)
cut_same [] [] x y h k p = (refl, cc)
cut_same [] (c ∷ f) x y h (d, k) p = ground (arith, d, p)
cut_same (c ∷ e) [] x y (d, h) k p = ground (arith, d, p)
cut_same (c ∷ e) (d ∷ f) x y (a, h) (b, k) p =
    let tails : e ++ 0 ∷ x ≡ f ++ 0 ∷ y = cc in
    let heads : c ≡ d = cc in let (same, rest) = cut_same e f x y h k tails in (cc, rest)

-- Two drafts share a key only if they are of one account and one workspace, where no email has the code
-- unit 0; an account without a workspace counts as a workspace named `account`.
pub workspace_edit_key-injective :
    (email other : Text) (id other_id : Option Text)
    → LacksZero email
    → LacksZero other
    → workspace_edit_key email id ≡ workspace_edit_key other other_id
    → (email ≡ other) × (or_text id (txt "account") ≡ or_text other_id (txt "account"))
unfolding workspace_edit_key
workspace_edit_key-injective email other id other_id h k e =
    cut_same email other (or_text id (txt "account")) (or_text other_id (txt "account")) h k e
