-- ===== src/Accounts/Drafts.antt =====
-- The merging of drafts with refreshed values in frontend/components/admin/accounts-panel.tsx, for maps
-- of any values with a test of equality, and the two maps it is used for.
pub mod Merged
use gx_notion2api.Prelude.{
  ℕ, Bool, true, false, not, ◌&&◌, Option, none, some, List, [], ◌∷◌, Text, if◌then◌else◌, lookup,
  any, nat_eq, int_eq,
}
use gx_notion2api.Accounts.Items.{AccountEditState}

-- `JSON.stringify(left) === JSON.stringify(right)`
unfoldable pub edit_eq : AccountEditState → AccountEditState → Bool
edit_eq left right =
    int_eq left.priority right.priority
    && nat_eq left.hourly_quota right.hourly_quota
    && nat_eq left.max_concurrency right.max_concurrency

abbrev pub bool_eq : Bool → Bool → Bool
bool_eq true b = b
bool_eq false b = not b

module _ {ℓ} {V : Type ℓ} (eq : V → V → Bool) where
  -- A value that is there and differs from its baseline is kept.
  abbrev pub keep_draft : Option V → Option V → V → V
  keep_draft none previous value = value
  keep_draft (some current) none value = current
  keep_draft (some current) (some previous) value = if eq current previous then value else current

  -- `Object.fromEntries(Object.entries(next).map(…))`
  unfoldable pub merge_drafts :
      List (Text × V) → List (Text × V) → List (Text × V) → List (Text × V)
  merge_drafts current previous [] = []
  merge_drafts current previous ((key, value) ∷ next) =
      (key, keep_draft (lookup key current) (lookup key previous) value)
      ∷ merge_drafts current previous next

  abbrev pub differs : Option V → V → Bool
  differs none value = true
  differs (some previous) value = not (eq value previous)

  -- `Object.entries(current).some(([key, value]) => value !== baseline[key])`
  unfoldable pub has_drafts : List (Text × V) → List (Text × V) → Bool
  unfolding any
  has_drafts baseline current = any (λ entry. differs (lookup entry.0 baseline) entry.1) current
