-- ===== src/Chat/Targets.antt =====
-- The workspaces and models that a turn may use, of frontend/components/admin/chat-workspace.tsx.
-- `Target` is what `targetID` gives, which is injective, and 'auto'.
pub mod Allowed
pub mod Models
use gx_notion2api.Prelude.{
  ℕ, Bool, true, false, not, ◌&&◌, ◌||◌, Option, none, some, List, [], ◌∷◌, ◌++◌, Text, txt, map,
  keep, find, text_eq, if◌then◌else◌, or_text, or_else, insert, flag, listed,
}
use gx_notion2api.Types.Models.{ModelItem}
use gx_notion2api.Types.Accounts.{
  AccountItem, WorkspaceItem, ModelCapabilities, Mode, manual, auto_only, unknown,
}

pub data Target : Type 0 where
  auto : Target
  workspace : Text → Text → Target

unfoldable pub target_eq : Target → Target → Bool
target_eq auto auto = true
target_eq (workspace email id) (workspace other_email other_id) =
    text_eq email other_email && text_eq id other_id
target_eq _ _ = false

abbrev pub is_auto : Target → Bool
is_auto auto = true
is_auto _ = false

pub record ChatTarget : Type 0 where
  pub id : Target
  pub email : Text
  pub workspace_id : Text
  pub name : Text
  pub tier : Text
  pub capability : Option ModelCapabilities
  pub disabled : Bool
  pub eligible : Bool

-- `value !== false`
abbrev pub not_false : Option Bool → Bool
not_false (some false) = false
not_false _ = true

unfoldable pub chat_target : AccountItem → WorkspaceItem → ChatTarget
chat_target account item = record {
  id = workspace (or_text account.email []) item.id;
  email = or_text account.email [];
  workspace_id = item.id;
  name = or_text item.name item.id;
  tier = or_text (or_else item.subscription_tier item.plan_type) (txt "套餐待确认");
  capability = item.model_capabilities;
  disabled = flag account.disabled;
  eligible = not (flag account.disabled) && flag item.eligible;
}

unfoldable pub all_targets : List AccountItem → List ChatTarget
unfolding chat_target
all_targets [] = []
all_targets (account ∷ accounts) =
    map (chat_target account) (listed account.workspaces) ++ all_targets accounts

unfoldable pub eligible_targets : List AccountItem → List ChatTarget
unfolding all_targets
eligible_targets accounts = keep (λ item. item.eligible) (all_targets accounts)

-- `list.find((item) => item.id === target)`
unfoldable pub find_target : Target → List ChatTarget → Option ChatTarget
find_target target items = find (λ item. target_eq item.id target) items

unfoldable pub model_targets : List AccountItem → Target → List ChatTarget
model_targets accounts target =
    if is_auto target
    then eligible_targets accounts
    else elim (find_target target (all_targets accounts)) [ none ↦ [] | some item ↦ item ∷ [] ]

abbrev pub manual_models : Option ModelCapabilities → List ModelItem
manual_models none = []
manual_models (some capability) = elim capability.mode [
  | manual ↦ listed capability.models
  | auto_only ↦ []
  | unknown ↦ []
]

unfoldable pub flat_models : List ChatTarget → List ModelItem
flat_models [] = []
flat_models (item ∷ items) = manual_models item.capability ++ flat_models items

-- `models.find((model) => model.id === item.id)?.enabled !== false`
abbrev pub found_enabled : Option ModelItem → Bool
found_enabled none = true
found_enabled (some model) = not_false model.enabled

unfoldable pub is_choosable : List ModelItem → ModelItem → Bool
is_choosable models item =
    not_false item.enabled
    && not (text_eq item.id (txt "auto"))
    && found_enabled (find (λ model. text_eq model.id item.id) models)

-- `new Map(items.map((item) => [item.id, item])).values()`: a later item takes an earlier one's place.
unfoldable pub by_id : List (Text × ModelItem) → List ModelItem → List (Text × ModelItem)
by_id entries [] = entries
by_id entries (item ∷ items) = by_id (insert item.id item entries) items

unfoldable pub entry_models : List (Text × ModelItem) → List ModelItem
entry_models [] = []
entry_models ((id, item) ∷ entries) = item ∷ entry_models entries

-- `{ id: 'auto', name: 'Auto' }`
abbrev pub auto_model : ModelItem
auto_model = record {
  default_reasoning_effort = none;
  supported_reasoning_efforts = none;
  disabled_reason = none;
  id = txt "auto";
  name = some (txt "Auto");
  family = none;
  group = none;
  notion_model = none;
  aliases = none;
  beta = none;
  enabled = none;
}

unfoldable pub available_models : List ModelItem → List AccountItem → Target → List ModelItem
unfolding is_choosable by_id entry_models flat_models model_targets
available_models models accounts target =
    auto_model
    ∷ entry_models
        (by_id [] (keep (is_choosable models) (flat_models (model_targets accounts target))))

-- `target === 'auto' ? null : boundTarget ?? null`
unfoldable pub effective_workspace : List AccountItem → Target → Option ChatTarget
effective_workspace accounts target =
    if is_auto target then none else find_target target (all_targets accounts)
