-- ===== src/Policy.antt =====
-- The workspace model policy editor, of frontend/components/admin/workspace-model-policy.tsx: a state
-- machine whose two asynchronous calls are split at their awaits. `in_flight` and `alive` are the refs
-- `inFlight` and `alive`; messages are data, `Message`.
pub mod Requests
use gx_notion2api.Prelude.{
  ℕ, Bool, true, false, not, ◌&&◌, ◌||◌, Option, none, some, List, [], ◌∷◌, Text, is_present,
  text_eq, if◌then◌else◌, keep, find, length, nat_eq,
}
use gx_notion2api.Types.Policies.{
  Scope, personal, custom, PolicyAction, lock, restore, clear, PolicyModel, ModelPolicySnapshot,
  ModelPolicyEdit,
}

-- The texts that `message` takes. A thrown value that is no `Error` has no message, and the source
-- puts '读取失败', '保存失败' or '未知错误' in its place.
pub data Message : Type 0 where
  empty : Message
  read_failed : Option Text → Message
  save_failed : Option Text → Message
  succeeded refreshing refreshed : PolicyAction → Message
  refresh_failed : PolicyAction → Option Text → Message

-- The props that the calls read; `has_callback` tells whether `onPolicyChanged` is given.
pub record PolicyProps : Type 0 where
  pub email : Text
  pub workspace_id : Text
  pub cooling_down : Bool
  pub has_callback : Bool

pub record PolicyState : Type 0 where
  pub scope : Scope
  pub snapshot : Option ModelPolicySnapshot
  pub model_id : Text
  pub busy : Bool
  pub message : Message
  pub confirm_clear : Bool
  pub alive : Bool
  pub in_flight : Bool

abbrev pub opening : PolicyState
opening = record {
  scope = personal;
  snapshot = none;
  model_id = [];
  busy = false;
  message = empty;
  confirm_clear = false;
  alive = true;
  in_flight = false;
}

abbrev pub allowed_models : ModelPolicySnapshot → List PolicyModel
allowed_models value = keep (λ model. model.allowed) value.models

-- `allowed.length === 1 ? allowed[0].id : ''`
unfoldable pub only_id : List PolicyModel → Text
only_id [] = []
only_id (model ∷ []) = model.id
only_id (model ∷ other ∷ more) = []

unfoldable pub adopt : ModelPolicySnapshot → PolicyState → PolicyState
adopt value s = record s { snapshot = some value; model_id = only_id (allowed_models value) }

-- A request that the server gets
pub data Request : Type 0 where
  get_policy : Text → Text → Scope → Request
  update_policy : ModelPolicyEdit → Request

pub data Answer : Type 0 where
  answered : ModelPolicySnapshot → Answer
  thrown : Option Text → Answer

abbrev started : PolicyState → PolicyState
started s = record s { in_flight = true; busy = true; message = empty }

-- `finally { inFlight.current = false; if (alive.current) setBusy(false); }`
unfoldable pub finish : PolicyState → PolicyState
finish s = record s { in_flight = false; busy = if s.alive then false else s.busy }

-- `read` up to its await
unfoldable pub read : PolicyProps → PolicyState → PolicyState × Option Request
read props s =
    if s.in_flight || props.cooling_down
    then (s, none)
    else (started s, some (get_policy props.email props.workspace_id s.scope))

-- `read` after its await
unfoldable pub read_answered : Answer → PolicyState → PolicyState
unfolding adopt finish
read_answered (answered value) s = finish (if s.alive then adopt value s else s)
read_answered (thrown e) s =
    finish (if s.alive then record s { snapshot = none; message = read_failed e } else s)

abbrev pub is_lock : PolicyAction → Bool
is_lock lock = true
is_lock _ = false

abbrev pub is_restore : PolicyAction → Bool
is_restore restore = true
is_restore _ = false

abbrev pub has_restore_point : ModelPolicySnapshot → Bool
has_restore_point value = elim value.restore_point [ none ↦ false | some point ↦ true ]

-- The early returns of `apply` that look at the snapshot and the chosen model
unfoldable pub may_apply : PolicyAction → ModelPolicySnapshot → Text → Bool
may_apply action value model_id =
    value.can_edit
    && not (is_lock action && not (is_present model_id))
    && not (is_restore action && not (has_restore_point value))

unfoldable pub edit_of :
    PolicyProps → PolicyAction → ModelPolicySnapshot → PolicyState → ModelPolicyEdit
edit_of props action value s = record {
  email = props.email;
  workspace_id = props.workspace_id;
  scope = s.scope;
  revision = value.revision;
  action = action;
  model_id = if is_lock action then some s.model_id else none;
}

abbrev pub apply_to :
    PolicyProps
    → PolicyAction
    → PolicyState
    → Option ModelPolicySnapshot
    → PolicyState × Option Request
apply_to props action s none = (s, none)
apply_to props action s (some value) =
    if s.in_flight || props.cooling_down || not (may_apply action value s.model_id)
    then (s, none)
    else (started s, some (update_policy (edit_of props action value s)))

-- `apply` up to its first await
unfoldable pub apply : PolicyProps → PolicyAction → PolicyState → PolicyState × Option Request
unfolding may_apply edit_of
apply props action s = apply_to props action s s.snapshot

-- `apply` between its two awaits. The second part of the result tells whether `onPolicyChanged` is
-- awaited; if it is not, the call is over.
unfoldable pub apply_answered :
    PolicyProps → PolicyAction → Answer → PolicyState → PolicyState × Bool
unfolding adopt finish
apply_answered props action (thrown e) s =
    (finish (if s.alive then record s { snapshot = none; message = save_failed e } else s), false)
apply_answered props action (answered value) s =
    if not s.alive
    then (finish s, false)
    else if not props.has_callback
    then (finish (record (adopt value s) { message = succeeded action }), false)
    else (record (adopt value s) { message = refreshing action }, true)

-- What `onPolicyChanged` comes to
pub data Refresh : Type 0 where
  done : Refresh
  broken : Option Text → Refresh

-- `apply` after its second await
unfoldable pub policy_changed : PolicyAction → Refresh → PolicyState → PolicyState
unfolding finish
policy_changed action done s =
    finish (if s.alive then record s { message = refreshed action } else s)
policy_changed action (broken e) s =
    finish (if s.alive then record s { message = refresh_failed action e } else s)

-- The handler of the scope's selection
unfoldable pub select_scope : Scope → PolicyState → PolicyState
select_scope scope s =
    if s.in_flight
    then s
    else record s { scope = scope; snapshot = none; model_id = []; message = empty }

-- The selection of a model, the dialog of `clear`, and unmounting
unfoldable pub select_model : Text → PolicyState → PolicyState
select_model id s = record s { model_id = id }

unfoldable pub ask_clear : Bool → PolicyState → PolicyState
ask_clear shown s = record s { confirm_clear = shown }

unfoldable pub confirm : PolicyProps → PolicyState → PolicyState × Option Request
unfolding apply
confirm props s = apply props clear (record s { confirm_clear = false })

unfoldable pub unmount : PolicyState → PolicyState
unmount s = record s { alive = false }

abbrev pub can_edit : Option ModelPolicySnapshot → Bool
can_edit none = false
can_edit (some value) = value.can_edit

-- `snapshot?.can_edit && !coolingDown`
unfoldable pub is_editable : PolicyProps → PolicyState → Bool
is_editable props s = can_edit s.snapshot && not props.cooling_down

abbrev pub blocks_all : Option ModelPolicySnapshot → Bool
blocks_all none = false
blocks_all (some value) = value.policy_present && nat_eq (length (allowed_models value)) 0

-- `Boolean(snapshot?.policy_present) && allowed.length === 0`
unfoldable pub no_usable_model : PolicyState → Bool
no_usable_model s = blocks_all s.snapshot

abbrev pub model_with_id : Text → Option ModelPolicySnapshot → Option PolicyModel
model_with_id id none = none
model_with_id id (some value) = find (λ model. text_eq model.id id) value.models

-- `snapshot?.models.find((model) => model.id === modelID)`
unfoldable pub selected_model : PolicyState → Option PolicyModel
selected_model s = model_with_id s.model_id s.snapshot
