-- ===== src/Policy/Requests/Edits.antt =====
-- What an edit is sent for.
use gx_notion2api.Prelude.{◌≡◌, refl, sym, true, false, Option, none, some, [], arith, is_present}
use gx_notion2api.Types.Policies.{
  PolicyAction, lock, restore, clear, ModelPolicySnapshot, ModelPolicyEdit,
}
use gx_notion2api.Policy.{
  PolicyProps, PolicyState, update_policy, apply, apply_to, may_apply, edit_of, has_restore_point,
}
use gx_notion2api.Policy.Requests.{System, start, Reach}
use gx_notion2api.Policy.Requests.Safety.{IsSafe, none_awaited, policy-IsSafe}

-- The snapshot that an edit was made from, and what allowed the edit
pub record IsBasedOn (props : PolicyProps) (action : PolicyAction) (y : System)
    (e : ModelPolicyEdit) : Type 0 where
  pub value : ModelPolicySnapshot
  pub shown : y.state.snapshot ≡ some value
  pub revision : e.revision ≡ value.revision
  pub scope : e.scope ≡ value.scope
  pub editable : value.can_edit ≡ true
  pub idle : y.pending ≡ []
  pub warm : props.cooling_down ≡ false
  pub target : (action ≡ lock) → is_present y.state.model_id ≡ true
  pub restorable : (action ≡ restore) → has_restore_point value ≡ true

may_apply_lem :
    (action : PolicyAction) (value : ModelPolicySnapshot) (s : PolicyState)
    → may_apply action value s.model_id ≡ true
    → (value.can_edit ≡ true)
      × ((action ≡ lock) → is_present s.model_id ≡ true)
      × ((action ≡ restore) → has_restore_point value ≡ true)
unfolding may_apply
may_apply_lem lock value s h = (ground arith, λ _. ground arith, λ e. cc)
may_apply_lem restore value s h = (ground arith, λ e. cc, λ _. ground arith)
may_apply_lem clear value s h = (ground arith, λ e. cc, λ e. cc)

-- What `apply` sends, by the snapshot that it reads
apply_to_sends :
    (props : PolicyProps) (action : PolicyAction) (s : PolicyState) (o : Option ModelPolicySnapshot)
    (e : ModelPolicyEdit)
    → (apply_to props action s o).1 ≡ some (update_policy e)
    → (value : ModelPolicySnapshot) × (o ≡ some value)
      × (s.in_flight ≡ false)
      × (props.cooling_down ≡ false)
      × (may_apply action value s.model_id ≡ true)
      × (edit_of props action value s ≡ e)
apply_to_sends props action s none e sent = cc
apply_to_sends props action s (some value) e sent =
    (value, refl, ground arith, ground arith, ground arith, ground arith)

-- In every history in which the server answers about the scope it was asked about, an edit is sent
-- only when nothing else is awaited and the account is not cooling down, from a snapshot on screen
-- that may be edited, with that snapshot's revision and scope; a lock has a chosen model and a restore
-- has a restore point.
pub apply-IsBasedOn :
    {y : System} (props : PolicyProps) (action : PolicyAction) (e : ModelPolicyEdit)
    → Reach start y
    → (apply props action y.state).1 ≡ some (update_policy e)
    → IsBasedOn props action y e
unfolding apply
apply-IsBasedOn {y} props action e r sent =
    let (value, shown, idle, warm, allowed, made) =
      apply_to_sends props action y.state y.state.snapshot e sent in
    let (editable, target, restorable) = may_apply_lem action value y.state allowed in
    let safe : IsSafe y = policy-IsSafe r in
    let scoped : value.scope ≡ y.state.scope = rw shown at safe.scoped in
    record {
      value = value;
      shown = shown;
      revision = rw (← made) (unfold edit_of in refl);
      scope = rw (← made) (unfold edit_of in sym scoped);
      editable = editable;
      idle = none_awaited y.state.scope y.pending (rw idle at safe.single);
      warm = warm;
      target = target;
      restorable = restorable;
    }
