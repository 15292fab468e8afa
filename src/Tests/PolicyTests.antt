-- ===== src/Tests/PolicyTests.antt =====
-- The policy editor on a small catalogue.
use gx_notion2api.Prelude.{◌≡◌, refl, true, false, some, none, [], ◌∷◌, txt, keep}
use gx_notion2api.Types.Policies.{personal, lock, PolicyModel, ModelPolicySnapshot, ModelPolicyEdit}
use gx_notion2api.Policy.{PolicyProps, update_policy, answered, read, read_answered, apply, only_id}
use gx_notion2api.Policy.Requests.{
  System, start, Reach, reading, launch, here, next, read_called, read_came,
}
use gx_notion2api.Policy.Requests.Safety.{IsSafe, policy-IsSafe}
use gx_notion2api.Policy.Requests.Edits.{IsBasedOn, apply-IsBasedOn}

abbrev opus : PolicyModel
opus = record {
  id = txt "m1";
  name = txt "Opus";
  final_model = none;
  provider = txt "anthropic";
  available = true;
  disabled_reason = none;
  allowed = true;
}

abbrev catalogue : ModelPolicySnapshot
catalogue = record {
  email = txt "a@b.c";
  workspace_id = txt "w";
  scope = personal;
  membership_type = txt "owner";
  can_edit = true;
  policy = record { disabled_models = []; disabled_providers = [] };
  policy_present = false;
  revision = txt "r7";
  models = opus ∷ record opus { id = txt "m2"; allowed = false } ∷ [];
  restore_point = none;
}

abbrev props : PolicyProps
props = record {
  email = txt "a@b.c";
  workspace_id = txt "w";
  cooling_down = false;
  has_callback = true;
}

abbrev asked : System
asked = launch (reading personal) [] (read props start.state)

abbrev shown : System
shown = record { state = read_answered (answered catalogue) asked.state; pending = [] }

shown-Reach : Reach start shown
unfolding read
shown-Reach =
    next (next here (read_called props)) (read_came personal [] (answered catalogue) refl refl)

-- The only allowed model is chosen.
shown_model : shown.state.model_id ≡ txt "m1"
unfolding read read_answered only_id keep
shown_model = refl

policy-IsSafe_example : IsSafe shown
policy-IsSafe_example = policy-IsSafe shown-Reach

abbrev locking : ModelPolicyEdit
locking = record {
  email = txt "a@b.c";
  workspace_id = txt "w";
  scope = personal;
  revision = txt "r7";
  action = lock;
  model_id = some (txt "m1");
}

locking_sent : (apply props lock shown.state).1 ≡ some (update_policy locking)
unfolding read read_answered apply only_id keep
locking_sent = refl

apply-IsBasedOn_example : IsBasedOn props lock shown locking
apply-IsBasedOn_example = apply-IsBasedOn props lock locking shown-Reach locking_sent
