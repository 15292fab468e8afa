-- ===== src/Types/Policies.antt =====
-- The workspace model policy of frontend/lib/services/admin/types.ts.
use gx_notion2api.Prelude.{Bool, Option, List, Text}

pub data Scope : Type 0 where
  personal custom : Scope

pub data PolicyAction : Type 0 where
  lock restore clear : PolicyAction

pub record WorkspaceModelPolicy : Type 0 where
  pub disabled_models : List Text
  pub disabled_providers : List Text

pub record ModelPolicyRestorePoint : Type 0 where
  pub policy : WorkspaceModelPolicy
  pub present : Bool
  pub saved_at : Text

pub record PolicyModel : Type 0 where
  pub id : Text
  pub name : Text
  pub final_model : Option Text
  pub provider : Text
  pub available : Bool
  pub disabled_reason : Option Text
  pub allowed : Bool

pub record ModelPolicySnapshot : Type 0 where
  pub email : Text
  pub workspace_id : Text
  pub scope : Scope
  pub membership_type : Text
  pub can_edit : Bool
  pub policy : WorkspaceModelPolicy
  pub policy_present : Bool
  pub revision : Text
  pub models : List PolicyModel
  pub restore_point : Option ModelPolicyRestorePoint

pub record ModelPolicyEdit : Type 0 where
  pub email : Text
  pub workspace_id : Text
  pub scope : Scope
  pub revision : Text
  pub action : PolicyAction
  pub model_id : Option Text
