-- ===== src/Policy/Requests.antt =====
-- The editor and its requests: calls, answers and clicks in any order. `pending` lists the awaits that
-- have not come back.
pub mod Safety
pub mod Edits
use gx_notion2api.Prelude.{
  ℕ, ◌≡◌, Bool, true, false, Option, none, some, List, [], ◌∷◌, Text, All, length, ◌⊎◌,
}
use gx_notion2api.Types.Policies.{Scope, PolicyAction, clear, ModelPolicySnapshot, ModelPolicyEdit}
use gx_notion2api.Policy.{
  PolicyProps, PolicyState, opening, Request, get_policy, update_policy, Answer, answered, thrown,
  Refresh, read, read_answered, apply, apply_answered, policy_changed, select_scope, select_model,
  ask_clear, confirm, unmount,
}

-- An await: of a read, of a write, or of the refresh after a write; the first two keep the scope that
-- they asked about.
pub data Pending : Type 0 where
  reading : Scope → Pending
  applying : PolicyAction → Scope → Pending
  refreshing : PolicyAction → Pending

pub record System : Type 0 where
  pub state : PolicyState
  pub pending : List Pending

abbrev pub launch : Pending → List Pending → PolicyState × Option Request → System
launch await pending (s, none) = record { state = s; pending = pending }
launch await pending (s, some request) = record { state = s; pending = await ∷ pending }

abbrev pub settle : PolicyAction → List Pending → PolicyState × Bool → System
settle action pending (s, false) = record { state = s; pending = pending }
settle action pending (s, true) = record { state = s; pending = refreshing action ∷ pending }

-- The server answers about the scope that it was asked about.
abbrev pub IsAbout : Scope → Answer → Type 0
IsAbout scope (answered value) = value.scope ≡ scope
IsAbout scope (thrown e) = Unit

abbrev pub start : System
start = record { state = opening; pending = [] }

pub data Step (y : System) : System → Type 0 where
  read_called :
      (props : PolicyProps) → Step y (launch (reading y.state.scope) y.pending (read props y.state))
  apply_called :
      (props : PolicyProps) (action : PolicyAction)
      → Step y (launch (applying action y.state.scope) y.pending (apply props action y.state))
  clear_confirmed :
      (props : PolicyProps)
      → Step y (launch (applying clear y.state.scope) y.pending (confirm props y.state))
  read_came :
      (scope : Scope) (rest : List Pending) (answer : Answer)
      → y.pending ≡ reading scope ∷ rest
      → IsAbout scope answer
      → Step y (record { state = read_answered answer y.state; pending = rest })
  apply_came :
      (props : PolicyProps) (action : PolicyAction) (scope : Scope) (rest : List Pending)
      (answer : Answer)
      → y.pending ≡ applying action scope ∷ rest
      → IsAbout scope answer
      → Step y (settle action rest (apply_answered props action answer y.state))
  refresh_came :
      (action : PolicyAction) (rest : List Pending) (refresh : Refresh)
      → y.pending ≡ refreshing action ∷ rest
      → Step y (record { state = policy_changed action refresh y.state; pending = rest })
  scope_selected :
      (scope : Scope) → Step y (record { state = select_scope scope y.state; pending = y.pending })
  model_selected :
      (id : Text) → Step y (record { state = select_model id y.state; pending = y.pending })
  clear_asked :
      (shown : Bool) → Step y (record { state = ask_clear shown y.state; pending = y.pending })
  unmounted : Step y (record { state = unmount y.state; pending = y.pending })

pub data Reach (y : System) : System → Type 0 where
  here : Reach y y
  next : {z w : System} → Reach y z → Step z w → Reach y w
