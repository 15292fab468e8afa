-- ===== src/Policy/Requests/Safety.antt =====
-- One request at a time, and edits only of what was read.
use gx_notion2api.Prelude.{
  ◌≡◌, refl, sym, subst, ◌∙◌, Bool, true, false, not, ◌||◌, Option, none, some, List, [], ◌∷◌,
  arith, inl, inr, Bool-cases, Option-cases, if◌then◌else◌,
}
use gx_notion2api.Types.Policies.{Scope, PolicyAction, clear, ModelPolicySnapshot}
use gx_notion2api.Policy.{
  PolicyProps, PolicyState, Answer, answered, thrown, Refresh, done, broken, Message, empty,
  succeeded, adopt, finish, read_failed, save_failed, refreshed, refresh_failed, read,
  read_answered, apply, apply_answered, policy_changed, select_scope, select_model, ask_clear,
  confirm, unmount, may_apply,
}
use gx_notion2api.Policy.Requests.{
  Pending, reading, applying, refreshing, System, launch, settle, IsAbout, start, Step, Reach, here,
  next, read_called, apply_called, clear_confirmed, read_came, apply_came, refresh_came,
  scope_selected, model_selected, clear_asked, unmounted,
}

abbrev pub AsksAbout : Scope → Pending → Type 0
AsksAbout scope (reading asked) = asked ≡ scope
AsksAbout scope (applying action asked) = asked ≡ scope
AsksAbout scope (refreshing action) = Unit

-- Nothing is awaited, or one call is.
abbrev pub IsSingle : Bool → Scope → List Pending → Type 0
IsSingle in_flight scope [] = in_flight ≡ false
IsSingle in_flight scope (await ∷ []) = (in_flight ≡ true) × AsksAbout scope await
IsSingle in_flight scope (await ∷ other ∷ more) = ⊥

abbrev pub IsScoped : Scope → Option ModelPolicySnapshot → Type 0
IsScoped scope none = Unit
IsScoped scope (some value) = value.scope ≡ scope

-- At most one call is awaited and `inFlight` tells whether one is; while mounted, `busy` tells it too;
-- and the snapshot is one of the selected scope.
pub record IsSafe (y : System) : Type 0 where
  pub single : IsSingle y.state.in_flight y.state.scope y.pending
  pub busy : y.state.alive ≡ true → y.state.busy ≡ y.state.in_flight
  pub scoped : IsScoped y.state.scope y.state.snapshot

pub none_awaited :
    (scope : Scope) (pending : List Pending) → IsSingle false scope pending → pending ≡ []
none_awaited scope [] h = refl
none_awaited scope (await ∷ []) h = absurd (differ h.0)
  where
    differ : false ≡ true → ⊥
    differ e = cc
none_awaited scope (await ∷ other ∷ more) h = elim h [ ]

read-IsSafe :
    (props : PolicyProps) (y : System)
    → IsSafe y
    → IsSafe (launch (reading y.state.scope) y.pending (read props y.state))
unfolding read
read-IsSafe props y h = elim (Bool-cases (y.state.in_flight || props.cooling_down)) [
  | inl held ↦ rw held (record { single = h.single; busy = h.busy; scoped = h.scoped })
  | inr free ↦
      let idle : y.state.in_flight ≡ false = ground arith in
      rw (free, none_awaited y.state.scope y.pending (rw idle at h.single))
        (record { single = (refl, refl); busy = λ _. refl; scoped = h.scoped })
]

module _ (props : PolicyProps) (action : PolicyAction) (s : PolicyState)
    (pending : List Pending) where
  abbrev system : System
  system = record { state = s; pending = pending }

  apply-IsSafe :
      IsSafe system → IsSafe (launch (applying action s.scope) pending (apply props action s))
  unfolding apply
  apply-IsSafe h = elim (Option-cases s.snapshot) [
    | inl missing ↦ rw missing (record { single = h.single; busy = h.busy; scoped = tt })
    | inr (value, held) ↦
        elim (Bool-cases
          (s.in_flight || props.cooling_down || not (may_apply action value s.model_id))) [
            | inl refused ↦
                rw (held, refused)
                  (record { single = h.single; busy = h.busy; scoped = rw held at h.scoped })
            | inr allowed ↦
                let idle : s.in_flight ≡ false = ground arith in
                rw (held, allowed, none_awaited s.scope pending (rw idle at h.single))
                  (record { single = (refl, refl); busy = λ _. refl; scoped = rw held at h.scoped })
          ]
  ]

awaited_alone :
    (b : Bool) (scope : Scope) (await : Pending) (rest : List Pending)
    → IsSingle b scope (await ∷ rest)
    → (rest ≡ []) × AsksAbout scope await
awaited_alone b scope await [] h = (refl, h.1)
awaited_alone b scope await (other ∷ more) h = elim h [ ]

-- A call that is over leaves nothing awaited.
finish-IsSafe :
    (s : PolicyState)
    → IsScoped s.scope s.snapshot
    → IsSafe (record { state = finish s; pending = [] })
unfolding finish
finish-IsSafe s h = record { single = refl; busy = λ alive. ground arith; scoped = h }

-- An update while mounted, and no update after unmounting
if_alive-IsSafe :
    (mounted : Bool) (s t : PolicyState)
    → IsScoped s.scope s.snapshot
    → IsScoped t.scope t.snapshot
    → IsSafe (record { state = finish (if mounted then t else s); pending = [] })
if_alive-IsSafe true s t h k = finish-IsSafe t k
if_alive-IsSafe false s t h k = finish-IsSafe s h

-- The three ways in which a write's answer goes on
written-IsSafe :
    (mounted waits : Bool) (action : PolicyAction) (gone over more : PolicyState)
    → IsScoped gone.scope gone.snapshot
    → IsScoped over.scope over.snapshot
    → (mounted ≡ true → IsSafe (record { state = more; pending = refreshing action ∷ [] }))
    → IsSafe (
        settle action [] (
          if not mounted
          then (finish gone, false)
          else if not waits
          then (finish over, false)
          else (more, true)))
written-IsSafe false waits action gone over more g o m = finish-IsSafe gone g
written-IsSafe true false action gone over more g o m = finish-IsSafe over o
written-IsSafe true true action gone over more g o m = m refl

awaited_flies :
    (b : Bool) (scope : Scope) (await : Pending) (rest : List Pending)
    → IsSingle b scope (await ∷ rest)
    → b ≡ true
awaited_flies b scope await [] h = h.0
awaited_flies b scope await (other ∷ more) h = elim h [ ]

module _ (s : PolicyState) (scoped : IsScoped s.scope s.snapshot) where
  read_answered-IsSafe :
      (scope : Scope) (answer : Answer)
      → scope ≡ s.scope
      → IsAbout scope answer
      → IsSafe (record { state = read_answered answer s; pending = [] })
  unfolding read_answered adopt
  read_answered-IsSafe scope (answered value) asked about =
      if_alive-IsSafe s.alive s (adopt value s) scoped (about ∙ asked)
  read_answered-IsSafe scope (thrown e) asked about =
      if_alive-IsSafe s.alive s (record s { snapshot = none; message = read_failed e }) scoped tt

  policy_changed-IsSafe :
      (action : PolicyAction) (refresh : Refresh)
      → IsSafe (record { state = policy_changed action refresh s; pending = [] })
  unfolding policy_changed
  policy_changed-IsSafe action done =
      if_alive-IsSafe s.alive s (record s { message = refreshed action }) scoped scoped
  policy_changed-IsSafe action (broken e) =
      if_alive-IsSafe s.alive s (record s { message = refresh_failed action e }) scoped scoped

  apply_answered-IsSafe :
      (props : PolicyProps) (action : PolicyAction) (scope : Scope) (answer : Answer)
      → scope ≡ s.scope
      → s.in_flight ≡ true
      → (s.alive ≡ true → s.busy ≡ s.in_flight)
      → IsAbout scope answer
      → IsSafe (settle action [] (apply_answered props action answer s))
  unfolding apply_answered adopt
  apply_answered-IsSafe props action scope (thrown e) asked flying busy about =
      if_alive-IsSafe s.alive s (record s { snapshot = none; message = save_failed e }) scoped tt
  apply_answered-IsSafe props action scope (answered value) asked flying busy about =
      written-IsSafe s.alive props.has_callback action s
        (record (adopt value s) { message = succeeded action })
        (record (adopt value s) { message = Message.refreshing action }) scoped (about ∙ asked)
        λ mounted. record { single = (flying, tt); busy = busy; scoped = about ∙ asked }

-- A click that changes nothing of these facts
changed-IsSafe :
    (y : System) (t : PolicyState)
    → t.in_flight ≡ y.state.in_flight
    → t.scope ≡ y.state.scope
    → (t.alive ≡ true → y.state.alive ≡ true)
    → t.busy ≡ y.state.busy
    → t.snapshot ≡ y.state.snapshot
    → IsSafe y
    → IsSafe (record { state = t; pending = y.pending })
changed-IsSafe y t flying scope alive busy snapshot h = record {
  single = rw (flying, scope) h.single;
  busy = λ mounted. busy ∙ h.busy (alive mounted) ∙ sym flying;
  scoped = rw (scope, snapshot) h.scoped;
}

select_scope-IsSafe :
    (scope : Scope) (y : System)
    → IsSafe y
    → IsSafe (record { state = select_scope scope y.state; pending = y.pending })
unfolding select_scope
select_scope-IsSafe scope y h = elim (Bool-cases y.state.in_flight) [
  | inl flying ↦
      subst (λ b. IsSafe (record { state = if b then y.state else cleared; pending = y.pending }))
        (sym flying) h
  | inr idle ↦
      subst (λ b. IsSafe (record { state = if b then y.state else cleared; pending = y.pending }))
        (sym idle)
        (rw (none_awaited y.state.scope y.pending (rw idle at h.single))
          (record { single = idle; busy = h.busy; scoped = tt }))
]
  where
    cleared : PolicyState
    cleared = record y.state { scope = scope; snapshot = none; model_id = []; message = empty }

unmount-IsSafe :
    (y : System) → IsSafe y → IsSafe (record { state = unmount y.state; pending = y.pending })
unfolding unmount
unmount-IsSafe y h = record { single = h.single; busy = λ e. absurd (differ e); scoped = h.scoped }
  where
    differ : false ≡ true → ⊥
    differ e = cc

with_pending :
    (y : System) (pending : List Pending)
    → y.pending ≡ pending
    → IsSafe y
    → IsSafe (record { state = y.state; pending = pending })
with_pending y pending e h = record { single = rw e at h.single; busy = h.busy; scoped = h.scoped }

Step-IsSafe : {y z : System} → Step y z → IsSafe y → IsSafe z
unfolding select_model ask_clear confirm
Step-IsSafe {y} (read_called props) h = read-IsSafe props y h
Step-IsSafe {y} (apply_called props action) h = apply-IsSafe props action y.state y.pending h
Step-IsSafe {y} (clear_confirmed props) h =
    apply-IsSafe props clear (record y.state { confirm_clear = false }) y.pending
      (changed-IsSafe y (record y.state { confirm_clear = false }) refl refl (λ e. e) refl refl h)
Step-IsSafe {y} (read_came scope rest answer awaited about) h =
    let k = with_pending y (reading scope ∷ rest) awaited h in
    let (last, asked) =
      awaited_alone y.state.in_flight y.state.scope (reading scope) rest k.single in
    rw last (read_answered-IsSafe y.state h.scoped scope answer asked about)
Step-IsSafe {y} (apply_came props action scope rest answer awaited about) h =
    let k = with_pending y (applying action scope ∷ rest) awaited h in
    let (last, asked) =
      awaited_alone y.state.in_flight y.state.scope (applying action scope) rest k.single in
    rw last (
      apply_answered-IsSafe y.state h.scoped props action scope answer asked
        (awaited_flies y.state.in_flight y.state.scope (applying action scope) rest k.single) h.busy
        about)
Step-IsSafe {y} (refresh_came action rest refresh awaited) h =
    let k = with_pending y (refreshing action ∷ rest) awaited h in
    let (last, _) =
      awaited_alone y.state.in_flight y.state.scope (refreshing action) rest k.single in
    rw last (policy_changed-IsSafe y.state h.scoped action refresh)
Step-IsSafe {y} (scope_selected scope) h = select_scope-IsSafe scope y h
Step-IsSafe {y} (model_selected id) h =
    changed-IsSafe y (record y.state { model_id = id }) refl refl (λ e. e) refl refl h
Step-IsSafe {y} (clear_asked shown) h =
    changed-IsSafe y (record y.state { confirm_clear = shown }) refl refl (λ e. e) refl refl h
Step-IsSafe {y} unmounted h = unmount-IsSafe y h

-- However calls, answers, clicks and unmounting interleave, if the server answers about the scope it
-- was asked about: at most one call is awaited, `inFlight` tells whether one is and which scope it
-- asked about is the selected one, `busy` agrees with it while the editor is mounted, and the snapshot
-- on screen is one of the selected scope.
pub policy-IsSafe : {y : System} → Reach start y → IsSafe y
policy-IsSafe here = record { single = refl; busy = λ _. refl; scoped = tt }
policy-IsSafe (next r step) = Step-IsSafe step (policy-IsSafe r)
