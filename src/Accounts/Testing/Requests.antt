-- ===== src/Accounts/Testing/Requests.antt =====
-- What a quick test asks the server for.
use gx_notion2api.Prelude.{
  ◌≡◌, refl, subst, ◌⊎◌, true, false, Option, none, some, Text, txt, arith, Bool-cases, inl, inr,
  text_eq, text_eq_iff,
}
use gx_notion2api.Accounts.Panel.{AccountsProps, AccountsState}
use gx_notion2api.Accounts.Testing.Waiting.{Waits, Waits-quick_test_in_flight}
use gx_notion2api.Accounts.Testing.{
  QuickTest, id_or_default, is_supported, tested_model, quick_test, run_quick_test,
}

tested_model_lem :
    (props : AccountsProps) (email id model : Text)
    → (tested_model props email id model ≡ txt "auto")
      ⊎ (is_supported props email id (tested_model props email id model) ≡ true)
unfolding tested_model
tested_model_lem props email id model = elim (Bool-cases (text_eq model (txt "auto"))) [
  | inl auto ↦ inl (rw auto ((text_eq_iff model (txt "auto")).0 auto))
  | inr other ↦ elim (Bool-cases (is_supported props email id model)) [
    | inl fits ↦ inr (rw (other, fits) fits)
    | inr unfit ↦ inl (rw (other, unfit) refl)
  ]
]

abbrev pub IsFit : AccountsProps → QuickTest → Type 0
IsFit props sent =
    (sent.model ≡ txt "auto") ⊎ (is_supported props sent.email sent.workspace_id sent.model ≡ true)

refused :
    (props : AccountsProps) (email : Text) (id : Option Text) (s : AccountsState)
    → s.quick_test_in_flight ≡ true
    → (run_quick_test props email id s).1 ≡ none
unfolding run_quick_test
refused props email id s busy = ground (arith, busy)

quick_test-IsFit :
    (props : AccountsProps) (email id : Text) (s : AccountsState)
    → IsFit props (quick_test props email id s)
unfolding quick_test
quick_test-IsFit props email id s = tested_model_lem props email id s.quick_test_model

module _ (props : AccountsProps) (email : Text) (id : Option Text) (s : AccountsState)
    (sent : QuickTest) where
  quick_test_started :
      (run_quick_test props email id s).1 ≡ some sent
      → (s.quick_test_in_flight ≡ false)
        × (quick_test props email (id_or_default id s.quick_test_workspace_id) s ≡ sent)
        × ((run_quick_test props email id s).0.quick_test_in_flight ≡ true)
        × ((run_quick_test props email id s).0.quick_test_model ≡ sent.model)
  unfolding run_quick_test
  quick_test_started e =
      (ground (arith, e), ground (arith, e), ground (arith, e), ground (arith, e))

  -- A quick test is only sent while none is in flight. It names Auto, or a model that its workspace
  -- lets one choose, and the panel then shows that model. Whatever refreshes, choices, edits, saves,
  -- logins, imports and attempts at other tests follow, no other test is sent while the answer to this
  -- one has not come.
  pub run_quick_test_lem :
      (t : AccountsState) (later : AccountsProps) (other : Text) (other_id : Option Text)
      → (run_quick_test props email id s).1 ≡ some sent
      → Waits (run_quick_test props email id s).0 t
      → (s.quick_test_in_flight ≡ false)
        × ((sent.model ≡ txt "auto")
            ⊎ (is_supported props sent.email sent.workspace_id sent.model ≡ true))
        × ((run_quick_test props email id s).0.quick_test_model ≡ sent.model)
        × ((run_quick_test later other other_id t).1 ≡ none)
  run_quick_test_lem t later other other_id e waited =
      let (idle, made, busy, shown) = quick_test_started e in
      (
        idle,
        subst (IsFit props) made (quick_test-IsFit props email _ s),
        shown,
        refused later other other_id t (Waits-quick_test_in_flight waited busy),
      )
