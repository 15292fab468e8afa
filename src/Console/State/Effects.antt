-- ===== src/Console/State/Effects.antt =====
-- What holds after the effects of a render.
use gx_notion2api.Prelude.{
  ◌≡◌, refl, true, false, ◌⊎◌, inl, inr, List, [], ◌∷◌, Text, arith, any, is_present, text_eq_refl,
  Bool-cases,
}
use gx_notion2api.Types.Conversations.{ConversationSummary}
use gx_notion2api.Console.Merging.{has_id}
use gx_notion2api.Console.State.{
  ConsoleState, first_id, is_authenticated, sync_refs, follow_authentication, repair_selection,
  run_effects,
}

-- The selected id is empty or names a conversation of the list.
abbrev pub HasValidSelection : ConsoleState → Type 0
HasValidSelection s =
    (s.selected_conversation_id ≡ [])
    ⊎ (any (has_id s.selected_conversation_id) s.conversations ≡ true)

pub first_id_valid :
    (items : List ConversationSummary)
    → (first_id items ≡ []) ⊎ (any (has_id (first_id items)) items ≡ true)
unfolding first_id any
first_id_valid [] = inl refl
first_id_valid (item ∷ items) = inr (rw text_eq_refl)

is_present_not : (t : Text) → is_present t ≡ false → t ≡ []
is_present_not [] h = refl
is_present_not (c ∷ t) h = absurd (omega (arith, t_not h))
  where
    t_not : true ≡ false → ⊥
    t_not e = cc

repair_selection-HasValidSelection : (s : ConsoleState) → HasValidSelection (repair_selection s)
unfolding repair_selection
repair_selection-HasValidSelection s = elim (Bool-cases (is_present s.selected_conversation_id)) [
  | inl given ↦ elim (Bool-cases (any (has_id s.selected_conversation_id) s.conversations)) [
    | inl found ↦ rw (given, found) (inr found)
    | inr lost ↦ rw (given, lost) (first_id_valid s.conversations)
  ]
  | inr empty ↦ rw empty (inl (is_present_not _ empty))
]

-- After the effects of a render the selection is empty or listed, the cache of details is mirrored in
-- its ref, the ref of the selection holds the selection of the render, and the stream is open exactly
-- when the operator is authenticated; the lists and the payloads are as before.
pub run_effects_lem :
    (s : ConsoleState)
    → HasValidSelection (run_effects s)
      × ((run_effects s).conversation_details_ref ≡ s.conversation_details)
      × ((run_effects s).selected_conversation_id_ref ≡ s.selected_conversation_id)
      × ((run_effects s).event_source ≡ is_authenticated s)
      × ((run_effects s).conversations ≡ s.conversations)
      × ((run_effects s).conversation_details ≡ s.conversation_details)
      × ((run_effects s).verify ≡ s.verify)
unfolding run_effects
run_effects_lem s = (
  repair_selection-HasValidSelection (follow_authentication (sync_refs s)),
  ground arith,
  ground arith,
  ground arith,
  ground arith,
  ground arith,
  ground arith,
)
