-- ===== src/Chat/Targets/Allowed.antt =====
-- Which models the picker may offer.
use gx_notion2api.Prelude.{
  ◌≡◌, ◌≢◌, refl, List, [], ◌∷◌, Text, txt, arith, text_eq, text_eq_iff, Bool-cases, inl, inr, ◌⊎◌,
  some, none, Bool, Option, find, true, false,
}
use gx_notion2api.Types.Models.{ModelItem}
use gx_notion2api.Chat.Targets.{is_choosable, not_false, found_enabled}

-- Where the list first has the id, the model is not disabled.
abbrev pub FirstIsEnabled : Text → List ModelItem → Type 0
FirstIsEnabled id [] = Unit
FirstIsEnabled id (m ∷ ms) =
    ((m.id ≡ id) × (m.enabled ≢ some false)) ⊎ ((m.id ≢ id) × FirstIsEnabled id ms)

-- Neither disabled, nor another Auto, nor disabled in the catalogue
abbrev pub IsAllowed : List ModelItem → ModelItem → Type 0
IsAllowed models item =
    (item.enabled ≢ some false) × (item.id ≢ txt "auto") × FirstIsEnabled item.id models

abbrev pub has_model_id : Text → ModelItem → Bool
has_model_id id item = text_eq item.id id

not_false_cases :
    (enabled : Option Bool)
    → ((not_false enabled ≡ true) × (enabled ≢ some false))
      ⊎ ((not_false enabled ≡ false) × (enabled ≡ some false))
not_false_cases none = inl (refl, (λ e. cc))
not_false_cases (some true) = inl (refl, (λ e. cc))
not_false_cases (some false) = inr (refl, refl)

found_enabled_cases :
    (id : Text) (models : List ModelItem)
    → ((found_enabled (find (has_model_id id) models) ≡ true) × FirstIsEnabled id models)
      ⊎ ((found_enabled (find (has_model_id id) models) ≡ false) × (¬ FirstIsEnabled id models))
unfolding find
found_enabled_cases id [] = inl (refl, tt)
found_enabled_cases id (m ∷ ms) = elim (Bool-cases (text_eq m.id id)) [
  | inl same ↦
      let own = (text_eq_iff m.id id).0 same in
      rw same (elim (not_false_cases m.enabled) [
        | inl (shows, enabled) ↦ inl (shows, inl (own, enabled))
        | inr (hides, disabled) ↦ inr (hides, disabled_first m ms own disabled)
      ])
  | inr other ↦
      let differs : m.id ≢ id = (λ e. ground (arith, text_eq_iff m.id id, e, other)) in
      rw other (elim (found_enabled_cases id ms) [
        | inl (shows, enabled) ↦ inl (shows, inr (differs, enabled))
        | inr (hides, disabled) ↦ inr (hides, disabled_later m ms differs disabled)
      ])
]
  where
    disabled_first :
        (m : ModelItem) (ms : List ModelItem)
        → m.id ≡ id
        → m.enabled ≡ some false
        → ¬ FirstIsEnabled id (m ∷ ms)
    disabled_first m ms own disabled (inl (_, enabled)) = enabled disabled
    disabled_first m ms own disabled (inr (differs, _)) = differs own

    disabled_later :
        (m : ModelItem) (ms : List ModelItem)
        → m.id ≢ id
        → (¬ FirstIsEnabled id ms)
        → ¬ FirstIsEnabled id (m ∷ ms)
    disabled_later m ms differs disabled (inl (own, _)) = differs own
    disabled_later m ms differs disabled (inr (_, later)) = disabled later

pub is_choosable-IsAllowed :
    (models : List ModelItem) (item : ModelItem)
    → ((is_choosable models item ≡ true) × IsAllowed models item)
      ⊎ ((is_choosable models item ≡ false) × (¬ IsAllowed models item))
unfolding is_choosable
is_choosable-IsAllowed models item = elim (not_false_cases item.enabled) [
  | inr (hides, disabled) ↦ inr (rw hides refl, (λ h. h.0 disabled))
  | inl (shows, enabled) ↦ elim (Bool-cases (text_eq item.id (txt "auto"))) [
    | inl auto ↦ inr (rw (shows, auto) refl, (λ h. h.1 ((text_eq_iff _ _).0 auto)))
    | inr other ↦ elim (found_enabled_cases item.id models) [
      | inl (shown, first) ↦ inl (
        rw (shows, other) shown,
        (enabled, (λ e. ground (arith, text_eq_iff item.id (txt "auto"), e, other)), first),
      )
      | inr (hidden, gone) ↦ inr (rw (shows, other) hidden, (λ h. gone h.2))
    ]
  ]
]
