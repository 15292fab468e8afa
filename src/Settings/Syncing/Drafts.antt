-- ===== src/Settings/Syncing/Drafts.antt =====
-- What refreshes, saves and discards do to unsaved edits.
use gx_notion2api.Prelude.{
  ℕ, ◌≡◌, refl, Bool, true, false, List, [], ◌∷◌, Text, if◌then◌else◌, Bool-cases, inl, inr,
  text_eq_refl, nat_eq,
}
use gx_notion2api.Types.Config.{AppConfigShape}
use gx_notion2api.Settings.Forms.{SettingsFormState}
use gx_notion2api.Settings.Syncing.{
  SettingsState, same_texts, same_switches, same_form_state, is_dirty, sync_config, adopt,
  discard_changes, config_saved, form_texts, form_switches,
}

same_texts_refl : (ts : List Text) → same_texts ts ts ≡ true
unfolding same_texts
same_texts_refl [] = refl
same_texts_refl (t ∷ ts) = rw (text_eq_refl t, same_texts_refl ts) refl

same_switches_refl : (bs : List Bool) → same_switches bs bs ≡ true
unfolding same_switches
same_switches_refl [] = refl
same_switches_refl (true ∷ bs) = same_switches_refl bs
same_switches_refl (false ∷ bs) = same_switches_refl bs

pub same_form_state_refl : (form : SettingsFormState) → same_form_state form form ≡ true
same_form_state_refl form =
    unfold same_form_state in
    rw (same_texts_refl (form_texts form), same_switches_refl (form_switches form)) refl

module _ (build_form_state : AppConfigShape → SettingsFormState) where
  adopted_clean :
      (version : ℕ) (config : AppConfigShape) (s : SettingsState)
      → is_dirty (adopt build_form_state version config s) ≡ false
  unfolding is_dirty
  adopted_clean version config s = rw (same_form_state_refl (build_form_state config)) refl

  synced_dirty :
      (version : ℕ) (config : AppConfigShape) (s : SettingsState)
      → is_dirty (sync_config build_form_state version config s) ≡ is_dirty s
  unfolding sync_config
  synced_dirty version config s = elim (Bool-cases (is_dirty s)) [
    | inl e ↦ rw (e, e) refl
    | inr e ↦ rw e (elim (Bool-cases (nat_eq s.synced version)) [
      | inl same ↦ rw same e
      | inr other ↦ rw other (adopted_clean version config s)
    ])
  ]

  -- A form whose changes are discarded, has no unsaved edits, and a refresh of the configuration
  -- neither makes unsaved edits nor ends them.
  pub discard_changes-is_dirty :
      (version : ℕ) (config : AppConfigShape) (s : SettingsState)
      → (is_dirty (discard_changes build_form_state version config s) ≡ false)
        × (is_dirty (sync_config build_form_state version config s) ≡ is_dirty s)
  unfolding is_dirty discard_changes
  discard_changes-is_dirty version config s =
      (adopted_clean version config s, synced_dirty version config s)

  -- Where a save ends and the configuration is then refreshed to another version, the form shows the
  -- new configuration exactly if it is still the form that was saved; edits made since then are kept.
  pub sync_config-config_saved :
      (version : ℕ) (config : AppConfigShape) (saved_form : SettingsFormState) (s : SettingsState)
      → nat_eq s.synced version ≡ false
      → (sync_config build_form_state version config (config_saved saved_form s)).form
        ≡ (if same_form_state s.form saved_form then build_form_state config else s.form)
  unfolding sync_config config_saved is_dirty
  sync_config-config_saved version config saved_form s other =
      elim (Bool-cases (same_form_state s.form saved_form)) [
        | inl same ↦ rw (same, other) refl
        | inr edited ↦ rw edited refl
      ]
