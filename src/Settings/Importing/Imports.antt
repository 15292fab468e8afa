-- ===== src/Settings/Importing/Imports.antt =====
-- What an import of a configuration leaves in the form.
use gx_notion2api.Prelude.{
  ℕ, ◌≡◌, refl, Bool, true, false, not, Text, if◌then◌else◌, Bool-cases, inl, inr, nat_eq,
}
use gx_notion2api.Types.Config.{AppConfigShape}
use gx_notion2api.Settings.Forms.{SettingsFormState}
use gx_notion2api.Settings.Syncing.{SettingsState, same_form_state, is_dirty, sync_config}
use gx_notion2api.Settings.Syncing.Drafts.{same_form_state_refl}
use gx_notion2api.Settings.Importing.{config_imported}

either_form :
    (b : Bool) (x y : SettingsState) (form : SettingsFormState)
    → x.form ≡ form
    → y.form ≡ form
    → (if b then x else y).form ≡ form
either_form true x y form h k = h
either_form false x y form h k = k

module _ (build_form_state : AppConfigShape → SettingsFormState) where
  -- Where an import brings another configuration before its call returns, the form shows it in the end.
  -- An import that found unsaved edits leaves none; one that found none leaves the form marked as
  -- unsaved, unless the form of the new configuration is the one that was there before.
  pub config_imported-sync_config :
      (version : ℕ) (config : AppConfigShape) (file_name : Text) (s : SettingsState)
      → nat_eq s.synced version ≡ false
      → (is_dirty (config_imported s.form file_name (sync_config build_form_state version config s))
          ≡ (if is_dirty s then false else not (same_form_state (build_form_state config) s.form)))
        × ((sync_config build_form_state version config (
              config_imported s.form file_name
                (sync_config build_form_state version config s))).form
            ≡ build_form_state config)
  unfolding sync_config config_imported is_dirty
  config_imported-sync_config version config file_name s other =
      elim (Bool-cases (same_form_state s.form s.baseline)) [
        | inl clean ↦
            rw (clean, other) (refl, either_form _ _ _ (build_form_state config) refl refl)
        | inr edited ↦ rw (edited, same_form_state_refl s.form, other) (refl, refl)
      ]
