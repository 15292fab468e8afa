-- ===== src/Settings/Saving/Loads.antt =====
-- What a saved configuration shows once it is loaded again.
use gx_notion2api.Prelude.{
  ℕ, ◌≡◌, refl, ap, subst, Bool, true, false, not, ◌&&◌, ◌||◌, Option, none, some, List, [], ◌∷◌,
  Text, txt, arith, Bool-cases, inl, inr, if◌then◌else◌, is_present, or_text, or_else,
}
use gx_notion2api.Types.Config.{Decimal, AppConfigShape}
use gx_notion2api.Settings.Prompts.{given_or}
use gx_notion2api.Settings.Forms.{SettingsFormState, build_form_state, lock_edits}
use gx_notion2api.Settings.Saving.{
  next_config, save_config, saved_storage, saved_features, with_aliases,
}

-- The switches of the form
abbrev pub toggles : SettingsFormState → List Bool
toggles form =
    form.upstream_use_env_proxy ∷ form.debug_upstream ∷ form.persist_conversation_snapshots
    ∷ form.persist_responses ∷ form.persist_continuation_sessions
    ∷ form.persist_sillytavern_bindings ∷ form.use_web_search ∷ form.read_only
    ∷ form.force_disable_upstream_edits ∷ form.force_fresh_thread_per_request ∷ form.writer_mode
    ∷ form.generate_image ∷ form.enable_csv ∷ []

lock_same :
    (locked r w : Bool) (form : SettingsFormState)
    → lock_edits (record form {
      force_disable_upstream_edits = locked;
      read_only = locked || r;
      writer_mode = not locked && w;
    })
      ≡ record form {
        force_disable_upstream_edits = locked;
        read_only = locked || r;
        writer_mode = not locked && w;
      }
unfolding lock_edits
lock_same true r w form = refl
lock_same false r w form = refl

module _ (read : Text → ℕ) (read_decimal : Text → Decimal)
    (parse_aliases : Text → Option (List (Text × Text))) (show_decimal : Decimal → Text)
    (show_aliases : List (Text × Text) → Text) where
  toggles-next_config :
      (form : SettingsFormState) (aliases : List (Text × Text)) (config : AppConfigShape)
      → toggles (
          build_form_state show_decimal show_aliases
            (next_config read read_decimal parse_aliases form aliases config))
        ≡ toggles (lock_edits form)
  unfolding lock_edits build_form_state next_config saved_storage saved_features
  toggles-next_config form aliases config = elim (Bool-cases form.force_disable_upstream_edits) [
    | inl e ↦ rw e refl
    | inr e ↦ rw e refl
  ]

  model-next_config :
      (form : SettingsFormState) (aliases : List (Text × Text)) (config : AppConfigShape)
      → (build_form_state show_decimal show_aliases
          (next_config read read_decimal parse_aliases form aliases config)).default_model
        ≡ or_text (some form.default_model) (txt "auto")
  unfolding build_form_state next_config or_else or_text
  model-next_config form aliases config = elim (Bool-cases (is_present form.default_model)) [
    | inl e ↦ rw (e, e) refl
    | inr e ↦ rw (e, e) refl
  ]

  abbrev IsShown : SettingsFormState → AppConfigShape → Type 0
  IsShown form sent =
      (toggles (build_form_state show_decimal show_aliases sent) ≡ toggles (lock_edits form))
      × ((build_form_state show_decimal show_aliases sent).default_model
          ≡ or_text (some form.default_model) (txt "auto"))

  IsShown-with_aliases :
      (form : SettingsFormState) (config sent : AppConfigShape)
      (aliases : Option (List (Text × Text)))
      → with_aliases read read_decimal parse_aliases form config aliases ≡ some sent
      → IsShown form sent
  IsShown-with_aliases form config sent none e = ground (arith, e)
  IsShown-with_aliases form config sent (some aliases) e =
      subst (IsShown form) (ap (λ o. given_or o config) e)
        (toggles-next_config form aliases config, model-next_config form aliases config)

  -- Every switch of a form that is saved is found again in the form that the sent configuration gives,
  -- up to the lock of the edits, which the sent configuration keeps; and so is the default model,
  -- where the form has one.
  pub build_form_state-save_config :
      (form : SettingsFormState) (config sent : AppConfigShape)
      → save_config read read_decimal parse_aliases form config ≡ some sent
      → (toggles (build_form_state show_decimal show_aliases sent) ≡ toggles (lock_edits form))
        × ((build_form_state show_decimal show_aliases sent).default_model
            ≡ or_text (some form.default_model) (txt "auto"))
  unfolding save_config
  build_form_state-save_config form config sent e =
      IsShown-with_aliases form config sent
        (parse_aliases (if is_present form.model_aliases then form.model_aliases else txt "{}")) e
