-- ===== src/ModelDisplay.antt =====
-- The names of models in frontend/lib/model-display.ts. `lower` is `toLowerCase`.
pub mod Ambiguity
use gx_notion2api.Prelude.{
  Bool, true, false, not, ◌&&◌, ◌||◌, Option, none, some, List, [], ◌∷◌, ◌++◌, Text, txt,
  if◌then◌else◌, is_present, is_given, or_text, contains, text_eq, trim, keep, any, map, listed,
}
use gx_notion2api.Types.Models.{ModelItem}

-- `[...new Set(values)]`
unfoldable pub distinct_names : List Text → List Text
distinct_names [] = []
distinct_names (value ∷ values) =
    value ∷ keep (λ other. not (text_eq value other)) (distinct_names values)

abbrev pub providers : List Text
providers =
    txt "anthropic"
    ∷ txt "openai"
    ∷ txt "gemini"
    ∷ txt "deepseek"
    ∷ txt "kimi"
    ∷ txt "glm"
    ∷ txt "xai"
    ∷ []

pub record VerifiedName : Type 0 where
  pub name : Text
  pub provider : Text

-- `verifiedNames[key]`
unfoldable pub verified_names : Text → Option VerifiedName
unfolding text_eq
verified_names key =
    if text_eq key (txt "albuquerque-quinn")
    then some (record { name = txt "Opus 5.5"; provider = txt "anthropic" })
    else if text_eq key (txt "achira-donut")
    then some (record { name = txt "Sonnet 5.5"; provider = txt "anthropic" })
    else none

-- `[model.id, model.notion_model, ...(model.aliases || [])]`
abbrev pub names_for : ModelItem → List (Option Text)
names_for model = some model.id ∷ model.notion_model ∷ map some (listed model.aliases)

module _ (lower : Text → Text) where
  unfoldable pub key : Option Text → Text
  key value = lower (trim (or_text value []))

  -- Both providers are known, and they differ.
  unfoldable pub is_foreign : Option Text → ModelItem → Bool
  unfolding key contains
  is_foreign provider model =
      contains (key provider) providers
      && contains (key model.family) providers
      && not (text_eq (key provider) (key model.family))

  unfoldable pub answers_to : Text → ModelItem → Bool
  unfolding key any
  answers_to raw model = any (λ alias. text_eq (key alias) (key (some raw))) (names_for model)

  unfoldable pub matches : Text → Option Text → List ModelItem → List ModelItem
  unfolding is_foreign answers_to
  matches raw provider catalog =
      keep (λ model. not (is_foreign provider model) && answers_to raw model) catalog

  abbrev pub scoped_or : List ModelItem → List ModelItem → List ModelItem
  scoped_or [] others = others
  scoped_or (model ∷ scoped) others = model ∷ scoped

  unfoldable pub candidates : Text → Option Text → List ModelItem → List ModelItem → List ModelItem
  unfolding matches
  candidates raw provider models preferred =
      scoped_or (matches raw provider preferred) (matches raw provider models)

  -- The trimmed name, if it is one and is not the name asked for
  abbrev pub proper_name : Text → Option Text → List Text
  proper_name raw none = []
  proper_name raw (some name) =
      if is_present (trim name) && not (text_eq (key (some (trim name))) (key (some raw)))
      then trim name ∷ []
      else []

  unfoldable pub proper_names : Text → List ModelItem → List Text
  proper_names raw [] = []
  proper_names raw (model ∷ models) = proper_name raw model.name ++ proper_names raw models

  abbrev pub verified_or : Option VerifiedName → Option Text → Option Text → Option Text
  verified_or none provider other = other
  verified_or (some verified) provider other =
      if not (is_given provider) || text_eq (key provider) verified.provider
      then some verified.name
      else other

  abbrev pub one_name : List Text → Option Text → Option Text
  one_name [] other = other
  one_name (name ∷ []) other = some name
  one_name (name ∷ second ∷ names) other = none

  unfoldable pub model_display_name :
      Text → List ModelItem → Option Text → List ModelItem → Option Text
  unfolding key candidates proper_names distinct_names verified_names
  model_display_name raw models provider preferred =
      let found = candidates raw provider models preferred in
      one_name (distinct_names (proper_names raw found)) (
        verified_or (verified_names (key (some raw))) provider (
          if any (λ model. text_eq (key model.name) (key (some raw))) found
          then some raw
          else none))
