-- ===== src/Api/Queries.antt =====
-- The requests of frontend/lib/services/admin/admin.service.ts whose path has a query. `search` is what
-- `URLSearchParams` makes of the fields, in their order. The options `cache` and `redirect` of `fetch`
-- are left out.
use gx_notion2api.Prelude.{Bool, List, [], ◌∷◌, ◌++◌, Text, txt, if◌then◌else◌}
use gx_notion2api.Notebook.{NoteSource, shared, private}
use gx_notion2api.Types.Policies.{Scope, personal, custom}
use gx_notion2api.Api.Requests.{Request, request, get, no_body}

abbrev pub source_text : NoteSource → Text
source_text shared = txt "shared"
source_text private = txt "private"

abbrev pub scope_text : Scope → Text
scope_text personal = txt "personal"
scope_text custom = txt "custom"

-- `if (refresh) query.set('refresh', '1')`
abbrev pub with_refresh : Bool → List (Text × Text) → List (Text × Text)
with_refresh refresh query = if refresh then query ++ (txt "refresh", txt "1") ∷ [] else query

module _ {J : Type 0} (search : List (Text × Text) → Text) where
  unfoldable pub get_notes : Text → Text → Bool → NoteSource → Request J
  get_notes email id refresh source =
      request get
        (txt "/admin/notes?"
          ++ search (
              with_refresh refresh (
                (txt "email", email)
                ∷ (txt "workspace_id", id)
                ∷ (txt "source", source_text source)
                ∷ [])))
        no_body

  unfoldable pub get_note : Text → Text → Text → Request J
  get_note email id page =
      request get
        (txt "/admin/notes?"
          ++ search ((txt "email", email) ∷ (txt "workspace_id", id) ∷ (txt "page_id", page) ∷ []))
        no_body

  unfoldable pub get_model_policy : Text → Text → Scope → Request J
  get_model_policy email id scope =
      request get
        (txt "/admin/accounts/model-policy?"
          ++ search (
              (txt "email", email)
              ∷ (txt "workspace_id", id)
              ∷ (txt "scope", scope_text scope)
              ∷ []))
        no_body

  unfoldable pub get_workspace_ai_usage : Text → Text → Bool → Request J
  get_workspace_ai_usage email id refresh =
      request get
        (txt "/admin/accounts/ai-usage/workspace?"
          ++ search (with_refresh refresh ((txt "email", email) ∷ (txt "workspace_id", id) ∷ [])))
        no_body
