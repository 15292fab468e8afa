-- ===== src/Api/Requests.antt =====
-- The requests of `AdminService` in frontend/lib/services/admin/admin.service.ts. A payload that is
-- passed on as it is has the type `J`. A body is the value that `JSON.stringify` is given. The requests
-- with a query of `URLSearchParams` are in Api/Queries.antt.
pub mod Paths
use gx_notion2api.Prelude.{Bool, Option, none, some, List, [], ◌∷◌, ◌++◌, Text, txt, if◌then◌else◌}
use gx_notion2api.Api.Encoding.{encode_uri_component}

pub data Method : Type 0 where
  get post put patch delete : Method

-- The value of a field of a body
pub data Value : Type 0 where
  text : Text → Value
  texts : List Text → Value

-- No body, an object of the given fields, the payload, or an object of it as its field `config`
pub data Body (J : Type 0) : Type 0 where
  no_body : Body J
  fields : List (Text × Value) → Body J
  payload : J → Body J
  config : J → Body J

pub record Request (J : Type 0) : Type 0 where
  pub path : Text
  pub method : Method
  pub body : Body J

abbrev pub request : {J : Type 0} → Method → Text → Body J → Request J
request method path body = record { path = path; method = method; body = body }

-- A request whose path holds an encoded id
abbrev pub request_at :
    {J : Type 0} → Method → Text → Option Text → Text → Body J → Option (Request J)
request_at method prefix none suffix body = none
request_at method prefix (some segment) suffix body =
    some (request method (prefix ++ (segment ++ suffix)) body)

module _ {J : Type 0} where
  unfoldable pub verify : Request J
  verify = request get (txt "/admin/verify") no_body

  unfoldable pub login : Text → Request J
  login password = request post (txt "/admin/login") (fields ((txt "password", text password) ∷ []))

  unfoldable pub logout : Request J
  logout = request post (txt "/admin/logout") no_body

  unfoldable pub get_config : Request J
  get_config = request get (txt "/admin/config") no_body

  unfoldable pub get_version : Request J
  get_version = request get (txt "/admin/version") no_body

  unfoldable pub get_health : Request J
  get_health = request get (txt "/healthz") no_body

  unfoldable pub get_accounts : Request J
  get_accounts = request get (txt "/admin/accounts") no_body

  unfoldable pub refresh_workspaces : Text → Request J
  refresh_workspaces email =
      request post (txt "/admin/accounts/refresh-workspaces")
        (fields ((txt "email", text email) ∷ []))

  unfoldable pub refresh_models : Text → Text → Request J
  refresh_models email workspace_id =
      request post (txt "/admin/accounts/refresh-models")
        (fields ((txt "email", text email) ∷ (txt "workspace_id", text workspace_id) ∷ []))

  unfoldable pub update_model_policy : J → Request J
  update_model_policy value = request put (txt "/admin/accounts/model-policy") (payload value)

  unfoldable pub get_conversations : Request J
  get_conversations = request get (txt "/admin/conversations") no_body

  unfoldable pub test_prompt : J → Request J
  test_prompt value = request post (txt "/admin/test") (payload value)

  unfoldable pub update_settings : J → Request J
  update_settings value = request put (txt "/admin/settings") (config value)

  unfoldable pub import_config : J → Request J
  import_config value = request post (txt "/admin/config/import") (config value)

  unfoldable pub export_config : Request J
  export_config = request get (txt "/admin/config/export") no_body

  unfoldable pub create_config_snapshot : Request J
  create_config_snapshot = request post (txt "/admin/config/snapshot") no_body

  unfoldable pub list_config_snapshots : Request J
  list_config_snapshots = request get (txt "/admin/config/snapshot") no_body

  unfoldable pub start_account_login : Text → Request J
  start_account_login email =
      request post (txt "/admin/accounts/login/start") (fields ((txt "email", text email) ∷ []))

  unfoldable pub verify_account_code : Text → Text → Request J
  verify_account_code email code =
      request post (txt "/admin/accounts/login/verify")
        (fields ((txt "email", text email) ∷ (txt "code", text code) ∷ []))

  unfoldable pub import_account : J → Request J
  import_account value = request post (txt "/admin/accounts/manual") (payload value)

  unfoldable pub quick_test_account : J → Request J
  quick_test_account value = request post (txt "/admin/accounts/test") (payload value)

  unfoldable pub save_account_settings : J → Request J
  save_account_settings value = request put (txt "/admin/accounts") (payload value)

  unfoldable pub get_ai_usage : Bool → Request J
  get_ai_usage refresh =
      request get (txt "/admin/accounts/ai-usage" ++ (if refresh then txt "?refresh=1" else []))
        no_body

  -- An undefined field is left out of the body.
  unfoldable pub activate_account : Text → Option Text → Request J
  activate_account email none =
      request post (txt "/admin/accounts/activate") (fields ((txt "email", text email) ∷ []))
  activate_account email (some id) =
      request post (txt "/admin/accounts/activate")
        (fields ((txt "email", text email) ∷ (txt "workspace_id", text id) ∷ []))

  unfoldable pub batch_delete : List Text → Request J
  batch_delete ids =
      request post (txt "/admin/conversations/batch-delete") (fields ((txt "ids", texts ids) ∷ []))

  -- `/admin/conversations/${encodeURIComponent(id)}` and what follows
  abbrev at_conversation : Method → Text → Text → Body J → Option (Request J)
  at_conversation method id suffix body =
      request_at method (txt "/admin/conversations/") (encode_uri_component id) suffix body

  unfoldable pub get_conversation : Text → Bool → Option (Request J)
  get_conversation id only_local =
      at_conversation get id (if only_local then txt "?local=1" else []) no_body

  unfoldable pub delete_conversation : Text → Option (Request J)
  delete_conversation id = at_conversation delete id [] no_body

  unfoldable pub rename_conversation : Text → Text → Option (Request J)
  rename_conversation id title =
      at_conversation patch id [] (fields ((txt "title", text title) ∷ []))

  abbrev at_message : Method → Text → Option Text → Body J → Option (Request J)
  at_message method id none body = none
  at_message method id (some message) body =
      at_conversation method id (txt "/messages/" ++ message) body

  unfoldable pub edit_conversation_message : Text → Text → Text → Option (Request J)
  edit_conversation_message id message_id content =
      at_message patch id (encode_uri_component message_id)
        (fields ((txt "content", text content) ∷ []))

  unfoldable pub delete_conversation_message : Text → Text → Option (Request J)
  delete_conversation_message id message_id =
      at_message delete id (encode_uri_component message_id) no_body

  unfoldable pub delete_account : Text → Option (Request J)
  delete_account email =
      request_at delete (txt "/admin/accounts/") (encode_uri_component email) [] no_body
