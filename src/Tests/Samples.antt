-- ===== src/Tests/Samples.antt =====
-- Sample conversations, messages and accounts.
use gx_notion2api.Prelude.{some, none, true, Text, List}
use gx_notion2api.Types.Accounts.{AccountItem, WorkspaceItem}
use gx_notion2api.Types.Conversations.{ConversationSummary, ConversationMessage}

abbrev pub summary_of : Text → Text → ConversationSummary
summary_of id updated = record {
  id = id;
  title = none;
  title_edited_at = none;
  origin = none;
  remote_only = none;
  preview = none;
  request_prompt = none;
  status = none;
  source = none;
  transport = none;
  model = none;
  notion_model = none;
  account_email = none;
  space_id = none;
  thread_id = none;
  trace_id = none;
  response_id = none;
  completion_id = none;
  created_by_display_name = none;
  created_at = none;
  updated_at = some updated;
  error = none;
}

abbrev pub message_of : Text → Text → ConversationMessage
message_of id content = record {
  requested_model = none;
  model_selection_mode = none;
  model_observations = none;
  id = some id;
  role = none;
  status = none;
  content = some content;
  created_at = none;
  updated_at = none;
  edited_at = none;
  truncated = none;
  step_type = none;
  attachments = none;
}

abbrev pub sample_account : Text → List WorkspaceItem → AccountItem
sample_account email workspaces = record {
  credential_cooldown_until = none;
  credential_cooldown_active = none;
  account_max_concurrency = none;
  email = some email;
  active = none;
  disabled = some true;
  status = none;
  last_login_at = none;
  last_success_at = none;
  last_refresh_at = none;
  last_relogin_at = none;
  priority = none;
  hourly_quota = none;
  max_concurrency = some 0;
  quota_limited = none;
  remaining_quota = none;
  cooldown_active = none;
  cooldown_remaining_sec = none;
  cooldown_until = none;
  window_started_at = none;
  window_request_count = none;
  total_successes = none;
  total_failures = none;
  consecutive_failures = none;
  user_id = none;
  user_name = none;
  space_id = none;
  space_view_id = none;
  space_name = none;
  plan_type = none;
  default_workspace_id = none;
  workspaces = some workspaces;
  client_version = none;
  probe_json = none;
  probe_exists = none;
  profile_dir = none;
  profile_dir_exists = none;
  storage_state_path = none;
  storage_state_exists = none;
  pending_state_path = none;
  pending_state_exists = none;
  last_used_at = none;
  last_error = none;
  login_status = none;
}
