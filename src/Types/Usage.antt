-- ===== src/Types/Usage.antt =====
-- Usage reports of frontend/lib/services/admin/types.ts. Counters and instants are natural numbers.
use gx_notion2api.Prelude.{ℕ, Bool, Option, List, Text}

pub record AiUsageRateLimitWindow : Type 0 where
  pub resets_at_ms : Option ℕ
  pub label : Option Text
  pub credit_type : Option Text
  pub scope : Option Text
  pub cadence : Option Text
  pub used : ℕ
  pub limit : ℕ
  pub period_end_ms : Option ℕ

pub record AiUsageRateLimit : Type 0 where
  pub status : Option Text
  pub short : Option AiUsageRateLimitWindow
  pub long : Option AiUsageRateLimitWindow

pub record AiUsage : Type 0 where
  pub is_eligible : Bool
  pub is_eligible_known : Bool
  pub type : Option Text
  pub quota_enforced : Bool
  pub basic_usage_known : Option Bool
  pub basic_limits_known : Option Bool
  pub space_usage : ℕ
  pub space_limit : ℕ
  pub user_usage : ℕ
  pub user_limit : ℕ
  pub current_period_usage_known : Option Bool
  pub current_period_space_usage : Option ℕ
  pub current_period_user_usage : Option ℕ
  pub promotional_usage_known : Option Bool
  pub promotional_usage : Option ℕ
  pub promotional_limit_known : Option Bool
  pub promotional_limit : Option ℕ
  pub premium_credit_known : Option Bool
  pub premium_credit_balance : Option ℕ
  pub credits_in_overage : Option ℕ
  pub overage_limit : Option ℕ
  pub premium_service_period_start_ms : Option ℕ
  pub rate_limit : Option AiUsageRateLimit

pub record AiUsageReport : Type 0 where
  pub email : Text
  pub space_id : Option Text
  pub workspace_name : Option Text
  pub status : Text
  pub detail : Option Text
  pub cached : Bool
  pub fetched_at : Option Text
  pub usage : Option AiUsage

pub record AiUsagePayload : Type 0 where
  pub accounts : List AiUsageReport
  pub ttl_seconds : ℕ

pub record WorkspaceAiUsagePayload : Type 0 where
  pub report : AiUsageReport
  pub ttl_seconds : ℕ
