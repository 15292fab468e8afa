-- ===== src/Types/Chat.antt =====
-- One chat turn: its attachments, its request and its result, of
-- frontend/lib/services/admin/types.ts. The constant tag `type: 'attachment'` has no field.
use gx_notion2api.Prelude.{Bool, Option, List, Text}

pub record AttachmentInput : Type 0 where
  pub name : Text
  pub content_type : Text
  pub content : Option Text

pub record ChatRunInput : Type 0 where
  pub account_email : Option Text
  pub workspace_id : Option Text
  pub prompt : Text
  pub model : Text
  pub use_web_search : Bool
  pub attachments : List AttachmentInput
  pub conversation_id : Option Text

pub record ChatRunResult : Type 0 where
  pub conversation_id : Text
  pub text : Text
  pub truncated : Option Bool
