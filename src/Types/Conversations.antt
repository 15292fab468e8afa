-- ===== src/Types/Conversations.antt =====
-- Conversations and their messages, of frontend/lib/services/admin/types.ts.
-- `content_type_camel` is the field that the source spells `contentType` beside `content_type`.
use gx_notion2api.Prelude.{Bool, Option, List, Text}

pub record ModelObservation : Type 0 where
  pub model : Text
  pub provider : Option Text
  pub source : Text
  pub step_id : Option Text

pub record ConversationMessageAttachment : Type 0 where
  pub name : Option Text
  pub content_type : Option Text
  pub content_type_camel : Option Text
  pub url : Option Text
  pub source : Option Text

pub record ConversationMessage : Type 0 where
  pub requested_model : Option Text
  pub model_selection_mode : Option Text
  pub model_observations : Option (List ModelObservation)
  pub id : Option Text
  pub role : Option Text
  pub status : Option Text
  pub content : Option Text
  pub created_at : Option Text
  pub updated_at : Option Text
  pub edited_at : Option Text
  pub truncated : Option Bool
  pub step_type : Option Text
  pub attachments : Option (List ConversationMessageAttachment)

pub record ConversationSummary : Type 0 where
  pub id : Text
  pub title : Option Text
  pub title_edited_at : Option Text
  pub origin : Option Text
  pub remote_only : Option Bool
  pub preview : Option Text
  pub request_prompt : Option Text
  pub status : Option Text
  pub source : Option Text
  pub transport : Option Text
  pub model : Option Text
  pub notion_model : Option Text
  pub account_email : Option Text
  pub space_id : Option Text
  pub thread_id : Option Text
  pub trace_id : Option Text
  pub response_id : Option Text
  pub completion_id : Option Text
  pub created_by_display_name : Option Text
  pub created_at : Option Text
  pub updated_at : Option Text
  pub error : Option Text

pub record ConversationDetail : Type 0 where
  pub summary : ConversationSummary
  pub open summary use *
  pub messages : Option (List ConversationMessage)

pub record ConversationsPayload : Type 0 where
  pub items : Option (List ConversationSummary)

pub record ConversationDetailPayload : Type 0 where
  pub item : ConversationDetail

pub record ConversationMutationPayload : Type 0 where
  pub success : Bool
  pub item : ConversationDetail
