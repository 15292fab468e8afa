-- ===== src/Chat/Sessions.antt =====
-- The saved session, the conversation asked for by another panel, the fallback to Auto and the drag
-- overlay of frontend/components/admin/chat-workspace.tsx. Reading and writing the two storages, with
-- `JSON.parse` and `JSON.stringify`, is left to the browser: a saved session has the fields that are there
-- with the type that the code asks for.
pub mod Restoring
use gx_notion2api.Prelude.{
  ℕ, ◌+◌, ◌-◌, Bool, true, false, not, ◌&&◌, ◌||◌, Option, none, some, List, [], Text, txt,
  if◌then◌else◌, any, text_eq, is_present, is_given, or_text, nat_eq,
}
use gx_notion2api.Types.Models.{ModelItem}
use gx_notion2api.Chat.Targets.{Target}
use gx_notion2api.Chat.State.{ChatState, fresh_chat}
use gx_notion2api.Chat.Opening.{known_model, open_conversation}

pub record SavedSession : Type 0 where
  pub conversation_id : Option Text
  pub prompt : Option Text
  pub model : Option Text
  pub use_web_search : Option Bool
  pub target : Option Target

abbrev pub no_session : SavedSession
no_session = record {
  conversation_id = none;
  prompt = none;
  model = none;
  use_web_search = none;
  target = none;
}

-- The first render
unfoldable pub first_chat : Text → Bool → ChatState
first_chat model use_web_search = record (fresh_chat model use_web_search) {
  loading = true;
  mounted = false;
}

-- The model, if it is one of those listed
abbrev pub saved_model : List ModelItem → Option Text → Text → Text
saved_model models none model = model
saved_model models (some id) model = if any (λ item. text_eq item.id id) models then id else model

abbrev pub saved_or {ℓ} : {A : Type ℓ} → Option A → A → A
saved_or none a = a
saved_or (some saved) a = saved

abbrev pub choices_restored : List ModelItem → SavedSession → ChatState → ChatState
choices_restored models saved s = record s {
  mounted = true;
  model = saved_model models saved.model s.model;
  use_web_search = saved_or saved.use_web_search s.use_web_search;
  target = saved_or saved.target s.target;
}

-- The effect on mounting, with the revision of the question that it asks, if it asks one
unfoldable pub restore_session : List ModelItem → SavedSession → ChatState → ChatState × Option ℕ
restore_session models saved s =
    let restored = choices_restored models saved s in
    let draft = or_text saved.prompt [] in
    if is_given saved.conversation_id
    then open_conversation (or_text saved.conversation_id []) draft restored
    else (record restored { prompt = draft; loading = false }, none)

-- `{ conversationID, prompt, model, useWebSearch, target }`
abbrev pub session_of : ChatState → SavedSession
session_of s = record {
  conversation_id = some s.conversation_id;
  prompt = some s.prompt;
  model = some s.model;
  use_web_search = some s.use_web_search;
  target = some s.target;
}

-- What is saved, if the page does not load
unfoldable pub save_session : ChatState → Option SavedSession
save_session s = if s.loading then none else some (session_of s)

-- The effect on `initialConversationID`, and whether it reports that it was handled
unfoldable pub resume_conversation : Text → ChatState → (ChatState × Option ℕ) × Bool
resume_conversation id s =
    if is_present id
    then (if text_eq id s.conversation_id then (s, none) else open_conversation id [] s, true)
    else ((s, none), false)

-- The effect on the models on offer
unfoldable pub fall_back : List ModelItem → ChatState → ChatState
fall_back available s =
    if not s.running && not s.loading && not (any (λ item. text_eq item.id s.model) available)
    then record s { model = txt "auto" }
    else s

-- `dragDepth` and `dragging`
pub record DragState : Type 0 where
  pub drag_depth : ℕ
  pub dragging : Bool

unfoldable pub on_drag_enter : Bool → DragState → DragState
on_drag_enter has_files s =
    if has_files then record { drag_depth = s.drag_depth + 1; dragging = true } else s

unfoldable pub on_drag_leave : DragState → DragState
on_drag_leave s = record {
  drag_depth = s.drag_depth - 1;
  dragging = s.dragging && not (nat_eq (s.drag_depth - 1) 0);
}

unfoldable pub on_drop : Bool → DragState → DragState
on_drop has_files s = if has_files then record { drag_depth = 0; dragging = false } else s
