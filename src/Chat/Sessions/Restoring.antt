-- ===== src/Chat/Sessions/Restoring.antt =====
-- A session that is saved and restored.
use gx_notion2api.Prelude.{
  ℕ, ◌≡◌, refl, subst, Bool, true, Option, none, some, List, [], ◌∷◌, Text, if◌then◌else◌, any,
  text_eq, is_present, or_text, arith,
}
use gx_notion2api.Types.Models.{ModelItem}
use gx_notion2api.Chat.Targets.{auto}
use gx_notion2api.Chat.State.{ChatState}
use gx_notion2api.Chat.Opening.{open_conversation}
use gx_notion2api.Chat.Sessions.{
  SavedSession, first_chat, session_of, restore_session, save_session,
}

-- What the page shows of the one that was left: its draft, its choices and its conversation, which is
-- asked for, if it had one.
pub record IsRestored (s : ChatState) (now : ChatState × Option ℕ) : Type 0 where
  pub prompt_kept : now.0.prompt ≡ s.prompt
  pub model_kept : now.0.model ≡ s.model
  pub search_kept : now.0.use_web_search ≡ s.use_web_search
  pub conversation_kept : now.0.conversation_id ≡ s.conversation_id
  pub target_kept : now.0.target ≡ (if is_present s.conversation_id then auto else s.target)
  pub asked : now.1 ≡ (if is_present s.conversation_id then some 1 else none)
  pub loads : now.0.loading ≡ is_present s.conversation_id

or_text_prompt : (t : Text) → or_text (some t) [] ≡ t
unfolding or_text
or_text_prompt [] = refl
or_text_prompt (c ∷ t) = refl

restored_lem :
    (models : List ModelItem) (s : ChatState) (model : Text) (use_web_search : Bool)
    → any (λ item. text_eq item.id s.model) models ≡ true
    → IsRestored s (restore_session models (session_of s) (first_chat model use_web_search))
unfolding restore_session open_conversation first_chat
restored_lem models s model use_web_search known = record {
  prompt_kept = ground (arith, or_text_prompt s.prompt, known);
  model_kept = ground (arith, known);
  search_kept = ground (arith, known);
  conversation_kept = ground (arith, known, or_text_prompt s.conversation_id);
  target_kept = ground (arith, known);
  asked = ground (arith, known);
  loads = ground (arith, known);
}

-- A page that is left while it does not load, and opened anew where the model it used is still listed,
-- has the draft, the model and the search switch that it had. With a conversation it asks for that one,
-- and the workspace comes with its answer; without one it has the workspace that was chosen.
pub restore_session-save_session :
    (models : List ModelItem) (s : ChatState) (saved : SavedSession) (model : Text)
    (use_web_search : Bool)
    → save_session s ≡ some saved
    → any (λ item. text_eq item.id s.model) models ≡ true
    → IsRestored s (restore_session models saved (first_chat model use_web_search))
unfolding save_session
restore_session-save_session models s saved model use_web_search e known =
    let same : session_of s ≡ saved = ground (arith, e) in
    subst
      (λ session. IsRestored s (restore_session models session (first_chat model use_web_search)))
      same (restored_lem models s model use_web_search known)
