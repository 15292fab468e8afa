-- ===== src/Chat/Editing/Answers.antt =====
-- What the answers to edits do to the conversation on screen.
use gx_notion2api.Prelude.{
  [], ◌≡◌, true, false, some, Text, arith, text_eq, listed, Bool, ◌&&◌, if◌then◌else◌, is_present,
  trim, or_text,
}
use gx_notion2api.Types.Conversations.{ConversationMessage, ConversationDetail}
use gx_notion2api.Chat.State.{ChatState, cancel_edit, sync_active}
use gx_notion2api.Chat.Editing.{Edit, commit_edit, edit_came}

-- The conversation that was edited is the one in view, by the ref or by the state.
abbrev pub in_view : Bool → Text → Text → Bool
in_view mounted shown target_id = mounted && text_eq shown target_id

-- The answer to an edit replaces the transcript, and the title where it has one, exactly if the page
-- is mounted and the ref names the conversation that was edited. Once the effect on a changed
-- conversation has run, that is the conversation on screen. The answer ends the saving in every case,
-- and leaves the conversation, the draft and the files alone.
pub edit_came_lem :
    (target_id : Text) (item : ConversationDetail) (s : ChatState)
    → ((edit_came target_id item s).messages ≡ (
        if in_view s.mounted s.active_conversation_ref target_id
        then listed item.messages
        else s.messages))
      × ((edit_came target_id item s).title ≡ (
          if in_view s.mounted s.active_conversation_ref target_id
          then or_text item.title s.title
          else s.title))
      × ((edit_came target_id item (sync_active s)).messages ≡ (
          if in_view s.mounted s.conversation_id target_id
          then listed item.messages
          else s.messages))
      × ((edit_came target_id item s).saving_edit ≡ false)
      × ((edit_came target_id item s).conversation_id ≡ s.conversation_id)
      × ((edit_came target_id item s).prompt ≡ s.prompt)
      × ((edit_came target_id item s).files ≡ s.files)
unfolding edit_came cancel_edit sync_active
edit_came_lem target_id item s = (
  ground arith,
  ground arith,
  ground arith,
  ground arith,
  ground arith,
  ground arith,
  ground arith,
)

-- An edit that is sent names the conversation on screen, and its text is trimmed, not empty and not
-- the trimmed text of the message.
pub commit_edit_lem :
    (message : ConversationMessage) (s : ChatState) (edit : Edit)
    → (commit_edit message s).1 ≡ some edit
    → (edit.target_id ≡ s.conversation_id)
      × (edit.next ≡ trim s.edit_value)
      × (is_present edit.next ≡ true)
      × (text_eq edit.next (trim (or_text message.content [])) ≡ false)
      × (is_present s.conversation_id ≡ true)
      × ((commit_edit message s).0.saving_edit ≡ true)
unfolding commit_edit cancel_edit
commit_edit_lem message s edit e = (
  ground (arith, e),
  ground (arith, e),
  ground (arith, e),
  ground (arith, e),
  ground (arith, e),
  ground (arith, e),
)
