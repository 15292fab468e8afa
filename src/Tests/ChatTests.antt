-- ===== src/Tests/ChatTests.antt =====
-- The chat workspace on small pages.
use gx_notion2api.Prelude.{
  ◌≡◌, ◌≤◌, ◌⊎◌, refl, true, false, find, insert, some, none, Bool, Option, if◌then◌else◌, List, [],
  ◌∷◌, ◌++◌, Text, txt, arith, All, contains, text_eq, option_eq, trim, is_present, or_text, listed,
  length, keep, not, ◌+◌, ◌*◌, ◌/◌,
}
use gx_notion2api.Types.Models.{ModelItem}
use gx_notion2api.Types.Conversations.{ConversationMessage, ConversationDetail}
use gx_notion2api.Chat.Attachments.{ChatFile, add_files, total_bytes, budget, file_key}
use gx_notion2api.Chat.Attachments.Budget.{add_files-le-budget}
use gx_notion2api.Chat.Attachments.Answers.{IsDistinct, keys, Rejects, told, add_files_answers}
use gx_notion2api.Chat.Tokens.{estimate_tokens, is_cjk_ideograph, code_points}
use gx_notion2api.Chat.Tokens.Bounds.{estimate_tokens_bounds}
use gx_notion2api.Chat.Targets.{
  auto, available_models, auto_model, flat_models, model_targets, eligible_targets,
}
use gx_notion2api.Types.Accounts.{AccountItem, WorkspaceItem, manual}
use gx_notion2api.Accounts.Items.{bare_workspace}
use gx_notion2api.Chat.Targets.Allowed.{IsAllowed}
use gx_notion2api.Chat.Targets.Models.{HasDistinctModels, AreOffered, available_models_lem}
use gx_notion2api.Chat.State.{ChatState, fresh_chat, sync_active}
use gx_notion2api.Chat.Opening.{not_found, open_conversation, conversation_came}
use gx_notion2api.Chat.Running.{Run, shown_turn, user_message, reconcile}
use gx_notion2api.Chat.Running.Streams.{
  stream, joined, answer_with, stream-shown_turn, IsCutShort, reconcile-append,
}
use gx_notion2api.Chat.Editing.{Edit, commit_edit, edit_came}
use gx_notion2api.Chat.Editing.Answers.{in_view, commit_edit_lem, edit_came_lem}
use gx_notion2api.Chat.Races.{
  System, idle, idle_system, IsOrderly, asked_with, Reach, here, next, opens, IsAsked, newest,
  older,
}
use gx_notion2api.Chat.Races.Reached.{Reach-IsOrderly, conversation_came-is_current}
use gx_notion2api.Tests.Samples.{message_of, summary_of, sample_account}

abbrev notes_file : ChatFile
notes_file = record { name = txt "notes.txt"; size = 12; content_type = txt "text/plain" }

abbrev empty_file : ChatFile
empty_file = record { name = txt "void"; size = 0; content_type = [] }

abbrev fresh : ChatState
fresh = fresh_chat (txt "auto") true

add_files-le-budget_example : total_bytes (add_files false [] (notes_file ∷ [])).0 ≤ budget
unfolding total_bytes
add_files-le-budget_example = add_files-le-budget false [] (notes_file ∷ []) (omega arith)

add_files_answers_example :
    IsDistinct (keys (add_files false [] (notes_file ∷ empty_file ∷ [])).0)
    × All
        (λ file.
          (contains (file_key file) (keys (add_files false [] (notes_file ∷ empty_file ∷ [])).0)
            ≡ true)
          ⊎ Rejects (told (add_files false [] (notes_file ∷ empty_file ∷ [])).1) file)
        (notes_file ∷ empty_file ∷ [])
add_files_answers_example = add_files_answers [] (notes_file ∷ empty_file ∷ []) tt

estimate_tokens_bounds_example :
    (estimate_tokens (some (txt "hello"))
      ≡ length (keep is_cjk_ideograph (code_points (txt "hello")))
        + (length (keep (λ c. not (is_cjk_ideograph c)) (code_points (txt "hello"))) + 3) / 4)
    × (estimate_tokens (some (txt "hello")) ≤ length (code_points (txt "hello")))
    × (length (code_points (txt "hello")) ≤ length (txt "hello"))
    × (length (code_points (txt "hello")) ≤ 4 * estimate_tokens (some (txt "hello")))
estimate_tokens_bounds_example = estimate_tokens_bounds (txt "hello") refl

abbrev model_of : Text → Option Bool → ModelItem
model_of id enabled = record auto_model { id = id; name = none; enabled = enabled }

abbrev offered_models : List ModelItem
offered_models =
    model_of (txt "m1") none ∷ model_of (txt "m2") (some false) ∷ model_of (txt "m3") none ∷ []

-- The catalogue has disabled the third.
abbrev catalogue : List ModelItem
catalogue = model_of (txt "m3") (some false) ∷ []

abbrev able : WorkspaceItem
able = record (bare_workspace (txt "w1")) {
  eligible = some true;
  model_capabilities =
      some
        (record { mode = manual; checked_at = none; models = some offered_models; catalog = none });
}

abbrev sample_accounts : List AccountItem
sample_accounts = record (sample_account (txt "e") (able ∷ [])) { disabled = none } ∷ []

available_models_lem_example :
    (items : List ModelItem) × (available_models catalogue sample_accounts auto
      ≡ auto_model ∷ items)
    × HasDistinctModels (available_models catalogue sample_accounts auto)
    × All (IsAllowed catalogue) items
    × AreOffered catalogue items (flat_models (model_targets sample_accounts auto))
available_models_lem_example = available_models_lem catalogue sample_accounts auto

one_offered :
    available_models catalogue sample_accounts auto ≡ auto_model ∷ model_of (txt "m1") none ∷ []
unfolding available_models text_eq keep eligible_targets find insert
one_offered = refl

-- Two conversations are opened, the second before the first has come.
abbrev first_page : System
first_page = record {
  chat = (open_conversation (txt "c1") [] fresh).0;
  stage = idle;
  asked = asked_with (open_conversation (txt "c1") [] fresh).1 (txt "c1") [];
}

abbrev second_page : System
second_page = record {
  chat = (open_conversation (txt "c2") [] first_page.chat).0;
  stage = idle;
  asked =
      asked_with (open_conversation (txt "c2") [] first_page.chat).1 (txt "c2") first_page.asked;
}

second_page-Reach : Reach [] [] (idle_system fresh) second_page
second_page-Reach = next (next here (opens (txt "c1") [])) (opens (txt "c2") [])

Reach-IsOrderly_example : IsOrderly second_page
Reach-IsOrderly_example =
    Reach-IsOrderly [] [] (record { pending = tt; staged = refl }) second_page-Reach

first_IsAsked : IsAsked 1 (txt "c1") second_page.asked
unfolding open_conversation
first_IsAsked = older newest

-- The first answer comes late and changes nothing.
late_answer : conversation_came [] [] 1 [] not_found second_page.chat ≡ second_page.chat
unfolding conversation_came open_conversation
late_answer = refl

conversation_came-is_current_example :
    (conversation_came [] [] 1 [] not_found second_page.chat ≡ second_page.chat)
    ⊎ ((second_page.chat.conversation_id ≡ txt "c1")
        × (second_page.chat.loading ≡ true)
        × (second_page.chat.abort_ref ≡ none))
conversation_came-is_current_example =
    conversation_came-is_current [] [] fresh second_page 1 (txt "c1") [] not_found refl
      second_page-Reach first_IsAsked

abbrev turn : Run
turn = record {
  id = txt "conv_1";
  answer_id = txt "answer_1";
  is_new = true;
  sent_prompt = txt "hi";
  sent_files = [];
  model = txt "auto";
  use_web_search = true;
  selected_target = none;
}

abbrev two_deltas : List Text
two_deltas = txt "he" ∷ txt "llo" ∷ []

stream-shown_turn_example :
    (stream turn two_deltas (shown_turn turn fresh)).messages
    ≡ fresh.messages ++ user_message turn ∷ answer_with turn (joined two_deltas) ∷ []
stream-shown_turn_example = stream-shown_turn turn two_deltas fresh refl tt

abbrev stored : ConversationMessage
stored = record (message_of (txt "m2") (txt "he")) { role = some (txt "assistant") }

abbrev on_screen : ConversationMessage
on_screen = answer_with turn (txt "hello")

reconcile-append_example :
    (reconcile (txt "answer_1") none (message_of (txt "m1") (txt "hi") ∷ stored ∷ [])
      ≡ message_of (txt "m1") (txt "hi") ∷ stored ∷ [])
    × ((IsCutShort (txt "answer_1") on_screen stored
          × (reconcile
                (txt "answer_1")
                (some on_screen)
                (message_of (txt "m1") (txt "hi") ∷ stored ∷ [])
              ≡ message_of (txt "m1") (txt "hi")
                ∷ record stored { content = on_screen.content; status = some (txt "failed") }
                ∷ []))
        ⊎ ((¬ IsCutShort (txt "answer_1") on_screen stored)
            × (reconcile
                  (txt "answer_1")
                  (some on_screen)
                  (message_of (txt "m1") (txt "hi") ∷ stored ∷ [])
                ≡ message_of (txt "m1") (txt "hi") ∷ stored ∷ [])))
reconcile-append_example =
    reconcile-append (txt "answer_1") on_screen (message_of (txt "m1") (txt "hi") ∷ []) stored

-- The longer answer on screen is kept.
answer_kept :
    reconcile (txt "answer_1") (some on_screen) (message_of (txt "m1") (txt "hi") ∷ stored ∷ [])
    ≡ message_of (txt "m1") (txt "hi")
      ∷ record stored { content = on_screen.content; status = some (txt "failed") }
      ∷ []
unfolding reconcile text_eq option_eq or_text length
answer_kept = refl

abbrev edited : ConversationMessage
edited = message_of (txt "m1") (txt "hi")

abbrev editing : ChatState
editing = record fresh {
  conversation_id = txt "c1";
  active_conversation_ref = txt "c1";
  editing_id = txt "m1";
  edit_value = txt " hello ";
}

abbrev sent_edit : Edit
sent_edit = record { target_id = txt "c1"; message_id = txt "m1"; next = txt "hello" }

commit_edit_lem_example :
    (sent_edit.target_id ≡ editing.conversation_id)
    × (sent_edit.next ≡ trim editing.edit_value)
    × (is_present sent_edit.next ≡ true)
    × (text_eq sent_edit.next (trim (or_text edited.content [])) ≡ false)
    × (is_present editing.conversation_id ≡ true)
    × ((commit_edit edited editing).0.saving_edit ≡ true)
unfolding commit_edit trim text_eq or_text
commit_edit_lem_example = commit_edit_lem edited editing sent_edit refl

abbrev answer : ConversationDetail
answer = record {
  summary = summary_of (txt "c1") [];
  messages = some (message_of (txt "m1") (txt "hello") ∷ []);
}

edit_came_lem_example :
    ((edit_came (txt "c1") answer editing).messages ≡ (
      if in_view editing.mounted editing.active_conversation_ref (txt "c1")
      then listed answer.messages
      else editing.messages))
    × ((edit_came (txt "c1") answer editing).title ≡ (
        if in_view editing.mounted editing.active_conversation_ref (txt "c1")
        then or_text answer.title editing.title
        else editing.title))
    × ((edit_came (txt "c1") answer (sync_active editing)).messages ≡ (
        if in_view editing.mounted editing.conversation_id (txt "c1")
        then listed answer.messages
        else editing.messages))
    × ((edit_came (txt "c1") answer editing).saving_edit ≡ false)
    × ((edit_came (txt "c1") answer editing).conversation_id ≡ editing.conversation_id)
    × ((edit_came (txt "c1") answer editing).prompt ≡ editing.prompt)
    × ((edit_came (txt "c1") answer editing).files ≡ editing.files)
edit_came_lem_example = edit_came_lem (txt "c1") answer editing

-- The answer is shown.
edit_shown : (edit_came (txt "c1") answer editing).messages ≡ listed answer.messages
unfolding edit_came text_eq
edit_shown = refl
