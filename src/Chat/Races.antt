-- ===== src/Chat/Races.antt =====
-- The histories of the chat workspace in frontend/components/admin/chat-workspace.tsx: questions for
-- conversations that are still open, and a run that is going, with every answer in any order.
pub mod Kept
pub mod Loads
pub mod Turns
pub mod Reached
use gx_notion2api.Prelude.{
  ℕ, ◌+◌, ◌≤◌, ◌≡◌, Bool, true, false, not, Option, none, some, List, [], ◌∷◌, Text, All, keep,
  nat_eq, if◌then◌else◌,
}
use gx_notion2api.Types.Models.{ModelItem}
use gx_notion2api.Types.Conversations.{ConversationDetail}
use gx_notion2api.Types.Chat.{AttachmentInput, ChatRunInput, ChatRunResult}
use gx_notion2api.Chat.Targets.{ChatTarget}
use gx_notion2api.Chat.State.{
  ChatState, is_held, reset_conversation, stop, unmount_chat, sync_active,
}
use gx_notion2api.Chat.Opening.{LoadAnswer, open_conversation, conversation_came}
use gx_notion2api.Chat.Running.{
  Run, start_run, files_read, delta_came, result_came, reload_came, run_failed, recovery_came,
  id_or,
}

-- Where the run of the page stands: the reading of its files, its stream, the reload of the
-- conversation it wrote, or the reload after a failure
pub data Stage : Type 0 where
  idle : Stage
  reading : Run → Stage
  streaming : Run → Stage
  reloading : Text → Stage
  recovering : Run → Stage

-- `asked` are the questions of `openConversation` without an answer yet, each with its revision.
pub record System : Type 0 where
  pub chat : ChatState
  pub stage : Stage
  pub asked : List (ℕ × Text)

abbrev pub asked_with : Option ℕ → Text → List (ℕ × Text) → List (ℕ × Text)
asked_with none id asked = asked
asked_with (some revision) id asked = (revision, id) ∷ asked

abbrev pub is_other : ℕ → ℕ × Text → Bool
is_other revision entry = not (nat_eq entry.0 revision)

abbrev pub answered : ℕ → List (ℕ × Text) → List (ℕ × Text)
answered revision asked = keep (is_other revision) asked

abbrev pub stage_of : Option Run → Stage → Stage
stage_of none stage = stage
stage_of (some run) stage = reading run

abbrev pub stream_of : Run → Option ChatRunInput → Stage
stream_of run none = idle
stream_of run (some input) = streaming run

-- The members of a list of questions
pub data IsAsked (revision : ℕ) (id : Text) : List (ℕ × Text) → Type 0 where
  newest : {asked : List (ℕ × Text)} → IsAsked revision id ((revision, id) ∷ asked)
  older :
      {asked : List (ℕ × Text)} {entry : ℕ × Text}
      → IsAsked revision id asked
      → IsAsked revision id (entry ∷ asked)

module _ (models : List ModelItem) (targets : List ChatTarget) where
  -- One step of the page. A step of the run needs a run at that stage, and an answer needs a
  -- question.
  pub data Step (s : System) : System → Type 0 where
    opens :
        (id draft : Text)
        → Step s (record {
          chat = (open_conversation id draft s.chat).0;
          stage = s.stage;
          asked = asked_with (open_conversation id draft s.chat).1 id s.asked;
        })
    comes :
        (revision : ℕ) (id draft : Text) (answer : LoadAnswer)
        → IsAsked revision id s.asked
        → Step s (record {
          chat = conversation_came models targets revision draft answer s.chat;
          stage = s.stage;
          asked = answered revision s.asked;
        })
    resets : (draft : Text) → Step s (record s { chat = reset_conversation targets draft s.chat })
    types : (draft : Text) → Step s (record s { chat = record s.chat { prompt = draft } })
    syncs : Step s (record s { chat = sync_active s.chat })
    stops : Step s (record s { chat = stop s.chat })
    leaves : Step s (record s { chat = unmount_chat s.chat })
    starts :
        (conversation answer : Text)
        → Step s (record {
          chat = (start_run targets conversation answer s.chat).0;
          stage = stage_of (start_run targets conversation answer s.chat).1 s.stage;
          asked = s.asked;
        })
    reads :
        (run : Run) (attachments : List AttachmentInput)
        → s.stage ≡ reading run
        → Step s (record {
          chat = (files_read run attachments s.chat).0;
          stage = stream_of run (files_read run attachments s.chat).1;
          asked = s.asked;
        })
    streams :
        (run : Run) (delta : Text)
        → s.stage ≡ streaming run
        → Step s (record s { chat = delta_came run delta s.chat })
    completes :
        (run : Run) (result : ChatRunResult)
        → s.stage ≡ streaming run
        → Step s (record {
          chat = (result_came run result s.chat).0;
          stage =
              if (result_came run result s.chat).1
              then reloading (id_or result.conversation_id run.id)
              else idle;
          asked = s.asked;
        })
    reloads :
        (id : Text) (item : Option ConversationDetail)
        → s.stage ≡ reloading id
        → Step s (record s { chat = reload_came item s.chat; stage = idle })
    fails :
        (run : Run) (cause : Option Text)
        → s.stage ≡ streaming run
        → Step s (record {
          chat = (run_failed run cause s.chat).0;
          stage = if (run_failed run cause s.chat).1 then recovering run else idle;
          asked = s.asked;
        })
    misreads :
        (run : Run) (cause : Option Text)
        → s.stage ≡ reading run
        → Step s (record {
          chat = (run_failed run cause s.chat).0;
          stage = if (run_failed run cause s.chat).1 then recovering run else idle;
          asked = s.asked;
        })
    recovers :
        (run : Run) (item : Option ConversationDetail)
        → s.stage ≡ recovering run
        → Step s (record s { chat = recovery_came run item s.chat; stage = idle })

  pub data Reach (s : System) : System → Type 0 where
    here : Reach s s
    next : {t u : System} → Reach s t → Step t u → Reach s u

-- A question of the current revision is loading its conversation, and no run is going.
abbrev pub IsPending : ChatState → ℕ × Text → Type 0
IsPending s (revision, id) =
    (revision ≤ s.load_revision)
    × (revision ≡ s.load_revision
        → (s.loading ≡ true) × (s.abort_ref ≡ none) × (s.conversation_id ≡ id))

-- The controller is held while a run is going, and a stream writes to the conversation on screen.
abbrev pub IsStaged : Stage → ChatState → Type 0
IsStaged idle s = s.abort_ref ≡ none
IsStaged (reading run) s = is_held s.abort_ref ≡ true
IsStaged (streaming run) s = (is_held s.abort_ref ≡ true) × (s.conversation_id ≡ run.id)
IsStaged (reloading id) s = (is_held s.abort_ref ≡ true) × (s.conversation_id ≡ id)
IsStaged (recovering run) s = is_held s.abort_ref ≡ true

pub record IsOrderly (s : System) : Type 0 where
  pub pending : All (IsPending s.chat) s.asked
  pub staged : IsStaged s.stage s.chat

abbrev pub idle_system : ChatState → System
idle_system chat = record { chat = chat; stage = idle; asked = [] }
