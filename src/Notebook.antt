-- ===== src/Notebook.antt =====
-- The dialog of frontend/components/admin/notebook-dialog.tsx: the notes of a workspace, and one of
-- them. `read` is split at its request, which carries the number that `revision` gives it. The search
-- of the titles is by lower case of the locale, and `onReference` is a prop of the dialog.
pub mod Loads
use gx_notion2api.Prelude.{
  message_or, ℕ, ◌+◌, Bool, true, false, not, ◌&&◌, ◌||◌, Option, none, some, List, [], ◌∷◌, Text,
  txt, if◌then◌else◌, text_eq, or_text, find, any, nat_eq, is_present,
}

pub record NoteWorkspace : Type 0 where
  pub id : Text
  pub email : Text
  pub workspace : Text
  pub name : Text

pub record Note : Type 0 where
  pub id : Text
  pub title : Text
  pub text : Text
  pub partial : Bool

pub record NoteTitle : Type 0 where
  pub id : Text
  pub title : Text

pub data NoteSource : Type 0 where
  shared private : NoteSource

pub record NotebookState : Type 0 where
  pub target : Text
  pub items : Option (List NoteTitle)
  pub note : Option Note
  pub filter : Text
  pub source : NoteSource
  pub busy : Bool
  pub error : Text
  pub revision : ℕ

unfoldable pub initial_notebook : NotebookState
initial_notebook = record {
  target = [];
  items = none;
  note = none;
  filter = [];
  source = shared;
  busy = false;
  error = [];
  revision = 0;
}

unfoldable pub target_with : Text → List NoteWorkspace → Option NoteWorkspace
target_with id targets = find (λ item. text_eq item.id id) targets

abbrev pub first_target : List NoteWorkspace → Text
first_target [] = []
first_target (item ∷ targets) = item.id

-- The current workspace, if it is a target, or else the first target
unfoldable pub initial_target : List NoteWorkspace → Option Text → Text
initial_target targets none = first_target targets
initial_target targets (some id) =
    if any (λ item. text_eq item.id id) targets then id else first_target targets

-- The effect on opening and on the current workspace
unfoldable pub reset_notebook : List NoteWorkspace → Option Text → NotebookState → NotebookState
unfolding initial_target
reset_notebook targets current s = record s {
  revision = s.revision + 1;
  target = initial_target targets current;
  items = none;
  note = none;
  error = [];
  busy = false;
  filter = [];
}

-- `onValueChange` of the two lists, which are disabled while the dialog is busy
unfoldable pub choose_target : Text → NotebookState → NotebookState
choose_target value s = record s {
  revision = s.revision + 1;
  target = value;
  items = none;
  note = none;
  error = [];
  filter = [];
}

unfoldable pub choose_source : NoteSource → NotebookState → NotebookState
choose_source value s = record s {
  revision = s.revision + 1;
  source = value;
  items = none;
  note = none;
  error = [];
  filter = [];
}

unfoldable pub set_filter : Text → NotebookState → NotebookState
set_filter value s = record s { filter = value }

-- `page` is `none` for the list of notes; `again` asks the server to read the list anew.
pub record NoteRequest : Type 0 where
  pub number : ℕ
  pub workspace : NoteWorkspace
  pub page : Option Text
  pub again : Bool
  pub source : NoteSource

abbrev pub has_items : Option (List NoteTitle) → Bool
has_items none = false
has_items (some items) = true

-- `if (pageID)`: the empty id asks for the list.
abbrev pub asked_page : Option Text → Option Text
asked_page none = none
asked_page (some page) = if is_present page then some page else none

-- `if (pageID) setNote(null)`
abbrev pub kept_note : Option Text → Option Note → Option Note
kept_note none shown = shown
kept_note (some page) shown = none

abbrev pub send_read :
    Option NoteWorkspace → Option Text → NotebookState → NotebookState × Option NoteRequest
send_read none page s = (s, none)
send_read (some workspace) page s = (
  record s { revision = s.revision + 1; busy = true; error = []; note = kept_note page s.note },
  some (record {
    number = s.revision + 1;
    workspace = workspace;
    page = page;
    again = has_items s.items;
    source = s.source;
  }),
)

-- `read` up to its request; `targets` are those of the render.
unfoldable pub begin_read :
    List NoteWorkspace → Option Text → NotebookState → NotebookState × Option NoteRequest
unfolding target_with
begin_read targets page s =
    if s.busy then (s, none) else send_read (target_with s.target targets) (asked_page page) s

-- The answer: a list, a note, or an error
pub data NoteAnswer : Type 0 where
  titles : List NoteTitle → NoteAnswer
  note_text : Note → NoteAnswer
  failure : Option Text → NoteAnswer

abbrev pub show_answer : NoteAnswer → NotebookState → NotebookState
show_answer (titles items) s = record s { items = some items; busy = false }
show_answer (note_text note) s = record s { note = some note; busy = false }
show_answer (failure cause) s = record s { error = message_or cause (txt "笔记读取失败"); busy = false }

-- `read` after its request
unfoldable pub notes_came : NoteRequest → NoteAnswer → NotebookState → NotebookState
notes_came request answer s = if nat_eq request.number s.revision then show_answer answer s else s

abbrev pub is_target : Option NoteWorkspace → Bool
is_target none = false
is_target (some workspace) = true

-- Can the note be referenced?
unfoldable pub can_reference : Bool → List NoteWorkspace → Note → NotebookState → Bool
unfolding target_with
can_reference reference_disabled targets note s = not (
    s.busy
    || reference_disabled
    || not (is_present note.text)
    || not (is_target (target_with s.target targets)))
