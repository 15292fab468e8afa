-- ===== src/Tests/ShellTests.antt =====
-- The frame, the notebook, the prompt strategy and the model names at small inputs.
use gx_notion2api.Prelude.{
  ℕ, ◌≡◌, refl, true, false, some, none, List, [], ◌∷◌, Text, txt, text_eq, contains, trim, decimal,
  any, find, keep, or_text, if◌then◌else◌,
}
use gx_notion2api.Types.Models.{ModelItem}
use gx_notion2api.Shell.{
  dashboard, settings, ShellState, initial_shell, sync_tab, set_active_tab, report_settings,
  leave_panels, requested_tab, has_unsaved, tab_eq,
}
use gx_notion2api.Shell.Tabs
use gx_notion2api.Shell.Tabs.{IsInStep, Reach-IsInStep}
use gx_notion2api.Shell.Tabs.Staying.{StaysOn, Step-StaysOn}
use gx_notion2api.Notebook.{
  NoteWorkspace, NotebookState, initial_notebook, NoteRequest, NoteAnswer, titles, shared,
  reset_notebook, target_with, initial_target, begin_read, notes_came,
}
use gx_notion2api.Notebook.Loads
use gx_notion2api.Notebook.Loads.{IsUpToDate}
use gx_notion2api.Notebook.Loads.Kept.{Reach-IsUpToDate}
use gx_notion2api.Settings.Prompts.{build_prompt_strategy_payload, prompt_form}
use gx_notion2api.Settings.Blocks.{is_plain}
use gx_notion2api.Settings.Strategies.{
  Strategy, config_of, IsNormal, build_prompt_strategy_payload-prompt_form,
}
use gx_notion2api.ModelDisplay.{candidates, proper_names, model_display_name}
use gx_notion2api.ModelDisplay.Ambiguity.{model_display_name_ambiguous}

abbrev start : ShellState
start = leave_panels (sync_tab false (initial_shell (some (txt "settings"))))

start_settings : tab_eq start.active_tab settings ≡ true
unfolding leave_panels sync_tab initial_shell requested_tab tab_eq
start_settings = refl

abbrev edited : ShellState
edited = report_settings true start

history : Tabs.Reach start edited
history = Tabs.next {confirmed = false} Tabs.here (Tabs.edits_settings true start_settings)

Reach-IsInStep_example : IsInStep edited
Reach-IsInStep_example = Reach-IsInStep (some (txt "settings")) false history

edited-IsInStep : IsInStep edited
edited-IsInStep = Reach-IsInStep (some (txt "settings")) false history

edited_unsaved : has_unsaved edited ≡ true
unfolding report_settings
edited_unsaved = refl

Step-StaysOn_example :
    StaysOn edited.active_tab (leave_panels (set_active_tab false dashboard edited))
Step-StaysOn_example = Step-StaysOn edited-IsInStep edited_unsaved (Tabs.chooses dashboard)

abbrev workspace : NoteWorkspace
workspace = record { id = txt "t1"; email = txt "e"; workspace = txt "w"; name = txt "n" }

abbrev AnswersNone : NoteRequest → NoteAnswer → Type 0
AnswersNone first_read answer = answer ≡ titles []

abbrev closed : Loads.System
closed = record { dialog = initial_notebook; awaited = [] }

closed-IsUpToDate : IsUpToDate AnswersNone closed
unfolding initial_notebook any
closed-IsUpToDate = record {
  list_shown = tt;
  note_shown = tt;
  waits = refl;
  numbered = tt;
  seen = tt;
}

abbrev opened : NotebookState
opened = reset_notebook (workspace ∷ []) none initial_notebook

abbrev first_read : NoteRequest
first_read = record {
  number = 2;
  workspace = workspace;
  page = none;
  again = false;
  source = shared;
}

abbrev asked : Loads.System
asked = record {
  dialog = (begin_read (workspace ∷ []) none opened).0;
  awaited = Loads.and_awaited (begin_read (workspace ∷ []) none opened).1 [];
}

abbrev answered : Loads.System
answered = record {
  dialog = notes_came first_read (titles []) asked.dialog;
  awaited = keep (Loads.is_other first_read.number) asked.awaited;
}

request_awaited : Loads.IsAwaited first_read asked.awaited
unfolding begin_read reset_notebook initial_notebook target_with initial_target find any text_eq
request_awaited = Loads.newest

note_history : Loads.Reach AnswersNone closed answered
note_history =
    Loads.next
      (Loads.next (Loads.next Loads.here (Loads.opens (workspace ∷ []) none))
        (Loads.reads (workspace ∷ []) none))
      (Loads.answers first_read (titles []) request_awaited refl)

Reach-IsUpToDate_example : IsUpToDate AnswersNone answered
Reach-IsUpToDate_example = Reach-IsUpToDate AnswersNone closed-IsUpToDate note_history

-- The list comes to be shown.
list_comes : answered.dialog.items ≡ some []
unfolding begin_read reset_notebook initial_notebook target_with initial_target find any text_eq
    notes_came
list_comes = refl

abbrev strategy : Strategy
strategy = record {
  profile = txt "p";
  custom_prefix = [];
  fallback_profiles = txt "a" ∷ txt "b" ∷ [];
  max_escalation_steps = 1;
  max_refusal_retries = 12;
  cognitive_reframing_prefix = txt "x";
  toolbox_capability_expansion_prefix = txt "y";
  coding_retry_prefixes = txt "- one" ∷ txt "two" ∷ [];
  general_retry_prefixes = [];
  direct_answer_retry_prefixes = txt "three" ∷ [];
}

-- The number that a numeral of one or two digits is
abbrev small_number : Text → ℕ
small_number t = if text_eq t (txt "1") then 1 else 12

strategy-IsNormal : IsNormal strategy
unfolding trim is_plain text_eq
strategy-IsNormal = record {
  profile_trimmed = refl;
  profile_given = refl;
  fallbacks = ((((refl, refl), tt), refl, refl), ((((refl, refl), tt), refl, refl), tt));
  reframing_given = refl;
  toolbox_given = refl;
  coding = ((refl, refl, refl), ((refl, refl, refl), tt));
  general = tt;
  direct = ((refl, refl, refl), tt);
}

one_read : small_number (decimal 1) ≡ 1
unfolding decimal text_eq
one_read = refl

twelve_read : small_number (decimal 12) ≡ 12
unfolding decimal text_eq
twelve_read = refl

build_prompt_strategy_payload-prompt_form_example :
    build_prompt_strategy_payload small_number (prompt_form (config_of strategy))
    ≡ config_of strategy
build_prompt_strategy_payload-prompt_form_example =
    build_prompt_strategy_payload-prompt_form small_number strategy strategy-IsNormal one_read
      twelve_read

abbrev named : Text → ModelItem
named name = record {
  default_reasoning_effort = none;
  supported_reasoning_efforts = none;
  disabled_reason = none;
  id = txt "m";
  name = some name;
  family = none;
  group = none;
  notion_model = none;
  aliases = none;
  beta = none;
  enabled = none;
}

abbrev two_models : List ModelItem
two_models = named (txt "One") ∷ named (txt "Two") ∷ []

abbrev same_text : Text → Text
same_text t = t

abbrev found_names : List Text
found_names = proper_names same_text (txt "m") (candidates same_text (txt "m") none two_models [])

one_found : contains (txt "One") found_names ≡ true
unfolding contains proper_names candidates trim text_eq keep or_text
one_found = refl

two_found : contains (txt "Two") found_names ≡ true
unfolding contains proper_names candidates trim text_eq keep or_text
two_found = refl

two_differ : text_eq (txt "One") (txt "Two") ≡ false
unfolding text_eq
two_differ = refl

model_display_name_ambiguous_example :
    model_display_name same_text (txt "m") two_models none [] ≡ none
model_display_name_ambiguous_example =
    model_display_name_ambiguous same_text (txt "m") two_models none [] (txt "One") (txt "Two")
      one_found two_found two_differ
