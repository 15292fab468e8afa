-- ===== src/Chat/Races/Loads.antt =====
-- The steps of the questions keep the page in order.
use gx_notion2api.Prelude.{
  ap, All-keep, ℕ, ◌≤◌, ◌≡◌, refl, true, none, List, Text, All, arith, Bool-cases, inl, inr,
  nat_eq_iff,
}
use gx_notion2api.Types.Models.{ModelItem}
use gx_notion2api.Chat.Targets.{ChatTarget}
use gx_notion2api.Chat.State.{
  ChatState, toast, is_held, reset_conversation, reset, stop, unmount_chat,
}
use gx_notion2api.Chat.Opening.{
  LoadAnswer, loaded, not_found, broken, open_conversation, conversation_came, handle_answer,
  end_loading, is_current, show_item, opening, switch_notice,
}
use gx_notion2api.Chat.Races.{
  Stage, IsPending, IsStaged, IsOrderly, answered, is_other, asked_with, IsAsked, newest, older,
}
use gx_notion2api.Chat.Races.Kept.{
  newer-IsPending, same-IsPending, answered-IsPending, same-IsStaged, free-IsStaged, free-none,
  aborted-none, aborted_held,
}

module _ (s : ChatState) (stage : Stage) (asked : List (ℕ × Text)) where
  pub opens-IsOrderly :
      (id draft : Text)
      → All (IsPending s) asked
      → IsStaged stage s
      → IsOrderly (record {
        chat = (open_conversation id draft s).0;
        stage = stage;
        asked = asked_with (open_conversation id draft s).1 id asked;
      })
  unfolding open_conversation
  opens-IsOrderly id draft h k = elim (Bool-cases (is_held s.abort_ref)) [
    | inl held ↦ rw held (record {
      pending = same-IsPending s (toast switch_notice s) asked refl refl (λ e. e) refl h;
      staged = same-IsStaged stage s (toast switch_notice s) (λ e. e) (λ e. e) refl k;
    })
    | inr free ↦ rw free (record {
      pending = (
        (omega arith, λ e. (refl, free-none s.abort_ref free, refl)),
        newer-IsPending s (opening id draft s) asked (omega arith) h,
      );
      staged = free-IsStaged stage s (opening id draft s) free (free-none s.abort_ref free) k;
    })
  ]

  pub resets-IsOrderly :
      (targets : List ChatTarget) (draft : Text)
      → All (IsPending s) asked
      → IsStaged stage s
      → IsOrderly
          (record { chat = reset_conversation targets draft s; stage = stage; asked = asked })
  unfolding reset_conversation
  resets-IsOrderly targets draft h k = elim (Bool-cases (is_held s.abort_ref)) [
    | inl held ↦ rw held (record { pending = h; staged = k })
    | inr free ↦ rw free (record {
      pending = newer-IsPending s (reset targets draft s) asked (omega arith) h;
      staged = free-IsStaged stage s (reset targets draft s) free (free-none s.abort_ref free) k;
    })
  ]

  pub unmount-IsOrderly :
      All (IsPending s) asked
      → IsStaged stage s
      → IsOrderly (record { chat = unmount_chat s; stage = stage; asked = asked })
  unfolding unmount_chat
  unmount-IsOrderly h k = record {
    pending = newer-IsPending s (unmount_chat s) asked (omega arith) h;
    staged =
        same-IsStaged stage s (unmount_chat s) (aborted-none s.abort_ref) (aborted_held s.abort_ref)
          refl k;
  }

  pub stop-IsOrderly :
      All (IsPending s) asked
      → IsStaged stage s
      → IsOrderly (record { chat = stop s; stage = stage; asked = asked })
  unfolding stop
  stop-IsOrderly h k = record {
    pending = same-IsPending s (stop s) asked refl refl (aborted-none s.abort_ref) refl h;
    staged =
        same-IsStaged stage s (stop s) (aborted-none s.abort_ref) (aborted_held s.abort_ref) refl k;
  }

-- An asked question is pending.
pub IsAsked-IsPending :
    {revision : ℕ} {id : Text} {asked : List (ℕ × Text)} (s : ChatState)
    → IsAsked revision id asked
    → All (IsPending s) asked
    → IsPending s (revision, id)
IsAsked-IsPending s newest (h, hs) = h
IsAsked-IsPending s (older found) (h, hs) = IsAsked-IsPending s found hs

module _ (models : List ModelItem) (targets : List ChatTarget) where
  handled_revision :
      (revision : ℕ) (draft : Text) (answer : LoadAnswer) (s : ChatState)
      → s.load_revision
        ≤ (end_loading revision (handle_answer models targets draft answer s)).load_revision
  unfolding end_loading handle_answer show_item reset_conversation
  handled_revision revision draft (loaded item) s = ground arith
  handled_revision revision draft not_found s = ground arith
  handled_revision revision draft (broken e) s = ground arith

  handled_free :
      (revision : ℕ) (draft : Text) (answer : LoadAnswer) (s : ChatState)
      → s.abort_ref ≡ none
      → (end_loading revision (handle_answer models targets draft answer s)).abort_ref ≡ none
  unfolding end_loading handle_answer show_item reset_conversation
  handled_free revision draft (loaded item) s e = ground arith
  handled_free revision draft not_found s e = ground arith
  handled_free revision draft (broken cause) s e = ground arith

  pub current_revision :
      (revision : ℕ) (s : ChatState) → is_current revision s ≡ true → revision ≡ s.load_revision
  unfolding is_current
  current_revision revision s e = ground (arith, nat_eq_iff revision s.load_revision)

  module _ (s : ChatState) (stage : Stage) (asked : List (ℕ × Text)) where
    pub comes-IsOrderly :
        (revision : ℕ) (id draft : Text) (answer : LoadAnswer)
        → IsAsked revision id asked
        → All (IsPending s) asked
        → IsStaged stage s
        → IsOrderly (record {
          chat = conversation_came models targets revision draft answer s;
          stage = stage;
          asked = answered revision asked;
        })
    unfolding conversation_came
    comes-IsOrderly revision id draft answer found h k = elim (Bool-cases (is_current revision s)) [
      | inl current ↦
          let (_, f) = IsAsked-IsPending s found h in
          let same = current_revision revision s current in
          let (_, free, _) = f same in
          let ended : ℕ → ChatState =
            λ r. end_loading r (handle_answer models targets draft answer s) in
          rw current (record {
            pending = rw same (
                answered-IsPending s (ended s.load_revision) asked
                  (handled_revision s.load_revision draft answer s) h);
            staged =
                free-IsStaged stage s (ended revision) (ap is_held free)
                  (handled_free revision draft answer s free) k;
          })
      | inr other ↦
          rw other
            (record { pending = All-keep (IsPending s) (is_other revision) asked h; staged = k })
    ]
