-- ===== src/Listing/Selections.antt =====
-- What the selection of the conversation list keeps.
use gx_notion2api.Prelude.{
  ◌≡◌, refl, Bool, true, false, not, ◌&&◌, ◌||◌, Option, none, some, List, [], ◌∷◌, ◌++◌, Text,
  arith, Bool-cases, inl, inr, text_eq, text_eq_iff, text_eq_refl, subst, ◌⊎◌, All, any, keep,
  contains,
}
use gx_notion2api.Types.Conversations.{ConversationSummary}
use gx_notion2api.Listing.{
  ListState, filtered_conversations, is_listed, prune_selection, auto_select, begin_batch_delete,
}

contains_append :
    (id other : Text) (ids : List Text)
    → contains other (ids ++ id ∷ []) ≡ contains other ids || text_eq id other
unfolding contains any
contains_append id other [] = ground arith
contains_append id other (x ∷ ids) = ground (arith, contains_append id other ids)

contains_without :
    (id other : Text) (ids : List Text)
    → contains other (keep (λ item. not (text_eq item id)) ids)
      ≡ contains other ids && not (text_eq id other)
unfolding contains any keep
contains_without id other [] = refl
contains_without id other (x ∷ ids) = ground (
  arith,
  contains_without id other ids,
  text_eq_iff x id,
  text_eq_iff x other,
  text_eq_iff id other,
)

kept_holds : (p : Text → Bool) (ids : List Text) → All (λ id. p id ≡ true) (keep p ids)
unfolding keep
kept_holds p [] = tt
kept_holds p (x ∷ ids) = elim (Bool-cases (p x)) [
  | inl e ↦ rw e (e, kept_holds p ids)
  | inr e ↦ rw e (kept_holds p ids)
]

sent_lem :
    (confirmed : Bool) (s : ListState) (ids : List Text)
    → (begin_batch_delete confirmed s).1 ≡ some ids
    → s.selected_ids ≡ ids
unfolding begin_batch_delete
sent_lem confirmed s ids e = ground (arith, e)

-- After the effects on the shown conversations, the ids that a batch deletion sends are all shown.
pub begin_batch_delete-prune_selection :
    (confirmed : Bool) (account_filter : Text) (conversations : List ConversationSummary)
    (s : ListState) (ids : List Text)
    → (begin_batch_delete confirmed
        (prune_selection (filtered_conversations account_filter conversations) s)).1
      ≡ some ids
    → All (λ id. is_listed (filtered_conversations account_filter conversations) id ≡ true) ids
unfolding begin_batch_delete prune_selection
begin_batch_delete-prune_selection confirmed account_filter conversations s ids e =
    let shown = filtered_conversations account_filter conversations in
    subst (λ sent. All (λ id. is_listed shown id ≡ true) sent)
      (sent_lem confirmed (prune_selection shown s) ids e)
      (kept_holds (is_listed shown) s.selected_ids)

abbrev pub IsChoice : Text → List ConversationSummary → Option Text → Type 0
IsChoice selected shown none = (is_listed shown selected ≡ true) ⊎ (shown ≡ [])
IsChoice selected shown (some id) = (is_listed shown selected ≡ false) × (is_listed shown id ≡ true)

-- The conversation that the panel asks for is shown, where the selected one is not; it asks for none
-- only if the selected one is shown or there is none to show.
pub auto_select_lem :
    (selected : Text) (shown : List ConversationSummary)
    → IsChoice selected shown (auto_select selected shown)
unfolding auto_select is_listed any
auto_select_lem selected [] = inr refl
auto_select_lem selected (item ∷ shown) = elim (Bool-cases (is_listed (item ∷ shown) selected)) [
  | inl e ↦ rw e (inl e)
  | inr e ↦ rw e (e, rw (text_eq_refl item.id) refl)
]
