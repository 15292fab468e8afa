-- ===== src/Console/Merging/Ids.antt =====
-- Conversation ids: each occurs once in the list, and looking one up after an update.
use gx_notion2api.Prelude.{
  ℕ, ◌≡◌, ◌≢◌, refl, sym, ◌∙◌, true, not, List, [], ◌∷◌, ◌++◌, Option, none, some, Text, arith, All,
  All-append, All-keep, find_cong, leb, keep, find, text_eq, text_eq_iff, if◌then◌else◌, Bool-cases,
  inl, inr, is_present,
}
use gx_notion2api.Types.Conversations.{ConversationSummary}
use gx_notion2api.Console.Merging.{
  has_id, time_of, insert_by_time, sort_conversations, merge_conversation_summary_state,
  upsert_conversation_summary,
}
use gx_notion2api.Console.Merging.Order.{
  All-sort_conversations, IsSorted, sort_conversations-IsSorted,
}

-- No item of the list has the id.
abbrev pub IsNew : Text → List ConversationSummary → Type 0
IsNew id items = All (λ item. item.id ≢ id) items

-- No two items share an id.
abbrev pub HasDistinctIds : List ConversationSummary → Type 0
HasDistinctIds [] = Unit
HasDistinctIds (item ∷ items) = IsNew item.id items × HasDistinctIds items

abbrev others : Text → List ConversationSummary → List ConversationSummary
others id items = keep (λ item. not (has_id id item)) items

others-IsNew : (id : Text) (items : List ConversationSummary) → IsNew id (others id items)
unfolding keep
others-IsNew id [] = tt
others-IsNew id (item ∷ items) = ground (arith, others-IsNew id items, text_eq_iff item.id id)

others-HasDistinctIds :
    (id : Text) (items : List ConversationSummary)
    → HasDistinctIds items
    → HasDistinctIds (others id items)
unfolding keep
others-HasDistinctIds id [] h = tt
others-HasDistinctIds id (item ∷ items) (new, h) = ground (
  arith,
  others-HasDistinctIds id items h,
  All-keep (λ other. other.id ≢ item.id) (λ other. not (has_id id other)) items new,
)

append-HasDistinctIds :
    (items : List ConversationSummary) (item : ConversationSummary)
    → HasDistinctIds items
    → IsNew item.id items
    → HasDistinctIds (items ++ item ∷ [])
append-HasDistinctIds [] item h new = (tt, tt)
append-HasDistinctIds (other ∷ items) item (new', h) (ne, new) = (
  All-append (λ (o : ConversationSummary). o.id ≢ other.id) items (item ∷ []) new'
      ((λ e. ne (sym e)), tt),
  append-HasDistinctIds items item h new,
)

find-others :
    (id j : Text) (items : List ConversationSummary)
    → find (has_id j) (others id items) ≡ (if text_eq id j then none else find (has_id j) items)
unfolding keep find
find-others id j [] = ground arith
find-others id j (item ∷ items) =
    ground (
      arith,
      find-others id j items,
      text_eq_iff item.id id,
      text_eq_iff item.id j,
      text_eq_iff id j,
    )

find-append :
    (j : Text) (items : List ConversationSummary) (item : ConversationSummary)
    → IsNew item.id items
    → find (has_id j) (items ++ item ∷ [])
      ≡ (if text_eq item.id j then some item else find (has_id j) items)
unfolding find
find-append j [] item h = refl
find-append j (other ∷ items) item (ne, h) =
    ground (arith, find-append j items item h, text_eq_iff other.id j, text_eq_iff item.id j)

module _ (get_time : Text → ℕ) where
  insert_by_time-IsNew :
      (id : Text) (item : ConversationSummary) (items : List ConversationSummary)
      → item.id ≢ id
      → IsNew id items
      → IsNew id (insert_by_time get_time item items)
  unfolding insert_by_time
  insert_by_time-IsNew id item [] ne h = (ne, tt)
  insert_by_time-IsNew id item (other ∷ rest) ne (p, h) =
      ground (arith, insert_by_time-IsNew id item rest ne h)

  insert_by_time-HasDistinctIds :
      (item : ConversationSummary) (items : List ConversationSummary)
      → IsNew item.id items
      → HasDistinctIds items
      → HasDistinctIds (insert_by_time get_time item items)
  unfolding insert_by_time
  insert_by_time-HasDistinctIds item [] new h = (tt, tt)
  insert_by_time-HasDistinctIds item (other ∷ rest) (ne, new) (new', h) =
      elim (Bool-cases (leb (time_of get_time other) (time_of get_time item))) [
        | inl e ↦ rw e (((ne, new), (new', h)))
        | inr e ↦ rw e (
          insert_by_time-IsNew other.id item rest (λ q. ne (sym q)) new',
          insert_by_time-HasDistinctIds item rest new h,
        )
      ]

  pub sort_conversations-HasDistinctIds :
      (items : List ConversationSummary)
      → HasDistinctIds items
      → HasDistinctIds (sort_conversations get_time items)
  unfolding sort_conversations
  sort_conversations-HasDistinctIds [] h = tt
  sort_conversations-HasDistinctIds (item ∷ items) (new, h) =
      insert_by_time-HasDistinctIds item _
        (All-sort_conversations get_time (λ o. o.id ≢ item.id) items new)
        (sort_conversations-HasDistinctIds items h)

  find-insert_by_time :
      (j : Text) (item : ConversationSummary) (items : List ConversationSummary)
      → IsNew item.id items
      → find (has_id j) (insert_by_time get_time item items) ≡ find (has_id j) (item ∷ items)
  unfolding insert_by_time find
  find-insert_by_time j item [] h = refl
  find-insert_by_time j item (other ∷ rest) (ne, h) =
      ground
        (arith, find-insert_by_time j item rest h, text_eq_iff other.id j, text_eq_iff item.id j)

  pub find-sort_conversations :
      (j : Text) (items : List ConversationSummary)
      → HasDistinctIds items
      → find (has_id j) (sort_conversations get_time items) ≡ find (has_id j) items
  unfolding sort_conversations
  find-sort_conversations j [] h = refl
  find-sort_conversations j (item ∷ items) (new, h) =
      find-insert_by_time j item _ (All-sort_conversations get_time (λ o. o.id ≢ item.id) items new)
      ∙ find_cong (has_id j) item _ _ (find-sort_conversations j items h)

  merged-id :
      (current : Option ConversationSummary) (next : ConversationSummary)
      → (merge_conversation_summary_state current next).id ≡ next.id
  unfolding merge_conversation_summary_state
  merged-id none next = refl
  merged-id (some current) next = refl

  abbrev put : ConversationSummary → List ConversationSummary → List ConversationSummary
  put s items =
      others s.id items ++ merge_conversation_summary_state (find (has_id s.id) items) s ∷ []

  put-HasDistinctIds :
      (s : ConversationSummary) (items : List ConversationSummary)
      → HasDistinctIds items
      → HasDistinctIds (put s items)
  put-HasDistinctIds s items h =
      append-HasDistinctIds (others s.id items) _ (others-HasDistinctIds s.id items h)
        (rw (merged-id (find (has_id s.id) items) s) (others-IsNew s.id items))

  -- An update keeps the ids distinct and the list newest first.
  pub upsert_conversation_summary-HasDistinctIds :
      (s : Option ConversationSummary) (items : List ConversationSummary)
      → HasDistinctIds items
      → HasDistinctIds (upsert_conversation_summary get_time s items)
  unfolding upsert_conversation_summary
  upsert_conversation_summary-HasDistinctIds none items h = h
  upsert_conversation_summary-HasDistinctIds (some s) items h =
      elim (Bool-cases (is_present s.id)) [
        | inl e ↦
            rw e (sort_conversations-HasDistinctIds (put s items) (put-HasDistinctIds s items h))
        | inr e ↦ rw e h
      ]

  pub upsert_conversation_summary-IsSorted :
      (s : Option ConversationSummary) (items : List ConversationSummary)
      → IsSorted get_time items
      → IsSorted get_time (upsert_conversation_summary get_time s items)
  unfolding upsert_conversation_summary
  upsert_conversation_summary-IsSorted none items h = h
  upsert_conversation_summary-IsSorted (some s) items h = elim (Bool-cases (is_present s.id)) [
    | inl e ↦ rw e (sort_conversations-IsSorted get_time (put s items))
    | inr e ↦ rw e h
  ]

  -- In a list without two equal ids, after an update with an id, a lookup of that id finds the summary
  -- merged with what the list had for it, and a lookup of another id finds what it found before.
  pub find-upsert_conversation_summary :
      (s : ConversationSummary) (items : List ConversationSummary) (j : Text)
      → HasDistinctIds items
      → is_present s.id ≡ true
      → find (has_id j) (upsert_conversation_summary get_time (some s) items) ≡ (
          if text_eq s.id j
          then some (merge_conversation_summary_state (find (has_id s.id) items) s)
          else find (has_id j) items)
  unfolding upsert_conversation_summary
  find-upsert_conversation_summary s items j h given = rw given (
      find-sort_conversations j (put s items) (put-HasDistinctIds s items h)
      ∙ (find-append j (others s.id items) _
            (rw (merged-id (find (has_id s.id) items) s) (others-IsNew s.id items))
          ∙ (ground (arith, merged-id (find (has_id s.id) items) s, find-others s.id j items))))
