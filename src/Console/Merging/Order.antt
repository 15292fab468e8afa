-- ===== src/Console/Merging/Order.antt =====
-- The order of the conversation list.
use mathlib.Core.List.{Perm}
use mathlib.Core.List.Perm
use gx_notion2api.Prelude.{
  ℕ, ◌≤◌, ◌≡◌, refl, ◌∙◌, Bool, List, [], ◌∷◌, Text, arith, All, keep_cong, nat_eq, leb, keep,
  Bool-cases, inl, inr,
}
use gx_notion2api.Types.Conversations.{ConversationSummary}
use gx_notion2api.Console.Merging.{time_of, insert_by_time, sort_conversations}

module _ (get_time : Text → ℕ) where
  -- Newest first
  abbrev pub IsSorted : List ConversationSummary → Type 0
  IsSorted [] = Unit
  IsSorted (item ∷ items) =
      All (λ other. time_of get_time other ≤ time_of get_time item) items × IsSorted items

  All-insert_by_time {ℓ} :
      (P : ConversationSummary → Type ℓ) (item : ConversationSummary)
      (items : List ConversationSummary)
      → P item
      → All P items
      → All P (insert_by_time get_time item items)
  unfolding insert_by_time
  All-insert_by_time P item [] p h = (p, tt)
  All-insert_by_time P item (other ∷ rest) p (q, h) =
      ground (arith, All-insert_by_time P item rest p h)

  pub All-sort_conversations {ℓ} :
      (P : ConversationSummary → Type ℓ) (items : List ConversationSummary)
      → All P items
      → All P (sort_conversations get_time items)
  unfolding sort_conversations
  All-sort_conversations P [] h = tt
  All-sort_conversations P (item ∷ items) (p, h) =
      All-insert_by_time P item _ p (All-sort_conversations P items h)

  All-le_trans :
      (a b : ℕ) (items : List ConversationSummary)
      → a ≤ b
      → All (λ other. time_of get_time other ≤ a) items
      → All (λ other. time_of get_time other ≤ b) items
  All-le_trans a b [] h k = tt
  All-le_trans a b (item ∷ items) h (p, k) = (omega arith, All-le_trans a b items h k)

  insert_by_time-IsSorted :
      (item : ConversationSummary) (items : List ConversationSummary)
      → IsSorted items
      → IsSorted (insert_by_time get_time item items)
  unfolding insert_by_time
  insert_by_time-IsSorted item [] h = (tt, tt)
  insert_by_time-IsSorted item (other ∷ rest) (newer, h) =
      elim (Bool-cases (leb (time_of get_time other) (time_of get_time item))) [
        | inl e ↦ rw e ((ground arith, All-le_trans _ _ rest (ground arith) newer), (newer, h))
        | inr e ↦ rw e (
          All-insert_by_time _ item rest (ground arith) newer,
          insert_by_time-IsSorted item rest h,
        )
      ]

  -- Sorting puts the newest conversation first.
  pub sort_conversations-IsSorted :
      (items : List ConversationSummary) → IsSorted (sort_conversations get_time items)
  unfolding sort_conversations
  sort_conversations-IsSorted [] = tt
  sort_conversations-IsSorted (item ∷ items) =
      insert_by_time-IsSorted item _ (sort_conversations-IsSorted items)

  insert_by_time-perm :
      (item : ConversationSummary) (items : List ConversationSummary)
      → Perm (insert_by_time get_time item items) (item ∷ items)
  unfolding insert_by_time
  insert_by_time-perm item [] = Perm.refl _
  insert_by_time-perm item (other ∷ rest) =
      elim (Bool-cases (leb (time_of get_time other) (time_of get_time item))) [
        | inl e ↦ rw e (Perm.refl _)
        | inr e ↦ rw e (
            Perm.trans (Perm.cons other (insert_by_time-perm item rest))
              (Perm.swap item other rest))
      ]

  pub sort_conversations-perm :
      (items : List ConversationSummary) → Perm (sort_conversations get_time items) items
  unfolding sort_conversations
  sort_conversations-perm [] = Perm.refl _
  sort_conversations-perm (item ∷ items) =
      Perm.trans (insert_by_time-perm item _) (Perm.cons item (sort_conversations-perm items))

  -- Is the conversation of the instant?
  abbrev pub is_at : ℕ → ConversationSummary → Bool
  is_at t item = nat_eq (time_of get_time item) t

  keep-insert_by_time :
      (t : ℕ) (item : ConversationSummary) (items : List ConversationSummary)
      → keep (is_at t) (insert_by_time get_time item items) ≡ keep (is_at t) (item ∷ items)
  unfolding insert_by_time keep
  keep-insert_by_time t item [] = refl
  keep-insert_by_time t item (other ∷ rest) = ground (arith, keep-insert_by_time t item rest)

  keep-sort_conversations :
      (t : ℕ) (items : List ConversationSummary)
      → keep (is_at t) (sort_conversations get_time items) ≡ keep (is_at t) items
  unfolding sort_conversations
  keep-sort_conversations t [] = refl
  keep-sort_conversations t (item ∷ items) =
      keep-insert_by_time t item _ ∙ keep_cong (is_at t) item _ _ (keep-sort_conversations t items)

  -- The sorted list has the same conversations, newest first, and conversations of the same instant
  -- keep their order.
  pub sort_conversations_stable :
      (items : List ConversationSummary)
      → IsSorted (sort_conversations get_time items)
        × Perm (sort_conversations get_time items) items
        × ((t : ℕ) → keep (is_at t) (sort_conversations get_time items) ≡ keep (is_at t) items)
  sort_conversations_stable items = (
    sort_conversations-IsSorted items,
    sort_conversations-perm items,
    λ t. keep-sort_conversations t items,
  )
