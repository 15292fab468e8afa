-- ===== src/Chat/Races/Kept.antt =====
-- Every step of the chat workspace keeps its questions and its run in order.
use gx_notion2api.Prelude.{
  ℕ, ◌≤◌, ◌<◌, ◌≡◌, refl, ◌∙◌, Bool, true, false, Option, none, some, List, [], ◌∷◌, Text, All,
  keep, nat_eq, nat_eq_iff, arith, Bool-cases, inl, inr,
}
use gx_notion2api.Chat.State.{ChatState, is_held, aborted}
use gx_notion2api.Chat.Races.{
  Stage, idle, reading, streaming, reloading, recovering, IsPending, IsStaged, answered,
}

-- Where the revision grows, every question is an old one.
pub newer-IsPending :
    (s t : ChatState) (asked : List (ℕ × Text))
    → s.load_revision < t.load_revision
    → All (IsPending s) asked
    → All (IsPending t) asked
newer-IsPending s t [] lt h = tt
newer-IsPending s t ((revision, id) ∷ asked) lt ((le, f), h) =
    ((omega arith, λ e. absurd (omega arith)), newer-IsPending s t asked lt h)

-- Where nothing is loading or a run is going, every question is an old one.
pub busy-IsPending :
    (s t : ChatState) (asked : List (ℕ × Text))
    → t.load_revision ≡ s.load_revision
    → (s.loading ≡ true → s.abort_ref ≡ none → ⊥)
    → All (IsPending s) asked
    → All (IsPending t) asked
busy-IsPending s t [] same busy h = tt
busy-IsPending s t ((revision, id) ∷ asked) same busy ((le, f), h) = (
  (omega arith, λ e. absurd (let (loading, free, _) = f (e ∙ same) in busy loading free)),
  busy-IsPending s t asked same busy h,
)

pub same-IsPending :
    (s t : ChatState) (asked : List (ℕ × Text))
    → t.load_revision ≡ s.load_revision
    → t.loading ≡ s.loading
    → (s.abort_ref ≡ none → t.abort_ref ≡ none)
    → t.conversation_id ≡ s.conversation_id
    → All (IsPending s) asked
    → All (IsPending t) asked
same-IsPending s t [] same loads aborts shows h = tt
same-IsPending s t ((revision, id) ∷ asked) same loads aborts shows ((le, f), h) = (
  (
    omega arith,
    λ e. let (loading, free, shown) = f (e ∙ same) in (loads ∙ loading, aborts free, shows ∙ shown),
  ),
  same-IsPending s t asked same loads aborts shows h,
)

-- Once the current question is answered, the others are old ones.
pub answered-IsPending :
    (s t : ChatState) (asked : List (ℕ × Text))
    → s.load_revision ≤ t.load_revision
    → All (IsPending s) asked
    → All (IsPending t) (answered s.load_revision asked)
unfolding keep
answered-IsPending s t [] le h = tt
answered-IsPending s t ((revision, id) ∷ asked) le ((old, f), h) =
    elim (Bool-cases (nat_eq revision s.load_revision)) [
      | inl same ↦ rw same (answered-IsPending s t asked le h)
      | inr other ↦ rw other (
          let differ : revision ≡ s.load_revision → ⊥ =
            ground (arith, nat_eq_iff revision s.load_revision) in
          ((omega arith, λ e. absurd (differ (omega arith))), answered-IsPending s t asked le h))
    ]

pub same-IsStaged :
    (stage : Stage) (s t : ChatState)
    → (s.abort_ref ≡ none → t.abort_ref ≡ none)
    → (is_held s.abort_ref ≡ true → is_held t.abort_ref ≡ true)
    → t.conversation_id ≡ s.conversation_id
    → IsStaged stage s
    → IsStaged stage t
same-IsStaged idle s t free held shown h = free h
same-IsStaged (reading run) s t free held shown h = held h
same-IsStaged (streaming run) s t free held shown (h, k) = (held h, shown ∙ k)
same-IsStaged (reloading id) s t free held shown (h, k) = (held h, shown ∙ k)
same-IsStaged (recovering run) s t free held shown h = held h

-- Only the idle page holds no controller.
pub free-IsStaged :
    (stage : Stage) (s t : ChatState)
    → is_held s.abort_ref ≡ false
    → t.abort_ref ≡ none
    → IsStaged stage s
    → IsStaged stage t
free-IsStaged idle s t free e h = e
free-IsStaged (reading run) s t free e h = ground (arith, free, h)
free-IsStaged (streaming run) s t free e (h, k) = ground (arith, free, h)
free-IsStaged (reloading id) s t free e (h, k) = ground (arith, free, h)
free-IsStaged (recovering run) s t free e h = ground (arith, free, h)

pub staged-held :
    (stage : Stage) (s : ChatState)
    → (stage ≡ idle → ⊥)
    → IsStaged stage s
    → is_held s.abort_ref ≡ true
staged-held idle s busy h = absurd (busy refl)
staged-held (reading run) s busy h = h
staged-held (streaming run) s busy (h, k) = h
staged-held (reloading id) s busy (h, k) = h
staged-held (recovering run) s busy h = h

pub free-none : (abort_ref : Option Bool) → is_held abort_ref ≡ false → abort_ref ≡ none
free-none none e = refl
free-none (some b) e = ground (arith, e)

-- A held controller is no null.
pub held-busy : (abort_ref : Option Bool) → is_held abort_ref ≡ true → abort_ref ≡ none → ⊥
held-busy none e f = ground (arith, e)
held-busy (some b) e f = ground (arith, f)

pub aborted-none : (abort_ref : Option Bool) → abort_ref ≡ none → aborted abort_ref ≡ none
aborted-none none e = refl
aborted-none (some b) e = ground (arith, e)

pub aborted_held :
    (abort_ref : Option Bool) → is_held abort_ref ≡ true → is_held (aborted abort_ref) ≡ true
aborted_held none e = e
aborted_held (some b) e = refl
