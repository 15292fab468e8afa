-- ===== src/Chat/Races/Reached.antt =====
-- What every history of the chat workspace keeps, and what it means for its answers.
use gx_notion2api.Prelude.{ℕ, ◌≡◌, refl, true, none, List, Text, subst, inl, inr, ◌⊎◌, Bool-cases}
use gx_notion2api.Types.Models.{ModelItem}
use gx_notion2api.Chat.Targets.{ChatTarget}
use gx_notion2api.Chat.State.{ChatState, sync_active}
use gx_notion2api.Chat.Opening.{LoadAnswer, conversation_came, is_current}
use gx_notion2api.Chat.Races.{
  Stage, System, IsStaged, IsOrderly, Step, opens, comes, resets, types, syncs, stops, leaves,
  starts, reads, streams, completes, reloads, fails, misreads, recovers, Reach, here, next, IsAsked,
  idle_system,
}
use gx_notion2api.Chat.Races.Kept.{same-IsPending, same-IsStaged}
use gx_notion2api.Chat.Races.Loads.{
  opens-IsOrderly, comes-IsOrderly, resets-IsOrderly, stop-IsOrderly, unmount-IsOrderly,
  IsAsked-IsPending, current_revision,
}
use gx_notion2api.Chat.Races.Turns.{
  starts-IsOrderly, reads-IsOrderly, streams-IsOrderly, completes-IsOrderly, fails-IsOrderly,
  reloads-IsOrderly, recovers-IsOrderly,
}

module _ (models : List ModelItem) (targets : List ChatTarget) where
  at_stage : {s : System} {stage : Stage} → s.stage ≡ stage → IsOrderly s → IsStaged stage s.chat
  at_stage {s} e h = subst (λ stage. IsStaged stage s.chat) e h.staged

  Step-IsOrderly : {s t : System} → Step models targets s t → IsOrderly s → IsOrderly t
  unfolding sync_active
  Step-IsOrderly {s} (opens id draft) h =
      opens-IsOrderly s.chat s.stage s.asked id draft h.pending h.staged
  Step-IsOrderly {s} (comes revision id draft answer found) h =
      comes-IsOrderly models targets s.chat s.stage s.asked revision id draft answer found h.pending
        h.staged
  Step-IsOrderly {s} (resets draft) h =
      resets-IsOrderly s.chat s.stage s.asked targets draft h.pending h.staged
  Step-IsOrderly {s} (types draft) h = record {
    pending =
        same-IsPending s.chat (record s.chat { prompt = draft }) s.asked refl refl (λ e. e) refl
          h.pending;
    staged =
        same-IsStaged s.stage s.chat (record s.chat { prompt = draft }) (λ e. e) (λ e. e) refl
          h.staged;
  }
  Step-IsOrderly {s} syncs h = record {
    pending = same-IsPending s.chat (sync_active s.chat) s.asked refl refl (λ e. e) refl h.pending;
    staged = same-IsStaged s.stage s.chat (sync_active s.chat) (λ e. e) (λ e. e) refl h.staged;
  }
  Step-IsOrderly {s} stops h = stop-IsOrderly s.chat s.stage s.asked h.pending h.staged
  Step-IsOrderly {s} leaves h = unmount-IsOrderly s.chat s.stage s.asked h.pending h.staged
  Step-IsOrderly {s} (starts conversation answer) h =
      starts-IsOrderly s.chat s.asked h.pending targets conversation answer s.stage h.staged
  Step-IsOrderly {s} (reads run attachments e) h =
      reads-IsOrderly s.chat s.asked h.pending run attachments (at_stage e h)
  Step-IsOrderly {s} (streams run delta e) h =
      let same = streams-IsOrderly s.chat s.asked h.pending run delta (at_stage e h) in
      record { pending = same.pending; staged = rw e same.staged }
  Step-IsOrderly {s} (completes run result e) h =
      completes-IsOrderly s.chat s.asked h.pending run result (at_stage e h)
  Step-IsOrderly {s} (reloads id item e) h =
      reloads-IsOrderly s.chat s.asked h.pending item (at_stage e h).0
  Step-IsOrderly {s} (fails run cause e) h =
      fails-IsOrderly s.chat s.asked h.pending run cause (at_stage e h).0
  Step-IsOrderly {s} (misreads run cause e) h =
      fails-IsOrderly s.chat s.asked h.pending run cause (at_stage e h)
  Step-IsOrderly {s} (recovers run item e) h =
      recovers-IsOrderly s.chat s.asked h.pending run item (at_stage e h)

  -- However questions for conversations, their answers, the steps of runs, new conversations, typing,
  -- stops and unmounting interleave, a page that starts in order stays in order: each question of the
  -- current revision is loading the conversation on screen and no run is going; a controller is held
  -- exactly while a run is going; and a stream writes to the conversation on screen.
  pub Reach-IsOrderly : {s t : System} → IsOrderly s → Reach models targets s t → IsOrderly t
  Reach-IsOrderly h here = h
  Reach-IsOrderly h (next r step) = Step-IsOrderly step (Reach-IsOrderly h r)

  -- In a page reached from an idle one, the answer to a question changes nothing unless the page is
  -- still loading, without a run, the conversation that the question was for.
  pub conversation_came-is_current :
      (chat : ChatState) (s : System) (revision : ℕ) (id draft : Text) (answer : LoadAnswer)
      → chat.abort_ref ≡ none
      → Reach models targets (idle_system chat) s
      → IsAsked revision id s.asked
      → (conversation_came models targets revision draft answer s.chat ≡ s.chat)
        ⊎ ((s.chat.conversation_id ≡ id) × (s.chat.loading ≡ true) × (s.chat.abort_ref ≡ none))
  unfolding conversation_came
  conversation_came-is_current chat s revision id draft answer free r found =
      elim (Bool-cases (is_current revision s.chat)) [
        | inl current ↦
            let h = Reach-IsOrderly (record { pending = tt; staged = free }) r in
            let (_, f) = IsAsked-IsPending s.chat found h.pending in
            let (loads, idle_ref, shown) =
              f (current_revision models targets revision s.chat current) in
            inr (shown, loads, idle_ref)
        | inr late ↦ inl (rw late refl)
      ]
