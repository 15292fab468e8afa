-- ===== src/Chat/Races/Turns.antt =====
-- The steps of a run keep the page in order.
use gx_notion2api.Prelude.{
  ℕ, ◌≡◌, refl, true, false, Option, none, some, List, Text, All, if◌then◌else◌, arith, Bool-cases,
  inl, inr, ◌&&◌, not, is_present,
}
use gx_notion2api.Types.Conversations.{ConversationDetail}
use gx_notion2api.Types.Chat.{AttachmentInput, ChatRunResult}
use gx_notion2api.Chat.Targets.{ChatTarget, is_auto, find_target}
use gx_notion2api.Chat.State.{ChatState, is_held}
use gx_notion2api.Chat.Running.{
  Run, cannot_run, start_run, files_read, delta_came, result_came, reload_came, run_failed,
  recovery_came, finish_run, id_or, is_aborted, is_missing, lost_notice,
}
use gx_notion2api.Chat.Races.{
  Stage, idle, reading, streaming, reloading, recovering, IsPending, IsStaged, IsOrderly, stage_of,
  stream_of,
}
use gx_notion2api.Chat.Races.Kept.{busy-IsPending, same-IsStaged, held-busy}

-- A step of a run that is going leaves every question an old one.
module _ (s t : ChatState) (asked : List (ℕ × Text)) where
  held-IsPending :
      is_held s.abort_ref ≡ true
      → t.load_revision ≡ s.load_revision
      → All (IsPending s) asked
      → All (IsPending t) asked
  held-IsPending held same h =
      busy-IsPending s t asked same (λ loads free. held-busy s.abort_ref held free) h

ready_idle :
    (s : ChatState) → cannot_run s ≡ false → (is_held s.abort_ref ≡ false) × (s.loading ≡ false)
unfolding cannot_run
ready_idle s e = (ground arith, ground arith)

module _ (s : ChatState) where
  start-IsStaged :
      (targets : List ChatTarget) (conversation answer : Text) (stage : Stage)
      → IsStaged stage s
      → IsStaged
          (stage_of (start_run targets conversation answer s).1 stage)
          (start_run targets conversation answer s).0
  unfolding start_run
  start-IsStaged targets conversation answer stage k = elim (Bool-cases (cannot_run s)) [
    | inl busy ↦ rw busy k
    | inr ready ↦
        elim (Bool-cases (
          not (is_present s.conversation_id)
          && not (is_auto s.target)
          && is_missing (find_target s.target targets))) [
            | inl lost ↦
                rw (ready, lost)
                  (same-IsStaged stage s (record s { error = lost_notice }) (λ e. e) (λ e. e) refl
                    k)
            | inr found ↦ rw (ready, found) refl
          ]
  ]

  start-IsPending :
      (targets : List ChatTarget) (conversation answer : Text) (asked : List (ℕ × Text))
      → All (IsPending s) asked
      → All (IsPending (start_run targets conversation answer s).0) asked
  unfolding start_run
  start-IsPending targets conversation answer asked h = elim (Bool-cases (cannot_run s)) [
    | inl busy ↦ rw busy h
    | inr ready ↦
        let (_, still) = ready_idle s ready in
        busy-IsPending s (start_run targets conversation answer s).0 asked (ground arith)
          (λ loads free. ground (arith, loads, still)) h
  ]

  read-IsStaged :
      (run : Run) (attachments : List AttachmentInput)
      → is_held s.abort_ref ≡ true
      → IsStaged (stream_of run (files_read run attachments s).1) (files_read run attachments s).0
  unfolding files_read finish_run
  read-IsStaged run attachments k = elim (Bool-cases (is_aborted s.abort_ref)) [
    | inl stopped ↦ rw stopped refl
    | inr going ↦ rw going (k, refl)
  ]

  complete-IsStaged :
      (run : Run) (result : ChatRunResult)
      → is_held s.abort_ref ≡ true
      → IsStaged
          (if (result_came run result s).1
            then reloading (id_or result.conversation_id run.id)
            else idle)
          (result_came run result s).0
  unfolding result_came finish_run
  complete-IsStaged run result k = elim (Bool-cases s.mounted) [
    | inl there ↦ rw there (k, refl)
    | inr gone ↦ rw gone refl
  ]

  fail-IsStaged :
      (run : Run) (cause : Option Text)
      → is_held s.abort_ref ≡ true
      → IsStaged
          (if (run_failed run cause s).1 then recovering run else idle)
          (run_failed run cause s).0
  unfolding run_failed finish_run
  fail-IsStaged run cause k = elim (Bool-cases s.mounted) [
    | inl there ↦ rw there k
    | inr gone ↦ rw gone refl
  ]

module _ (s : ChatState) (asked : List (ℕ × Text)) (h : All (IsPending s) asked) where
  pub starts-IsOrderly :
      (targets : List ChatTarget) (conversation answer : Text) (stage : Stage)
      → IsStaged stage s
      → IsOrderly (record {
        chat = (start_run targets conversation answer s).0;
        stage = stage_of (start_run targets conversation answer s).1 stage;
        asked = asked;
      })
  starts-IsOrderly targets conversation answer stage k = record {
    pending = start-IsPending s targets conversation answer asked h;
    staged = start-IsStaged s targets conversation answer stage k;
  }

  pub reads-IsOrderly :
      (run : Run) (attachments : List AttachmentInput)
      → IsStaged (reading run) s
      → IsOrderly (record {
        chat = (files_read run attachments s).0;
        stage = stream_of run (files_read run attachments s).1;
        asked = asked;
      })
  unfolding files_read finish_run
  reads-IsOrderly run attachments k = record {
    pending = held-IsPending s (files_read run attachments s).0 asked k (ground arith) h;
    staged = read-IsStaged s run attachments k;
  }

  pub streams-IsOrderly :
      (run : Run) (delta : Text)
      → IsStaged (streaming run) s
      → IsOrderly (record { chat = delta_came run delta s; stage = streaming run; asked = asked })
  unfolding delta_came
  streams-IsOrderly run delta (k, shown) = record {
    pending = held-IsPending s (delta_came run delta s) asked k (ground arith) h;
    staged = (ground arith, ground arith);
  }

  pub completes-IsOrderly :
      (run : Run) (result : ChatRunResult)
      → IsStaged (streaming run) s
      → IsOrderly (record {
        chat = (result_came run result s).0;
        stage =
            if (result_came run result s).1
            then reloading (id_or result.conversation_id run.id)
            else idle;
        asked = asked;
      })
  unfolding result_came finish_run
  completes-IsOrderly run result (k, shown) = record {
    pending = held-IsPending s (result_came run result s).0 asked k (ground arith) h;
    staged = complete-IsStaged s run result k;
  }

  pub fails-IsOrderly :
      (run : Run) (cause : Option Text)
      → is_held s.abort_ref ≡ true
      → IsOrderly (record {
        chat = (run_failed run cause s).0;
        stage = if (run_failed run cause s).1 then recovering run else idle;
        asked = asked;
      })
  unfolding run_failed finish_run
  fails-IsOrderly run cause k = record {
    pending = held-IsPending s (run_failed run cause s).0 asked k (ground arith) h;
    staged = fail-IsStaged s run cause k;
  }

  pub reloads-IsOrderly :
      (item : Option ConversationDetail)
      → is_held s.abort_ref ≡ true
      → IsOrderly (record { chat = reload_came item s; stage = idle; asked = asked })
  unfolding reload_came finish_run
  reloads-IsOrderly none k = record {
    pending = held-IsPending s (reload_came none s) asked k refl h;
    staged = refl;
  }
  reloads-IsOrderly (some item) k = record {
    pending = held-IsPending s (reload_came (some item) s) asked k (ground arith) h;
    staged = refl;
  }

  pub recovers-IsOrderly :
      (run : Run) (item : Option ConversationDetail)
      → is_held s.abort_ref ≡ true
      → IsOrderly (record { chat = recovery_came run item s; stage = idle; asked = asked })
  unfolding recovery_came finish_run
  recovers-IsOrderly run none k = record {
    pending = held-IsPending s (recovery_came run none s) asked k refl h;
    staged = refl;
  }
  recovers-IsOrderly run (some item) k = record {
    pending = held-IsPending s (recovery_came run (some item) s) asked k (ground arith) h;
    staged = refl;
  }
