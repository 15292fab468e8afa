-- ===== src/Console/Invariant/Reached.antt =====
-- Every step keeps the console consistent, and so does every history.
use gx_notion2api.Prelude.{ℕ, ◌≡◌, refl, Bool, none, some, Text, arith, Bool-cases, inl, inr}
use gx_notion2api.Types.Sessions.{AdminVerifyPayload}
use gx_notion2api.Types.Conversations.{ConversationsPayload}
use gx_notion2api.Console.Merging.Order.{sort_conversations-IsSorted}
use gx_notion2api.Console.Merging.Ids.{HasDistinctIds, sort_conversations-HasDistinctIds}
use gx_notion2api.Console.State.{
  ConsoleState, initial, close_stream, stream_opened, stream_failed, run_effects,
}
use gx_notion2api.Console.State.Effects.{run_effects_lem}
use gx_notion2api.Console.Loading.{
  request_detail, receive_detail, receive_conversations, items_of, begin_refresh, receive_verify,
  receive_boot, receive_accounts, receive_config_bundle, fail_refresh, end_refresh,
  forget_conversations, is_locked,
}
use gx_notion2api.Console.Invariant.{
  IsConsistent, Step, Reach, event, opened, interrupted, closed, effects, detail_asked, detail_came,
  list_came, refresh_began, verify_came, boot_came, accounts_came, bundle_came, refresh_failed,
  refresh_ended, deleted, here, next, receive_event-IsConsistent,
  remember_conversation-IsConsistent, forget_details-IsKeyed,
}

module _ (get_time : Text → ℕ) where
  -- What a step leaves alone stays consistent.
  same-IsConsistent :
      (s t : ConsoleState)
      → t.conversations ≡ s.conversations
      → t.conversation_details ≡ s.conversation_details
      → t.conversation_details_ref ≡ s.conversation_details_ref
      → IsConsistent get_time s
      → IsConsistent get_time t
  same-IsConsistent s t c d r h = record {
    distinct = rw c h.distinct;
    sorted = rw c h.sorted;
    keyed = rw d h.keyed;
    keyed_ref = rw r h.keyed_ref;
  }

  effects-IsConsistent :
      (s : ConsoleState) → IsConsistent get_time s → IsConsistent get_time (run_effects s)
  effects-IsConsistent s h =
      let (_, mirrored, _, _, listed, cached, _) = run_effects_lem s in
      record {
        distinct = rw listed h.distinct;
        sorted = rw listed h.sorted;
        keyed = rw cached h.keyed;
        keyed_ref = rw mirrored h.keyed;
      }

  asked-IsConsistent :
      (id : Text) (force : Bool) (s : ConsoleState)
      → IsConsistent get_time s
      → IsConsistent get_time (request_detail id force s).0
  unfolding request_detail
  asked-IsConsistent id force s h =
      same-IsConsistent s (request_detail id force s).0 (ground arith) (ground arith) (ground arith)
        h

  verify-IsConsistent :
      (v : AdminVerifyPayload) (s : ConsoleState)
      → IsConsistent get_time s
      → IsConsistent get_time (receive_verify v s)
  unfolding receive_verify close_stream
  verify-IsConsistent v s h = elim (Bool-cases (is_locked v)) [
    | inl locked ↦
        rw (locked, receive_verify)
          (record { distinct = tt; sorted = tt; keyed = tt; keyed_ref = h.keyed_ref })
    | inr unlocked ↦ rw (unlocked, receive_verify) (same-IsConsistent s _ refl refl refl h)
  ]

  list-IsConsistent :
      (payload : ConversationsPayload) (s : ConsoleState)
      → HasDistinctIds (items_of payload)
      → IsConsistent get_time s
      → IsConsistent get_time (receive_conversations get_time payload s)
  unfolding receive_conversations
  list-IsConsistent payload s distinct h = record {
    distinct = sort_conversations-HasDistinctIds get_time (items_of payload) distinct;
    sorted = sort_conversations-IsSorted get_time (items_of payload);
    keyed = h.keyed;
    keyed_ref = h.keyed_ref;
  }

  pub Step-IsConsistent :
      {s t : ConsoleState} → Step get_time s t → IsConsistent get_time s → IsConsistent get_time t
  unfolding stream_opened stream_failed close_stream receive_detail begin_refresh receive_boot
      receive_accounts receive_config_bundle fail_refresh end_refresh forget_conversations
  Step-IsConsistent {s} (event name content) h =
      receive_event-IsConsistent get_time name content s h
  Step-IsConsistent {s} opened h = same-IsConsistent s _ refl refl refl h
  Step-IsConsistent {s} interrupted h = same-IsConsistent s _ refl refl refl h
  Step-IsConsistent {s} closed h = same-IsConsistent s _ refl refl refl h
  Step-IsConsistent {s} effects h = effects-IsConsistent s h
  Step-IsConsistent {s} (detail_asked id force) h = asked-IsConsistent id force s h
  Step-IsConsistent {s} (detail_came payload) h =
      remember_conversation-IsConsistent get_time (some payload.item) s h
  Step-IsConsistent {s} (list_came payload distinct) h = list-IsConsistent payload s distinct h
  Step-IsConsistent {s} refresh_began h = same-IsConsistent s _ refl refl refl h
  Step-IsConsistent {s} (verify_came v) h = verify-IsConsistent v s h
  Step-IsConsistent {s} (boot_came boot) h = same-IsConsistent s _ refl refl refl h
  Step-IsConsistent {s} (accounts_came payload) h = same-IsConsistent s _ refl refl refl h
  Step-IsConsistent {s} (bundle_came bundle) h = same-IsConsistent s _ refl refl refl h
  Step-IsConsistent {s} (refresh_failed none) h = same-IsConsistent s _ refl refl refl h
  Step-IsConsistent {s} (refresh_failed (some e)) h = same-IsConsistent s _ refl refl refl h
  Step-IsConsistent {s} refresh_ended h = same-IsConsistent s _ refl refl refl h
  Step-IsConsistent {s} (deleted ids) h = record {
    distinct = h.distinct;
    sorted = h.sorted;
    keyed = forget_details-IsKeyed ids s.conversation_details h.keyed;
    keyed_ref = h.keyed_ref;
  }

  Reach-IsConsistent :
      {s t : ConsoleState} → IsConsistent get_time s → Reach get_time s t → IsConsistent get_time t
  Reach-IsConsistent h here = h
  Reach-IsConsistent h (next r step) = Step-IsConsistent step (Reach-IsConsistent h r)

  -- However stream events, answers of the server, deletions and effects interleave, if each list that
  -- the server sends has no id twice, the list shows each conversation once and newest first, and
  -- every cached transcript stands under its own id.
  pub console-IsConsistent : {s : ConsoleState} → Reach get_time initial s → IsConsistent get_time s
  console-IsConsistent r =
      Reach-IsConsistent (record { distinct = tt; sorted = tt; keyed = tt; keyed_ref = tt }) r
