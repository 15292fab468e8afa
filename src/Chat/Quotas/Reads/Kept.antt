-- ===== src/Chat/Quotas/Reads/Kept.antt =====
-- What every history of the quota indicator keeps.
use gx_notion2api.Prelude.{
  leb, ◌≡◌, ℕ, ◌+◌, ◌≤◌, refl, Bool, true, false, not, Option, none, some, List, [], ◌∷◌, Text,
  if◌then◌else◌, nat_eq, is_present, arith, Bool-cases, inl, inr,
}
use gx_notion2api.Types.Usage.{AiUsageReport}
use gx_notion2api.Chat.Targets.{ChatTarget}
use gx_notion2api.Chat.Quotas.{
  quota_force_min_interval_ms, QuotaState, load_quota_rows, quota_rows_came, quota_rows_failed,
  mark_forced, refresh_quota, toggle_quota, QuotaRead, run_quota_effect, declined, quota_came,
  quota_failed,
}
use gx_notion2api.Chat.Quotas.Reads.{
  System, clicked, is_moved, and_sent, one_if, forced_count, unmarked, Step, refreshes, toggles,
  renders, comes, fails, rows_come, rows_fail, Reach, here, next, AreSpaced, IsNewest, IsSound,
}

module _ (Answers : QuotaRead → AiUsageReport → Type 0) where
  granted_spaced :
      (forced_at now : ℕ) (marks : List ℕ)
      → forced_at + quota_force_min_interval_ms ≤ now
      → IsNewest Answers forced_at marks
      → AreSpaced Answers marks
      → AreSpaced Answers (now ∷ marks)
  granted_spaced forced_at now [] le e h = tt
  granted_spaced forced_at now (t ∷ ts) le e h = (omega (arith, le, e), h)

  abbrev is_due : ℕ → QuotaState → Bool
  is_due now s = leb (s.quota_forced_at + quota_force_min_interval_ms) now

  one_more :
      (sent : ℕ) (pending : Bool) (granted : ℕ)
      → sent + one_if pending ≤ granted
      → sent + 1 ≤ granted + 1
  one_more sent pending granted h = omega (arith, h)

  -- A panel with the same report, time and flag, after a step that sends nothing
  alike-IsSound :
      (after : QuotaState) (s : System)
      → after.quota ≡ s.panel.quota
      → after.quota_key ≡ s.panel.quota_key
      → after.quota_forced_at ≡ s.panel.quota_forced_at
      → after.quota_force_next ≡ s.panel.quota_force_next
      → IsSound Answers s
      → IsSound Answers (record s { panel = after })
  alike-IsSound after s report key time flag h = record {
    from = rw (report, key) h.from;
    newest = rw time h.newest;
    spaced = h.spaced;
    counted = rw flag h.counted;
  }

  still-IsSound :
      (now : ℕ) (after : QuotaState) (s : System)
      → after.quota ≡ s.panel.quota
      → after.quota_key ≡ s.panel.quota_key
      → after.quota_forced_at ≡ s.panel.quota_forced_at
      → after.quota_force_next ≡ s.panel.quota_force_next
      → IsSound Answers s
      → IsSound Answers (clicked now after s)
  still-IsSound now after s report key time flag h =
      let unmoved : is_moved s.panel after ≡ false = ground (arith, time) in
      rw unmoved (alike-IsSound after s report key time flag h)

  moved_later :
      (forced_at now : ℕ)
      → forced_at + quota_force_min_interval_ms ≤ now
      → not (nat_eq now forced_at) ≡ true
  moved_later forced_at now le = ground (arith, le)

  refreshed-IsSound :
      (now : ℕ) (target : Option ChatTarget) (s : System)
      → IsSound Answers s
      → IsSound Answers (clicked now (refresh_quota now target s.panel) s)
  unfolding refresh_quota mark_forced load_quota_rows
  refreshed-IsSound now none s h =
      still-IsSound now (refresh_quota now none s.panel) s (ground arith) (ground arith)
        (ground arith) (ground arith) h
  refreshed-IsSound now (some target) s h = elim (Bool-cases (is_due now s.panel)) [
    | inl due ↦
        let later : s.panel.quota_forced_at + quota_force_min_interval_ms ≤ now =
          ground (arith, due) in
        rw (due, moved_later s.panel.quota_forced_at now later)
          (record {
            from = h.from;
            newest = refl;
            spaced = granted_spaced s.panel.quota_forced_at now s.marks later h.newest h.spaced;
            counted = one_more (forced_count s.sent) s.panel.quota_force_next s.granted h.counted;
          })
    | inr early ↦
        still-IsSound now (refresh_quota now (some target) s.panel) s (ground (arith, early))
          (ground (arith, early)) (ground (arith, early)) (ground (arith, early)) h
  ]

  effect-IsSound :
      (visible : Bool) (target : Option ChatTarget) (s : System)
      → IsSound Answers s
      → IsSound Answers (record s {
        panel = (run_quota_effect visible target s.panel).0;
        sent = and_sent (run_quota_effect visible target s.panel).1 s.sent;
      })
  unfolding run_quota_effect
  effect-IsSound visible none s h = record {
    from = tt;
    newest = h.newest;
    spaced = h.spaced;
    counted = h.counted;
  }
  effect-IsSound false (some target) s h = record {
    from = tt;
    newest = h.newest;
    spaced = h.spaced;
    counted = h.counted;
  }
  effect-IsSound true (some target) s h = elim (Bool-cases (is_present target.email)) [
    | inl named ↦ rw named (record {
      from = h.from;
      newest = h.newest;
      spaced = h.spaced;
      counted = omega (arith, h.counted);
    })
    | inr nameless ↦
        rw nameless
          (record { from = tt; newest = h.newest; spaced = h.spaced; counted = h.counted })
  ]

  declined_marks :
      (b : Bool) (forced_at : ℕ) (marks : List ℕ)
      → IsNewest Answers forced_at marks
      → AreSpaced Answers marks
      → IsNewest Answers (if b then 0 else forced_at) (if b then [] else marks)
        × AreSpaced Answers (if b then [] else marks)
  declined_marks true forced_at marks e h = (tt, tt)
  declined_marks false forced_at marks e h = (e, h)

  came-IsSound :
      (read : QuotaRead) (report : AiUsageReport) (s : System)
      → Answers read report
      → IsSound Answers s
      → IsSound Answers (record s {
        panel = quota_came read report s.panel;
        marks = unmarked read report s.panel s.marks;
      })
  unfolding quota_came
  came-IsSound read report s a h = elim (Bool-cases (nat_eq read.number s.panel.run)) [
    | inl current ↦
        let kept =
          declined_marks (declined read report) s.panel.quota_forced_at s.marks h.newest h.spaced in
        rw current
          (record { from = (read, refl, a); newest = kept.0; spaced = kept.1; counted = h.counted })
    | inr late ↦
        rw late
          (record { from = h.from; newest = h.newest; spaced = h.spaced; counted = h.counted })
  ]

  failed-IsSound :
      (read : QuotaRead) (cause : Option Text) (s : System)
      → IsSound Answers s
      → IsSound Answers (record s { panel = quota_failed read cause s.panel })
  unfolding quota_failed
  failed-IsSound read cause s h =
      alike-IsSound (quota_failed read cause s.panel) s (ground arith) (ground arith) (ground arith)
        (ground arith) h

  toggled-IsSound :
      (target : Option ChatTarget) (s : System)
      → IsSound Answers s
      → IsSound Answers (record s { panel = toggle_quota target s.panel })
  unfolding toggle_quota load_quota_rows
  toggled-IsSound target s h =
      alike-IsSound (toggle_quota target s.panel) s (ground arith) (ground arith) (ground arith)
        (ground arith) h

  Step-IsSound : {s t : System} → Step Answers s t → IsSound Answers s → IsSound Answers t
  unfolding quota_rows_came quota_rows_failed
  Step-IsSound {s} (refreshes now target) h = refreshed-IsSound now target s h
  Step-IsSound {s} (toggles target) h = toggled-IsSound target s h
  Step-IsSound {s} (renders visible target) h = effect-IsSound visible target s h
  Step-IsSound {s} (comes read report _ a) h = came-IsSound read report s a h
  Step-IsSound {s} (fails read cause _) h = failed-IsSound read cause s h
  Step-IsSound {s} (rows_come targets accounts) h =
      alike-IsSound (quota_rows_came targets accounts s.panel) s refl refl refl refl h
  Step-IsSound {s} (rows_fail cause) h =
      alike-IsSound (quota_rows_failed cause s.panel) s refl refl refl refl h

  -- Whatever is refreshed, opened, chosen and answered: the turns and clicks that let the next read be
  -- forced are at least a minute apart, counted from the last forced read that the server declined;
  -- no more forced reads are sent than there were such turns and clicks; and the report that is kept
  -- was answered to a read of the workspace it is kept for.
  pub Reach-IsSound : {s t : System} → IsSound Answers s → Reach Answers s t → IsSound Answers t
  Reach-IsSound h here = h
  Reach-IsSound h (next r step) = Step-IsSound step (Reach-IsSound h r)
