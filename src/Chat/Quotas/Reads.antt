-- ===== src/Chat/Quotas/Reads.antt =====
-- Histories of the quota indicator: turns that end, panels that open, workspaces that change, and the
-- answers to all reads, in any order.
pub mod Kept
use gx_notion2api.Prelude.{
  ℕ, ◌+◌, ◌≤◌, ◌≡◌, refl, Bool, true, false, not, ◌&&◌, Option, none, some, List, [], ◌∷◌, Text,
  All, if◌then◌else◌, leb, nat_eq, is_present, arith, Bool-cases, inl, inr,
}
use gx_notion2api.Types.Usage.{AiUsageReport}
use gx_notion2api.Chat.Targets.{ChatTarget}
use gx_notion2api.Chat.Quotas.{
  quota_force_min_interval_ms, QuotaState, load_quota_rows, quota_rows_came, quota_rows_failed,
  mark_forced, refresh_quota, toggle_quota, QuotaRead, run_quota_effect, declined, quota_came,
  quota_failed, is_none,
}

-- `sent` are all reads that were sent. `marks` are the times of the turns and clicks that moved
-- `quota_forced_at`, since a forced read was last declined, and `granted` counts all of them.
pub record System : Type 0 where
  pub panel : QuotaState
  pub sent : List QuotaRead
  pub marks : List ℕ
  pub granted : ℕ

abbrev pub is_moved : QuotaState → QuotaState → Bool
is_moved before after = not (nat_eq after.quota_forced_at before.quota_forced_at)

-- After a turn or a click at the time `now`
abbrev pub clicked : ℕ → QuotaState → System → System
clicked now after s = record {
  panel = after;
  sent = s.sent;
  marks = if is_moved s.panel after then now ∷ s.marks else s.marks;
  granted = if is_moved s.panel after then s.granted + 1 else s.granted;
}

abbrev pub and_sent : Option QuotaRead → List QuotaRead → List QuotaRead
and_sent none sent = sent
and_sent (some read) sent = read ∷ sent

pub data IsSent (read : QuotaRead) : List QuotaRead → Type 0 where
  newest : {sent : List QuotaRead} → IsSent read (read ∷ sent)
  older :
      {sent : List QuotaRead} {other : QuotaRead} → IsSent read sent → IsSent read (other ∷ sent)

-- The server declined the forced read of the present run: it answered from its cache.
abbrev pub unmarked : QuotaRead → AiUsageReport → QuotaState → List ℕ → List ℕ
unmarked read report s marks =
    if nat_eq read.number s.run && (read.force && report.cached) then [] else marks

abbrev pub one_if : Bool → ℕ
one_if true = 1
one_if false = 0

abbrev pub forced_count : List QuotaRead → ℕ
forced_count [] = 0
forced_count (read ∷ reads) = one_if read.force + forced_count reads

-- `Answers` says what the server may answer to a read.
module _ (Answers : QuotaRead → AiUsageReport → Type 0) where
  pub data Step (s : System) : System → Type 0 where
    refreshes :
        (now : ℕ) (target : Option ChatTarget)
        → Step s (clicked now (refresh_quota now target s.panel) s)
    toggles :
        (target : Option ChatTarget) → Step s (record s { panel = toggle_quota target s.panel })
    renders :
        (visible : Bool) (target : Option ChatTarget)
        → Step s (record s {
          panel = (run_quota_effect visible target s.panel).0;
          sent = and_sent (run_quota_effect visible target s.panel).1 s.sent;
        })
    comes :
        (read : QuotaRead) (report : AiUsageReport)
        → IsSent read s.sent
        → Answers read report
        → Step s (record s {
          panel = quota_came read report s.panel;
          marks = unmarked read report s.panel s.marks;
        })
    fails :
        (read : QuotaRead) (cause : Option Text)
        → IsSent read s.sent
        → Step s (record s { panel = quota_failed read cause s.panel })
    rows_come :
        (targets : List ChatTarget) (accounts : List AiUsageReport)
        → Step s (record s { panel = quota_rows_came targets accounts s.panel })
    rows_fail :
        (cause : Option Text) → Step s (record s { panel = quota_rows_failed cause s.panel })

  pub data Reach (s : System) : System → Type 0 where
    here : Reach s s
    next : {t u : System} → Reach s t → Step t u → Reach s u

  -- The report was answered to a read for that key.
  abbrev pub IsFrom : Text → Option AiUsageReport → Type 0
  IsFrom key none = Unit
  IsFrom key (some report) = (read : QuotaRead) × (read.key ≡ key) × Answers read report

  -- Each time is at least the interval after the one before it.
  abbrev pub AreSpaced : List ℕ → Type 0
  AreSpaced [] = Unit
  AreSpaced (t ∷ []) = Unit
  AreSpaced (t ∷ u ∷ ts) = (u + quota_force_min_interval_ms ≤ t) × AreSpaced (u ∷ ts)

  abbrev pub IsNewest : ℕ → List ℕ → Type 0
  IsNewest forced_at [] = Unit
  IsNewest forced_at (t ∷ ts) = t ≡ forced_at

  pub record IsSound (s : System) : Type 0 where
    pub from : IsFrom s.panel.quota_key s.panel.quota
    pub newest : IsNewest s.panel.quota_forced_at s.marks
    pub spaced : AreSpaced s.marks
    pub counted : forced_count s.sent + one_if s.panel.quota_force_next ≤ s.granted

-- What a read ends with
pub data QuotaAnswer : Type 0 where
  reported : AiUsageReport → QuotaAnswer
  refused : Option Text → QuotaAnswer

abbrev pub quota_ended : QuotaRead → QuotaAnswer → QuotaState → QuotaState
quota_ended read (reported report) s = quota_came read report s
quota_ended read (refused cause) s = quota_failed read cause s

-- The reads and what they end with, in the order in which they end
abbrev pub all_came : List (QuotaRead × QuotaAnswer) → QuotaState → QuotaState
all_came [] s = s
all_came ((read, answer) ∷ answers) s = all_came answers (quota_ended read answer s)

late_end :
    (read : QuotaRead) (answer : QuotaAnswer) (s : QuotaState)
    → nat_eq read.number s.run ≡ false
    → quota_ended read answer s ≡ s
unfolding quota_came quota_failed
late_end read (reported report) s late = rw late refl
late_end read (refused cause) s late = rw late refl

late_came :
    (s : QuotaState) (answers : List (QuotaRead × QuotaAnswer)) (n : ℕ)
    → s.run ≡ n + 1
    → All (λ answer. answer.0.number ≤ n) answers
    → all_came answers s ≡ s
late_came s [] n e h = refl
late_came s ((read, answer) ∷ answers) n e (le, h) =
    let late : nat_eq read.number s.run ≡ false = ground (arith, e, le) in
    rw (late_end read answer s late) (late_came s answers n e h)

-- Once no workspace is effective, a read that is still awaited never ends its loading: whatever reports
-- and failures come to the reads asked before, in whatever order, the indicator stays as the effect
-- left it, without a report, and loading if it was.
pub all_came-run_quota_effect :
    (visible : Bool) (s : QuotaState) (answers : List (QuotaRead × QuotaAnswer))
    → All (λ answer. answer.0.number ≤ s.run) answers
    → (all_came answers (run_quota_effect visible none s).0 ≡ (run_quota_effect visible none s).0)
      × ((run_quota_effect visible none s).0.quota ≡ none)
      × ((run_quota_effect visible none s).0.quota_loading ≡ s.quota_loading)
unfolding run_quota_effect
all_came-run_quota_effect visible s answers h =
    (late_came (run_quota_effect visible none s).0 answers s.run refl h, refl, refl)
