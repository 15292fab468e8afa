-- ===== src/Notebook/Loads.antt =====
-- Histories of the notebook dialog: openings, choices and reads, with every answer in any order.
pub mod Kept
use gx_notion2api.Prelude.{
  ℕ, ◌+◌, ◌≤◌, ◌≡◌, refl, sym, ap, ◌∙◌, Bool, true, false, not, ◌||◌, Option, none, some, List, [],
  ◌∷◌, Text, All, keep, any, find, nat_eq, text_eq, text_eq_iff, if◌then◌else◌, arith, Bool-cases,
  inl, inr,
}
use gx_notion2api.Notebook.{
  NoteWorkspace, Note, NoteTitle, NoteSource, NotebookState, initial_notebook, target_with,
  reset_notebook, choose_target, choose_source, set_filter, NoteRequest, kept_note, has_items,
  send_read, begin_read, NoteAnswer, titles, note_text, failure, show_answer, notes_came,
}

-- `awaited` are the reads without an answer yet.
pub record System : Type 0 where
  pub dialog : NotebookState
  pub awaited : List NoteRequest

abbrev pub and_awaited : Option NoteRequest → List NoteRequest → List NoteRequest
and_awaited none awaited = awaited
and_awaited (some request) awaited = request ∷ awaited

pub data IsAwaited (request : NoteRequest) : List NoteRequest → Type 0 where
  newest : {awaited : List NoteRequest} → IsAwaited request (request ∷ awaited)
  older :
      {awaited : List NoteRequest} {other : NoteRequest}
      → IsAwaited request awaited
      → IsAwaited request (other ∷ awaited)

abbrev pub has_number : ℕ → NoteRequest → Bool
has_number n request = nat_eq request.number n

abbrev pub is_other : ℕ → NoteRequest → Bool
is_other n request = not (has_number n request)

abbrev IsSeen : NoteRequest → Text → NoteSource → Type 0
IsSeen request target source = (request.workspace.id ≡ target) × (request.source ≡ source)

abbrev IsSeenIf : Bool → NoteRequest → Text → NoteSource → Type 0
IsSeenIf true request target source = IsSeen request target source
IsSeenIf false request target source = Unit

-- A read with the current number is of the workspace and the source on screen.
abbrev AreSeen : List NoteRequest → ℕ → Text → NoteSource → Type 0
AreSeen awaited n target source =
    All (λ request. IsSeenIf (has_number n request) request target source) awaited

abbrev AreUpTo : ℕ → List NoteRequest → Type 0
AreUpTo n awaited = All (λ request. request.number ≤ n) awaited

none_newer :
    (n : ℕ) (awaited : List NoteRequest)
    → AreUpTo n awaited
    → any (has_number (n + 1)) awaited ≡ false
unfolding any
none_newer n [] h = refl
none_newer n (r ∷ rs) (p, h) = ground (arith, none_newer n rs h, p)

newer-AreSeen :
    (n : ℕ) (awaited : List NoteRequest) (target : Text) (source : NoteSource)
    → AreUpTo n awaited
    → AreSeen awaited (n + 1) target source
newer-AreSeen n [] target source h = tt
newer-AreSeen n (r ∷ rs) target source (p, h) =
    let other : nat_eq r.number (n + 1) ≡ false = ground (arith, p) in
    (rw other tt, newer-AreSeen n rs target source h)

newer-AreUpTo : (n : ℕ) (awaited : List NoteRequest) → AreUpTo n awaited → AreUpTo (n + 1) awaited
newer-AreUpTo n [] h = tt
newer-AreUpTo n (r ∷ rs) (p, h) = (omega (arith, p), newer-AreUpTo n rs h)

All-others {κ} :
    (P : NoteRequest → Type κ) (m : ℕ) (awaited : List NoteRequest)
    → All P awaited
    → All P (keep (is_other m) awaited)
unfolding keep
All-others P m [] h = tt
All-others P m (r ∷ rs) (p, h) = elim (Bool-cases (nat_eq r.number m)) [
  | inl same ↦ rw same (All-others P m rs h)
  | inr other ↦ rw other (p, All-others P m rs h)
]

any-same :
    (m : ℕ) (awaited : List NoteRequest) → any (has_number m) (keep (is_other m) awaited) ≡ false
unfolding any keep
any-same m [] = refl
any-same m (r ∷ rs) = ground (arith, any-same m rs)

any-others :
    (m n : ℕ) (awaited : List NoteRequest)
    → nat_eq m n ≡ false
    → any (has_number n) (keep (is_other m) awaited) ≡ any (has_number n) awaited
unfolding any keep
any-others m n [] h = refl
any-others m n (r ∷ rs) h = ground (arith, any-others m n rs h, h)

found_target :
    (targets : List NoteWorkspace) (id : Text) (w : NoteWorkspace)
    → target_with id targets ≡ some w
    → w.id ≡ id
unfolding target_with find
found_target [] id w e = cc
found_target (t ∷ ts) id w e = elim (Bool-cases (text_eq t.id id)) [
  | inl same ↦ ground (arith, e, same, (text_eq_iff t.id id).0 same)
  | inr other ↦ found_target ts id w (ground (arith, e, other))
]

number_eq : (m n : ℕ) → nat_eq m n ≡ true → m ≡ n
number_eq m n h = ground (arith, h)

newest_waits :
    (n : ℕ) (r : NoteRequest) (awaited : List NoteRequest)
    → r.number ≡ n + 1
    → any (has_number (n + 1)) (r ∷ awaited) ≡ true
unfolding any
newest_waits n r awaited h = ground (arith, h)

-- `Answers` says what the server may answer to a read.
module _ (Answers : NoteRequest → NoteAnswer → Type 0) where
  -- The lists of the dialog are disabled while it is busy.
  pub data Step (s : System) : System → Type 0 where
    opens :
        (targets : List NoteWorkspace) (current : Option Text)
        → Step s (record s { dialog = reset_notebook targets current s.dialog })
    targets_chosen :
        (value : Text)
        → s.dialog.busy ≡ false
        → Step s (record s { dialog = choose_target value s.dialog })
    source_chosen :
        (value : NoteSource)
        → s.dialog.busy ≡ false
        → Step s (record s { dialog = choose_source value s.dialog })
    filters : (value : Text) → Step s (record s { dialog = set_filter value s.dialog })
    reads :
        (targets : List NoteWorkspace) (page : Option Text)
        → Step s (record {
          dialog = (begin_read targets page s.dialog).0;
          awaited = and_awaited (begin_read targets page s.dialog).1 s.awaited;
        })
    answers :
        (request : NoteRequest) (answer : NoteAnswer)
        → IsAwaited request s.awaited
        → Answers request answer
        → Step s (record {
          dialog = notes_came request answer s.dialog;
          awaited = keep (is_other request.number) s.awaited;
        })

  pub data Reach (s : System) : System → Type 0 where
    here : Reach s s
    next : {t u : System} → Reach s t → Step t u → Reach s u

  -- The list is the answer to a read of that workspace and that source.
  abbrev pub ShowsList : Option (List NoteTitle) → Text → NoteSource → Type 0
  ShowsList none target source = Unit
  ShowsList (some items) target source =
      (request : NoteRequest) × (request.workspace.id ≡ target)
      × (request.source ≡ source)
      × Answers request (titles items)

  -- The note is the answer to a read of that workspace and that source.
  abbrev pub ShowsNote : Option Note → Text → NoteSource → Type 0
  ShowsNote none target source = Unit
  ShowsNote (some note) target source =
      (request : NoteRequest) × (request.workspace.id ≡ target)
      × (request.source ≡ source)
      × Answers request (note_text note)

  pub record IsUpToDate (s : System) : Type 0 where
    pub list_shown : ShowsList s.dialog.items s.dialog.target s.dialog.source
    pub note_shown : ShowsNote s.dialog.note s.dialog.target s.dialog.source
    pub waits : any (has_number s.dialog.revision) s.awaited ≡ s.dialog.busy
    pub numbered : AreUpTo s.dialog.revision s.awaited
    pub seen : AreSeen s.awaited s.dialog.revision s.dialog.target s.dialog.source
