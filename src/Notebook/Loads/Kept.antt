-- ===== src/Notebook/Loads/Kept.antt =====
-- What every history of the notebook dialog keeps.
use gx_notion2api.Prelude.{
  ℕ, ◌+◌, ◌≡◌, refl, sym, ap, ◌∙◌, Bool, true, false, Option, none, some, List, [], Text, keep, any,
  nat_eq, if◌then◌else◌, arith, Bool-cases, inl, inr,
}
use gx_notion2api.Notebook.{
  NoteWorkspace, Note, NoteSource, NotebookState, target_with, reset_notebook, choose_target,
  choose_source, set_filter, NoteRequest, kept_note, send_read, begin_read, NoteAnswer, titles,
  note_text, failure, show_answer, notes_came, asked_page,
}
use gx_notion2api.Notebook.Loads.{
  System, and_awaited, IsAwaited, newest, older, has_number, is_other, IsSeen, AreSeen, AreUpTo,
  none_newer, newer-AreSeen, newer-AreUpTo, All-others, any-same, any-others, found_target,
  number_eq, newest_waits, Step, opens, targets_chosen, source_chosen, filters, reads, answers,
  Reach, here, next, ShowsNote, IsUpToDate,
}

module _ (Answers : NoteRequest → NoteAnswer → Type 0) where
  cleared-IsUpToDate :
      (awaited : List NoteRequest) (n : ℕ) (target filter error : Text) (source : NoteSource)
      (busy : Bool)
      → busy ≡ false
      → AreUpTo n awaited
      → IsUpToDate Answers (record {
        dialog = record {
          target = target;
          items = none;
          note = none;
          filter = filter;
          source = source;
          busy = busy;
          error = error;
          revision = n + 1;
        };
        awaited = awaited;
      })
  cleared-IsUpToDate awaited n target filter error source busy idle h = record {
    list_shown = tt;
    note_shown = tt;
    waits = none_newer n awaited h ∙ sym idle;
    numbered = newer-AreUpTo n awaited h;
    seen = newer-AreSeen n awaited target source h;
  }

  abbrev IsTargeted : Option NoteWorkspace → Text → Type 0
  IsTargeted none target = Unit
  IsTargeted (some workspace) target = workspace.id ≡ target

  is_targeted :
      (targets : List NoteWorkspace) (id : Text) (found : Option NoteWorkspace)
      → target_with id targets ≡ found
      → IsTargeted found id
  is_targeted targets id none e = tt
  is_targeted targets id (some w) e = found_target targets id w e

  kept_note_shown :
      (page : Option Text) (shown : Option Note) (target : Text) (source : NoteSource)
      → ShowsNote Answers shown target source
      → ShowsNote Answers (kept_note page shown) target source
  kept_note_shown none shown target source h = h
  kept_note_shown (some page) shown target source h = tt

  sent-IsUpToDate :
      (found : Option NoteWorkspace) (page : Option Text) (s : System)
      → IsTargeted found s.dialog.target
      → IsUpToDate Answers s
      → IsUpToDate Answers (record {
        dialog = (send_read found page s.dialog).0;
        awaited = and_awaited (send_read found page s.dialog).1 s.awaited;
      })
  sent-IsUpToDate none page s on h = record {
    list_shown = h.list_shown;
    note_shown = h.note_shown;
    waits = h.waits;
    numbered = h.numbered;
    seen = h.seen;
  }
  sent-IsUpToDate (some w) page s on h =
      let own : nat_eq (s.dialog.revision + 1) (s.dialog.revision + 1) ≡ true = ground arith in
      record {
        list_shown = h.list_shown;
        note_shown =
            kept_note_shown page s.dialog.note s.dialog.target s.dialog.source h.note_shown;
        waits = newest_waits s.dialog.revision _ s.awaited refl;
        numbered = (omega arith, newer-AreUpTo s.dialog.revision s.awaited h.numbered);
        seen = (
          rw own (on, refl),
          newer-AreSeen s.dialog.revision s.awaited s.dialog.target s.dialog.source h.numbered,
        );
      }

  either-IsUpToDate :
      (awaited : List NoteRequest) (test : Bool) (left right : NotebookState × Option NoteRequest)
      → IsUpToDate Answers (record { dialog = left.0; awaited = and_awaited left.1 awaited })
      → IsUpToDate Answers (record { dialog = right.0; awaited = and_awaited right.1 awaited })
      → IsUpToDate Answers (record {
        dialog = (if test then left else right).0;
        awaited = and_awaited (if test then left else right).1 awaited;
      })
  either-IsUpToDate awaited true left right h k = h
  either-IsUpToDate awaited false left right h k = k

  read-IsUpToDate :
      (targets : List NoteWorkspace) (page : Option Text) (s : System)
      → IsUpToDate Answers s
      → IsUpToDate Answers (record {
        dialog = (begin_read targets page s.dialog).0;
        awaited = and_awaited (begin_read targets page s.dialog).1 s.awaited;
      })
  unfolding begin_read
  read-IsUpToDate targets page s h =
      either-IsUpToDate s.awaited s.dialog.busy (s.dialog, none)
        (send_read (target_with s.dialog.target targets) (asked_page page) s.dialog)
        (sent-IsUpToDate none (asked_page page) s tt h)
        (sent-IsUpToDate (target_with s.dialog.target targets) (asked_page page) s
          (is_targeted targets s.dialog.target _ refl) h)

  awaited-IsSeen :
      {request : NoteRequest} {awaited : List NoteRequest} (n : ℕ) (target : Text)
      (source : NoteSource)
      → IsAwaited request awaited
      → AreSeen awaited n target source
      → nat_eq request.number n ≡ true
      → IsSeen request target source
  awaited-IsSeen n target source newest (h, hs) same = rw same at h
  awaited-IsSeen n target source (older found) (h, hs) same =
      awaited-IsSeen n target source found hs same

  module _ (request : NoteRequest) (s : System) (h : IsUpToDate Answers s) where
    others_seen :
        AreSeen
          (keep (is_other request.number) s.awaited)
          s.dialog.revision
          s.dialog.target
          s.dialog.source
    others_seen = All-others _ request.number s.awaited h.seen

    others_numbered : AreUpTo s.dialog.revision (keep (is_other request.number) s.awaited)
    others_numbered = All-others _ request.number s.awaited h.numbered

    module _ (same : nat_eq request.number s.dialog.revision ≡ true) where
      nothing_waits :
          any (has_number s.dialog.revision) (keep (is_other request.number) s.awaited) ≡ false
      nothing_waits =
          ap (λ n. any (has_number s.dialog.revision) (keep (is_other n) s.awaited))
            (number_eq request.number s.dialog.revision same)
          ∙ any-same s.dialog.revision s.awaited

      shown-IsUpToDate :
          (answer : NoteAnswer)
          → IsSeen request s.dialog.target s.dialog.source
          → Answers request answer
          → IsUpToDate Answers (record {
            dialog = show_answer answer s.dialog;
            awaited = keep (is_other request.number) s.awaited;
          })
      shown-IsUpToDate (titles items) (on, from) a = record {
        list_shown = (request, on, from, a);
        note_shown = h.note_shown;
        waits = nothing_waits;
        numbered = others_numbered;
        seen = others_seen;
      }
      shown-IsUpToDate (note_text note) (on, from) a = record {
        list_shown = h.list_shown;
        note_shown = (request, on, from, a);
        waits = nothing_waits;
        numbered = others_numbered;
        seen = others_seen;
      }
      shown-IsUpToDate (failure cause) (on, from) a = record {
        list_shown = h.list_shown;
        note_shown = h.note_shown;
        waits = nothing_waits;
        numbered = others_numbered;
        seen = others_seen;
      }

    answered-IsUpToDate :
        (answer : NoteAnswer)
        → IsAwaited request s.awaited
        → Answers request answer
        → IsUpToDate Answers (record {
          dialog = notes_came request answer s.dialog;
          awaited = keep (is_other request.number) s.awaited;
        })
    unfolding notes_came
    answered-IsUpToDate answer found a =
        elim (Bool-cases (nat_eq request.number s.dialog.revision)) [
          | inl same ↦
              rw same (shown-IsUpToDate same answer (awaited-IsSeen _ _ _ found h.seen same) a)
          | inr late ↦ rw late (record {
            list_shown = h.list_shown;
            note_shown = h.note_shown;
            waits = any-others request.number s.dialog.revision s.awaited late ∙ h.waits;
            numbered = others_numbered;
            seen = others_seen;
          })
        ]

  Step-IsUpToDate : {s t : System} → Step Answers s t → IsUpToDate Answers s → IsUpToDate Answers t
  unfolding reset_notebook choose_target choose_source set_filter
  Step-IsUpToDate {s} (opens targets current) h =
      cleared-IsUpToDate s.awaited s.dialog.revision _ [] [] s.dialog.source false refl h.numbered
  Step-IsUpToDate {s} (targets_chosen value idle) h =
      cleared-IsUpToDate s.awaited s.dialog.revision value [] [] s.dialog.source s.dialog.busy idle
        h.numbered
  Step-IsUpToDate {s} (source_chosen value idle) h =
      cleared-IsUpToDate s.awaited s.dialog.revision s.dialog.target [] [] value s.dialog.busy idle
        h.numbered
  Step-IsUpToDate {s} (filters value) h = record {
    list_shown = h.list_shown;
    note_shown = h.note_shown;
    waits = h.waits;
    numbered = h.numbered;
    seen = h.seen;
  }
  Step-IsUpToDate {s} (reads targets page) h = read-IsUpToDate targets page s h
  Step-IsUpToDate {s} (answers request answer found a) h =
      answered-IsUpToDate request s h answer found a

  -- Whatever is opened, chosen and read, and however late the answers come: the list on screen, and the
  -- note on screen, is the answer to a read of the workspace and the source on screen, and the dialog is
  -- busy exactly while the newest read is awaited.
  pub Reach-IsUpToDate :
      {s t : System} → IsUpToDate Answers s → Reach Answers s t → IsUpToDate Answers t
  Reach-IsUpToDate h here = h
  Reach-IsUpToDate h (next r step) = Step-IsUpToDate step (Reach-IsUpToDate h r)
