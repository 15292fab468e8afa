-- ===== src/Chat/Attachments/Answers.antt =====
-- No file is dropped silently, and none is attached twice.
use mathlib.Core.List.{map-append}
use gx_notion2api.Prelude.{
  append-nil, append_assoc, ◌+◌, ◌≡◌, ◌⊎◌, refl, sym, ap, ◌∙◌, true, false, ◌||◌, List, [], ◌∷◌,
  ◌++◌, Text, arith, map, All, contains, text_eq_iff, text_eq_refl, Bool-cases, inl, inr, nat_eq,
  ltb,
}
use gx_notion2api.Chat.Attachments.{
  ChatFile, budget, encoded_attachment_bytes, file_key, Rejection, Sorting, sort_file, sort_files,
  before_sorting, add_files, empty_file, too_large, Notice, silent, busy, skipped, notice_of,
}

abbrev pub rejected_file : Rejection → ChatFile
rejected_file (empty_file file) = file
rejected_file (too_large file) = file

-- The list rejects the file.
abbrev pub Rejects : List Rejection → ChatFile → Type 0
Rejects [] file = ⊥
Rejects (r ∷ rs) file = (rejected_file r ≡ file) ⊎ Rejects rs file

Rejects-append :
    (rs ss : List Rejection) (file : ChatFile)
    → Rejects rs file ⊎ Rejects ss file
    → Rejects (rs ++ ss) file
Rejects-append [] ss file (inl h) = elim h [ ]
Rejects-append [] ss file (inr h) = h
Rejects-append (r ∷ rs) ss file (inl (inl e)) = inl e
Rejects-append (r ∷ rs) ss file (inl (inr h)) = inr (Rejects-append rs ss file (inl h))
Rejects-append (r ∷ rs) ss file (inr h) = inr (Rejects-append rs ss file (inr h))

contains-append :
    (k : Text) (xs ys : List Text) → contains k (xs ++ ys) ≡ contains k xs || contains k ys
unfolding contains
contains-append k [] ys = refl
contains-append k (x ∷ xs) ys = ground (arith, contains-append k xs ys)

-- A file is answered when its key is seen or the list rejects it.
abbrev IsAnswered : Sorting → ChatFile → Type 0
IsAnswered v file = (contains (file_key file) v.seen ≡ true) ⊎ Rejects v.rejected file

sort_file_answers : (v : Sorting) (file : ChatFile) → IsAnswered (sort_file v file) file
unfolding sort_file
sort_file_answers v file = elim (Bool-cases (nat_eq file.size 0)) [
  | inl blank ↦
      rw blank (inr (Rejects-append v.rejected (empty_file file ∷ []) file (inr (inl refl))))
  | inr filled ↦ elim (Bool-cases (contains (file_key file) v.seen)) [
    | inl known ↦ rw (filled, known) (inl known)
    | inr new ↦ elim (Bool-cases (ltb budget (v.total + encoded_attachment_bytes file))) [
      | inl over ↦
          rw (filled, new, over)
            (inr (Rejects-append v.rejected (too_large file ∷ []) file (inr (inl refl))))
      | inr fits ↦ rw (filled, new, fits) (inl (unfold contains in rw text_eq_refl))
    ]
  ]
]

sort_file_keeps :
    (v : Sorting) (file other : ChatFile) → IsAnswered v other → IsAnswered (sort_file v file) other
unfolding sort_file
sort_file_keeps v file other h = elim (Bool-cases (nat_eq file.size 0)) [
  | inl blank ↦ rw blank (more (empty_file file) h)
  | inr filled ↦ elim (Bool-cases (contains (file_key file) v.seen)) [
    | inl known ↦ rw (filled, known) h
    | inr new ↦ elim (Bool-cases (ltb budget (v.total + encoded_attachment_bytes file))) [
      | inl over ↦ rw (filled, new, over) (more (too_large file) h)
      | inr fits ↦ rw (filled, new, fits) (also h)
    ]
  ]
]
  where
    more :
        (r : Rejection)
        → IsAnswered v other
        → (contains (file_key other) v.seen ≡ true) ⊎ Rejects (v.rejected ++ r ∷ []) other
    more r (inl e) = inl e
    more r (inr h) = inr (Rejects-append v.rejected (r ∷ []) other (inl h))

    also :
        IsAnswered v other
        → (contains (file_key other) (file_key file ∷ v.seen) ≡ true) ⊎ Rejects v.rejected other
    also (inl e) = inl (unfold contains in ground arith)
    also (inr h) = inr h

sort_files_keep :
    (v : Sorting) (files : List ChatFile) (other : ChatFile)
    → IsAnswered v other
    → IsAnswered (sort_files v files) other
unfolding sort_files
sort_files_keep v [] other h = h
sort_files_keep v (file ∷ files) other h =
    sort_files_keep (sort_file v file) files other (sort_file_keeps v file other h)

sort_files_answer :
    (v : Sorting) (files : List ChatFile) → All (IsAnswered (sort_files v files)) files
unfolding sort_files
sort_files_answer v [] = tt
sort_files_answer v (file ∷ files) = (
  sort_files_keep (sort_file v file) files file (sort_file_answers v file),
  sort_files_answer (sort_file v file) files,
)

-- No text stands twice in the list.
abbrev pub IsDistinct : List Text → Type 0
IsDistinct [] = Unit
IsDistinct (x ∷ xs) = (contains x xs ≡ false) × IsDistinct xs

IsDistinct-append :
    (xs : List Text) (x : Text) → IsDistinct xs → contains x xs ≡ false → IsDistinct (xs ++ x ∷ [])
unfolding contains
IsDistinct-append [] x h new = (refl, tt)
IsDistinct-append (y ∷ xs) x (fresh, h) new = (
  ground (arith, contains-append y xs (x ∷ []), text_eq_iff x y, text_eq_iff y x),
  IsDistinct-append xs x h (ground arith),
)

abbrev pub keys : List ChatFile → List Text
keys files = map file_key files

-- What the loop has seen are the keys of what was there and of what is accepted.
record IsTracked (files : List ChatFile) (v : Sorting) : Type 0 where
  known : (k : Text) → contains k v.seen ≡ contains k (keys (files ++ v.accepted))
  distinct : IsDistinct (keys (files ++ v.accepted))

keys-append :
    (files accepted : List ChatFile) (file : ChatFile)
    → keys (files ++ (accepted ++ file ∷ [])) ≡ keys (files ++ accepted) ++ file_key file ∷ []
keys-append files accepted file =
    ap keys (sym (append_assoc files accepted (file ∷ [])))
    ∙ map-append file_key (files ++ accepted) (file ∷ [])

sort_file-IsTracked :
    (files : List ChatFile) (v : Sorting) (file : ChatFile)
    → IsTracked files v
    → IsTracked files (sort_file v file)
unfolding sort_file
sort_file-IsTracked files v file h = elim (Bool-cases (nat_eq file.size 0)) [
  | inl blank ↦ rw blank (record { known = h.known; distinct = h.distinct })
  | inr filled ↦ elim (Bool-cases (contains (file_key file) v.seen)) [
    | inl old ↦ rw (filled, old) h
    | inr new ↦ elim (Bool-cases (ltb budget (v.total + encoded_attachment_bytes file))) [
      | inl over ↦ rw (filled, new, over) (record { known = h.known; distinct = h.distinct })
      | inr fits ↦
          rw (filled, new, fits)
            (record {
              known = λ k. rw (keys-append files v.accepted file) (tracked k);
              distinct = rw (keys-append files v.accepted file) (
                  IsDistinct-append _ (file_key file) h.distinct
                    (sym (h.known (file_key file)) ∙ new));
            })
    ]
  ]
]
  where
    tracked :
        (k : Text)
        → contains k (file_key file ∷ v.seen)
          ≡ contains k (keys (files ++ v.accepted) ++ file_key file ∷ [])
    tracked k =
        unfold contains in
        ground
          (arith, h.known k, contains-append k (keys (files ++ v.accepted)) (file_key file ∷ []))

sort_files-IsTracked :
    (files : List ChatFile) (v : Sorting) (incoming : List ChatFile)
    → IsTracked files v
    → IsTracked files (sort_files v incoming)
unfolding sort_files
sort_files-IsTracked files v [] h = h
sort_files-IsTracked files v (file ∷ incoming) h =
    sort_files-IsTracked files (sort_file v file) incoming (sort_file-IsTracked files v file h)

-- The rejections that the operator is told of
abbrev pub told : Notice → List Rejection
told (skipped rejections) = rejections
told silent = []
told busy = []

told-notice_of : (rs : List Rejection) → told (notice_of rs) ≡ rs
told-notice_of [] = refl
told-notice_of (r ∷ rs) = refl

start-IsTracked :
    (files : List ChatFile) → IsDistinct (keys files) → IsTracked files (before_sorting files)
start-IsTracked files h = record {
  known = λ k. ap (λ xs. contains k (keys xs)) (sym (append-nil files));
  distinct = rw append-nil h;
}

All-imp {ℓ κ} :
    {P : ChatFile → Type ℓ} {Q : ChatFile → Type κ} (files : List ChatFile)
    → ((file : ChatFile) → P file → Q file)
    → All P files
    → All Q files
All-imp [] f h = tt
All-imp (file ∷ files) f (p, h) = (f file p, All-imp files f h)

attached_or_told :
    (files : List ChatFile) (v : Sorting) (file : ChatFile)
    → IsTracked files v
    → IsAnswered v file
    → (contains (file_key file) (keys (files ++ v.accepted)) ≡ true)
      ⊎ Rejects (told (notice_of v.rejected)) file
attached_or_told files v file k (inl seen) = inl (sym (k.known (file_key file)) ∙ seen)
attached_or_told files v file k (inr rejected) = inr (rw told-notice_of rejected)

-- While no answer is running, files with distinct names and sizes stay so when more are added, and
-- for each added file one with its name and size is attached, or the operator is told that it is
-- rejected.
pub add_files_answers :
    (files incoming : List ChatFile)
    → IsDistinct (keys files)
    → IsDistinct (keys (add_files false files incoming).0)
      × All
          (λ file.
            (contains (file_key file) (keys (add_files false files incoming).0) ≡ true)
            ⊎ Rejects (told (add_files false files incoming).1) file)
          incoming
unfolding add_files
add_files_answers files [] h = (h, tt)
add_files_answers files (file ∷ incoming) h =
    let v = sort_files (before_sorting files) (file ∷ incoming) in
    let k =
      sort_files-IsTracked files (before_sorting files) (file ∷ incoming)
        (start-IsTracked files h) in
    (
      k.distinct,
      All-imp (file ∷ incoming) (λ other. attached_or_told files v other k)
          (sort_files_answer (before_sorting files) (file ∷ incoming)),
    )
