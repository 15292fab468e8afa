-- ===== src/Chat/Attachments/Budget.antt =====
-- The budget and the duplicates.
use mathlib.Core.List.{append-nil}
use gx_notion2api.Prelude.{
  ◌+◌, ◌≤◌, ◌≡◌, sym, ap, Bool, true, false, List, [], ◌∷◌, ◌++◌, arith, contains, Bool-cases, inl,
  inr, nat_eq, ltb,
}
use gx_notion2api.Chat.Attachments.{
  ChatFile, budget, encoded_attachment_bytes, total_bytes, file_key, Sorting, sort_file, sort_files,
  before_sorting, add_files,
}

total_bytes-append :
    (xs ys : List ChatFile) → total_bytes (xs ++ ys) ≡ total_bytes xs + total_bytes ys
unfolding total_bytes
total_bytes-append [] ys = omega arith
total_bytes-append (x ∷ xs) ys = omega (arith, total_bytes-append xs ys)

-- The loop's total is the size of what was there and of what is accepted, within the budget.
record IsCounted (files : List ChatFile) (v : Sorting) : Type 0 where
  counted : v.total ≡ total_bytes (files ++ v.accepted)
  within : v.total ≤ budget

accepted_counted :
    (files : List ChatFile) (v : Sorting) (file : ChatFile)
    → v.total ≡ total_bytes (files ++ v.accepted)
    → v.total + encoded_attachment_bytes file ≡ total_bytes (files ++ (v.accepted ++ file ∷ []))
unfolding total_bytes
accepted_counted files v file h = omega (
  arith,
  h,
  total_bytes-append files v.accepted,
  total_bytes-append files (v.accepted ++ file ∷ []),
  total_bytes-append v.accepted (file ∷ []),
)

sort_file-IsCounted :
    (files : List ChatFile) (v : Sorting) (file : ChatFile)
    → IsCounted files v
    → IsCounted files (sort_file v file)
unfolding sort_file
sort_file-IsCounted files v file h = elim (Bool-cases (nat_eq file.size 0)) [
  | inl blank ↦ rw blank (record { counted = h.counted; within = h.within })
  | inr filled ↦ elim (Bool-cases (contains (file_key file) v.seen)) [
    | inl known ↦ rw (filled, known) h
    | inr new ↦ elim (Bool-cases (ltb budget (v.total + encoded_attachment_bytes file))) [
      | inl over ↦ rw (filled, new, over) (record { counted = h.counted; within = h.within })
      | inr fits ↦
          rw (filled, new, fits)
            (record { counted = accepted_counted files v file h.counted; within = ground arith })
    ]
  ]
]

sort_files-IsCounted :
    (files : List ChatFile) (v : Sorting) (incoming : List ChatFile)
    → IsCounted files v
    → IsCounted files (sort_files v incoming)
unfolding sort_files
sort_files-IsCounted files v [] h = h
sort_files-IsCounted files v (file ∷ incoming) h =
    sort_files-IsCounted files (sort_file v file) incoming (sort_file-IsCounted files v file h)

-- Files within the size budget of a request stay within it, whatever is added.
pub add_files-le-budget :
    (running : Bool) (files incoming : List ChatFile)
    → total_bytes files ≤ budget
    → total_bytes (add_files running files incoming).0 ≤ budget
unfolding add_files
add_files-le-budget running files [] h = h
add_files-le-budget true files (file ∷ incoming) h = h
add_files-le-budget false files (file ∷ incoming) h =
    let k =
      sort_files-IsCounted files (before_sorting files) (file ∷ incoming)
        (record { counted = ap total_bytes (sym (append-nil files)); within = h }) in
    rw (← k.counted) k.within
