-- ===== src/Chat/Exporting/FileNames.antt =====
-- The file names of the export.
use mathlib.Core.List.{reverse, reverse-append}
use gx_notion2api.Prelude.{
  ℕ, zero, suc, ◌≤◌, ◌≡◌, refl, sym, subst, Bool, true, false, some, List, [], ◌∷◌, Text, txt,
  if◌then◌else◌, or_text, take, trim, trim_start, is_space, length, All, All-append, arith,
  Bool-cases, inl, inr,
}
use gx_notion2api.Chat.Exporting.{is_forbidden, replace_forbidden, collapse_spaces, safe_file_name}

module _ {ℓ κ} {A : Type ℓ} (P : A → Type κ) where
  All-reverse : (xs : List A) → All P xs → All P (reverse xs)
  All-reverse [] h = tt
  All-reverse (x ∷ xs) (p, h) =
      subst (All P) (sym (reverse-append (x ∷ []) xs))
        (All-append P (reverse xs) (x ∷ []) (All-reverse xs h) (p, tt))

  All-take : (n : ℕ) (xs : List A) → All P xs → All P (take n xs)
  All-take zero xs h = tt
  All-take (suc n) [] h = tt
  All-take (suc n) (x ∷ xs) (p, h) = (p, All-take n xs h)

length-take-le {ℓ} : {A : Type ℓ} (n : ℕ) (xs : List A) → length (take n xs) ≤ n
length-take-le zero xs = omega arith
length-take-le (suc n) [] = omega arith
length-take-le (suc n) (x ∷ xs) = omega (arith, length-take-le n xs)

-- The code unit may stand in a file name.
abbrev pub IsAllowed : ℕ → Type 0
IsAllowed c = is_forbidden c ≡ false

space_allowed : is_forbidden 32 ≡ false
unfolding is_forbidden
space_allowed = refl

trim_start-IsAllowed : (t : Text) → All IsAllowed t → All IsAllowed (trim_start t)
unfolding trim_start
trim_start-IsAllowed [] h = tt
trim_start-IsAllowed (c ∷ t) (p, h) = elim (Bool-cases (is_space c)) [
  | inl space ↦ rw space (trim_start-IsAllowed t h)
  | inr other ↦ rw other (p, h)
]

trim-IsAllowed : (t : Text) → All IsAllowed t → All IsAllowed (trim t)
unfolding trim
trim-IsAllowed t h = All-reverse IsAllowed (trim_start (reverse (trim_start t))) (
    trim_start-IsAllowed (reverse (trim_start t))
      (All-reverse IsAllowed (trim_start t) (trim_start-IsAllowed t h)))

replace_forbidden-IsAllowed : (t : Text) → All IsAllowed (replace_forbidden t)
unfolding replace_forbidden
replace_forbidden-IsAllowed [] = tt
replace_forbidden-IsAllowed (c ∷ t) = elim (Bool-cases (is_forbidden c)) [
  | inl bad ↦ rw bad (space_allowed, replace_forbidden-IsAllowed t)
  | inr good ↦ rw good (good, replace_forbidden-IsAllowed t)
]

kept_space :
    (inside : Bool) (rest : Text)
    → All IsAllowed rest
    → All IsAllowed (if inside then rest else 32 ∷ rest)
kept_space true rest h = h
kept_space false rest h = (space_allowed, h)

collapse_spaces-IsAllowed :
    (inside : Bool) (t : Text) → All IsAllowed t → All IsAllowed (collapse_spaces inside t)
unfolding collapse_spaces
collapse_spaces-IsAllowed inside [] h = tt
collapse_spaces-IsAllowed inside (c ∷ t) (p, h) = elim (Bool-cases (is_space c)) [
  | inl space ↦
      rw space (kept_space inside (collapse_spaces true t) (collapse_spaces-IsAllowed true t h))
  | inr other ↦ rw other (p, collapse_spaces-IsAllowed false t h)
]

abbrev IsName : Text → Type 0
IsName t = (1 ≤ length t) × All IsAllowed t

default_name : IsName (txt "conversation")
unfolding is_forbidden
default_name = (
  omega arith,
  (
    refl,
    (refl, (refl, (refl, (refl, (refl, (refl, (refl, (refl, (refl, (refl, (refl, tt))))))))))),
  ),
)

named : (t : Text) → All IsAllowed t → IsName (or_text (some t) (txt "conversation"))
unfolding or_text
named [] h = default_name
named (c ∷ t) h = (omega arith, h)

take_given : (t : Text) → 1 ≤ length t → 1 ≤ length (take 80 t)
take_given [] h = h
take_given (c ∷ t) h = omega arith

-- The file name of an export, before its extension, is never empty, has at most 80 code units, and none of them is a mark that
-- file systems forbid or a control character, whatever the title is.
pub safe_file_name_lem :
    (name : Text)
    → (1 ≤ length (safe_file_name name))
      × (length (safe_file_name name) ≤ 80)
      × All (λ c. is_forbidden c ≡ false) (safe_file_name name)
unfolding safe_file_name
safe_file_name_lem name =
    let cleaned = trim (collapse_spaces false (replace_forbidden name)) in
    let (given, allowed) =
      named cleaned
        (trim-IsAllowed _ (collapse_spaces-IsAllowed false _ (replace_forbidden-IsAllowed name))) in
    (
      take_given _ given,
      length-take-le 80 (or_text (some cleaned) (txt "conversation")),
      All-take IsAllowed 80 (or_text (some cleaned) (txt "conversation")) allowed,
    )
