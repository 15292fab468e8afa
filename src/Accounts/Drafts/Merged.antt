-- ===== src/Accounts/Drafts/Merged.antt =====
-- What a refresh keeps of the drafts.
use gx_notion2api.Prelude.{
  ◌≡◌, refl, Bool, Option, none, some, List, [], ◌∷◌, Text, lookup, text_eq, text_eq_iff,
  Bool-cases, inl, inr,
}
use gx_notion2api.Accounts.Drafts.{keep_draft, merge_drafts}

module _ {ℓ} {V : Type ℓ} (eq : V → V → Bool) where
  abbrev pub merged_entry : Option V → Option V → Option V → Option V
  merged_entry current previous none = none
  merged_entry current previous (some value) = some (keep_draft eq current previous value)

  pub lookup-merge_drafts :
      (key : Text) (current previous next : List (Text × V))
      → lookup key (merge_drafts eq current previous next)
        ≡ merged_entry (lookup key current) (lookup key previous) (lookup key next)
  unfolding lookup merge_drafts
  lookup-merge_drafts key current previous [] = refl
  lookup-merge_drafts key current previous ((k, value) ∷ next) = elim (Bool-cases (text_eq k key)) [
    | inl same ↦ rw (same, (text_eq_iff k key).0 same) refl
    | inr other ↦ rw other (lookup-merge_drafts key current previous next)
  ]
