-- ===== src/ModelDisplay/Ambiguity.antt =====
-- What the catalogue must say for a model to get a name.
use gx_notion2api.Prelude.{
  ◌≡◌, refl, sym, ◌∙◌, true, false, not, Option, none, List, [], ◌∷◌, Text, text_eq, text_eq_iff,
  contains, keep, any, arith, Bool-cases, inl, inr,
}
use gx_notion2api.Types.Models.{ModelItem}
use gx_notion2api.ModelDisplay.{
  distinct_names, candidates, proper_names, one_name, model_display_name,
}

kept_text :
    (value other : Text) (values : List Text)
    → text_eq other value ≡ false
    → contains value values ≡ true
    → contains value (keep (λ v. not (text_eq other v)) values) ≡ true
unfolding contains any keep
kept_text value other [] h k = k
kept_text value other (v ∷ vs) h k = ground (
  arith,
  text_eq_iff value v,
  text_eq_iff other v,
  text_eq_iff other value,
  kept_text value other vs h,
  h,
  k,
)

contains-distinct_names :
    (value : Text) (values : List Text)
    → contains value values ≡ true
    → contains value (distinct_names values) ≡ true
unfolding contains any distinct_names
contains-distinct_names value [] h = h
contains-distinct_names value (v ∷ vs) h = elim (Bool-cases (text_eq v value)) [
  | inl same ↦ rw same refl
  | inr other ↦ ground (
    arith,
    other,
    h,
    text_eq_iff value v,
    text_eq_iff v value,
    kept_text value v (distinct_names vs),
    contains-distinct_names value vs,
  )
]

two_names :
    (lower : Text → Text) (a b : Text) (names : List Text) (other : Option Text)
    → contains a names ≡ true
    → contains b names ≡ true
    → text_eq a b ≡ false
    → one_name lower names other ≡ none
unfolding contains any
two_names lower a b [] other h k d = cc
two_names lower a b (n ∷ []) other h k d =
    let first : n ≡ a = (text_eq_iff n a).0 (ground (arith, h)) in
    let second : n ≡ b = (text_eq_iff n b).0 (ground (arith, k)) in
    let same : text_eq a b ≡ true = (text_eq_iff a b).1 (sym first ∙ second) in cc
two_names lower a b (n ∷ m ∷ names) other h k d = refl

-- Where two candidates of the catalogue have different names, both other than the one asked for, the
-- model gets no name, whatever is known of it otherwise.
pub model_display_name_ambiguous :
    (lower : Text → Text) (raw : Text) (models : List ModelItem) (provider : Option Text)
    (preferred : List ModelItem) (a b : Text)
    → contains a (proper_names lower raw (candidates lower raw provider models preferred)) ≡ true
    → contains b (proper_names lower raw (candidates lower raw provider models preferred)) ≡ true
    → text_eq a b ≡ false
    → model_display_name lower raw models provider preferred ≡ none
unfolding model_display_name
model_display_name_ambiguous lower raw models provider preferred a b h k d =
    let names = proper_names lower raw (candidates lower raw provider models preferred) in
    two_names lower a b (distinct_names names) _ (contains-distinct_names a names h)
      (contains-distinct_names b names k) d
