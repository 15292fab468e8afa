-- ===== src/Chat/Targets/Models.antt =====
-- The models that the operator can choose.
use gx_notion2api.Prelude.{
  ◌≡◌, ◌≢◌, refl, sym, ◌∙◌, true, List, [], ◌∷◌, Text, txt, arith, All, insert, keep, text_eq,
  text_eq_iff, Bool-cases, inl, inr, ◌⊎◌, Bool, any, text_eq_refl,
}
use gx_notion2api.Types.Models.{ModelItem}
use gx_notion2api.Types.Accounts.{AccountItem}
use gx_notion2api.Chat.Targets.Allowed.{IsAllowed, has_model_id, is_choosable-IsAllowed}
use gx_notion2api.Chat.Targets.{
  Target, is_choosable, by_id, entry_models, flat_models, model_targets, auto_model,
  available_models,
}

-- Each entry stands under its own id, the ids differ, and each model may be chosen.
abbrev IsNewId : Text → List (Text × ModelItem) → Type 0
IsNewId id entries = All (λ entry. entry.0 ≢ id) entries

abbrev IsMap : (ModelItem → Type 0) → List (Text × ModelItem) → Type 0
IsMap P [] = Unit
IsMap P ((id, item) ∷ entries) = (item.id ≡ id) × P item × IsNewId id entries × IsMap P entries

insert-IsNewId :
    (id key : Text) (item : ModelItem) (entries : List (Text × ModelItem))
    → key ≢ id
    → IsNewId id entries
    → IsNewId id (insert key item entries)
unfolding insert
insert-IsNewId id key item [] ne h = (ne, tt)
insert-IsNewId id key item ((other, v) ∷ entries) ne (p, h) =
    ground (arith, insert-IsNewId id key item entries ne h)

module _ (P : ModelItem → Type 0) where
  insert-IsMap :
      (item : ModelItem) (entries : List (Text × ModelItem))
      → P item
      → IsMap P entries
      → IsMap P (insert item.id item entries)
  unfolding insert
  insert-IsMap item [] p h = (refl, p, tt, tt)
  insert-IsMap item ((id, v) ∷ entries) p (own, q, new, h) =
      elim (Bool-cases (text_eq id item.id)) [
        | inl same ↦ rw same (sym ((text_eq_iff id item.id).0 same), p, new, h)
        | inr other ↦ rw other (
          own,
          q,
          insert-IsNewId id item.id item entries
              (λ e. ground (arith, text_eq_iff id item.id, sym e, other)) new,
          insert-IsMap item entries p h,
        )
      ]

  by_id-IsMap :
      (entries : List (Text × ModelItem)) (items : List ModelItem)
      → All P items
      → IsMap P entries
      → IsMap P (by_id entries items)
  unfolding by_id
  by_id-IsMap entries [] p h = h
  by_id-IsMap entries (item ∷ items) (q, p) h =
      by_id-IsMap (insert item.id item entries) items p (insert-IsMap item entries q h)

-- No two models share an id.
abbrev pub HasDistinctModels : List ModelItem → Type 0
HasDistinctModels [] = Unit
HasDistinctModels (item ∷ items) = All (λ other. other.id ≢ item.id) items × HasDistinctModels items

entries_new :
    (P : ModelItem → Type 0) (id : Text) (entries : List (Text × ModelItem))
    → IsMap P entries
    → IsNewId id entries
    → All (λ other. other.id ≢ id) (entry_models entries)
unfolding entry_models
entries_new P id [] h new = tt
entries_new P id ((key, item) ∷ entries) (own, p, fresh, h) (ne, new) =
    ((λ e. ne (sym own ∙ e)), entries_new P id entries h new)

entries_distinct :
    (P : ModelItem → Type 0) (entries : List (Text × ModelItem))
    → IsMap P entries
    → HasDistinctModels (entry_models entries) × All P (entry_models entries)
unfolding entry_models
entries_distinct P [] h = (tt, tt)
entries_distinct P ((key, item) ∷ entries) (own, p, fresh, h) =
    let (distinct, chosen) = entries_distinct P entries h in
    ((rw own (entries_new P key entries h fresh), distinct), (p, chosen))

All-IsAllowed :
    (models items : List ModelItem) → All (IsAllowed models) (keep (is_choosable models) items)
unfolding keep
All-IsAllowed models [] = tt
All-IsAllowed models (item ∷ items) = elim (is_choosable-IsAllowed models item) [
  | inl (shows, allowed) ↦ rw shows (allowed, All-IsAllowed models items)
  | inr (hides, hidden) ↦ rw hides (All-IsAllowed models items)
]

not_auto :
    (models items : List ModelItem)
    → All (IsAllowed models) items
    → All (λ item. item.id ≢ txt "auto") items
not_auto models [] h = tt
not_auto models (item ∷ items) (p, h) = (p.1, not_auto models items h)

-- The entries have the key.
abbrev has_key : Text → List (Text × ModelItem) → Bool
has_key id entries = any (λ entry. text_eq entry.0 id) entries

insert-has_key :
    (id : Text) (item : ModelItem) (entries : List (Text × ModelItem))
    → has_key id (insert id item entries) ≡ true
unfolding insert any
insert-has_key id item [] = rw (text_eq_refl id) refl
insert-has_key id item ((key, v) ∷ entries) =
    ground (arith, insert-has_key id item entries, text_eq_refl id)

insert-keeps_key :
    (id key : Text) (item : ModelItem) (entries : List (Text × ModelItem))
    → has_key id entries ≡ true
    → has_key id (insert key item entries) ≡ true
unfolding insert any
insert-keeps_key id key item [] h = cc
insert-keeps_key id key item ((other, v) ∷ entries) h =
    ground (arith, insert-keeps_key id key item entries, h)

by_id-keeps_key :
    (id : Text) (entries : List (Text × ModelItem)) (items : List ModelItem)
    → has_key id entries ≡ true
    → has_key id (by_id entries items) ≡ true
unfolding by_id
by_id-keeps_key id entries [] h = h
by_id-keeps_key id entries (item ∷ items) h =
    by_id-keeps_key id (insert item.id item entries) items
      (insert-keeps_key id item.id item entries h)

by_id-has_keys :
    (entries : List (Text × ModelItem)) (items : List ModelItem)
    → All (λ item. has_key item.id (by_id entries items) ≡ true) items
unfolding by_id
by_id-has_keys entries [] = tt
by_id-has_keys entries (item ∷ items) = (
  by_id-keeps_key item.id (insert item.id item entries) items (insert-has_key item.id item entries),
  by_id-has_keys (insert item.id item entries) items,
)

entry_named :
    (P : ModelItem → Type 0) (id : Text) (entries : List (Text × ModelItem))
    → IsMap P entries
    → has_key id entries ≡ true
    → any (has_model_id id) (entry_models entries) ≡ true
unfolding entry_models any
entry_named P id [] h e = cc
entry_named P id ((key, item) ∷ entries) (own, p, fresh, h) e =
    elim (Bool-cases (text_eq item.id id)) [
      | inl same ↦ rw same refl
      | inr other ↦ rw other (entry_named P id entries h (rw (← own, other) at e))
    ]

-- Each model is hidden or stands among those offered, by its id.
abbrev pub AreOffered : List ModelItem → List ModelItem → List ModelItem → Type 0
AreOffered models offered items =
    All (λ item. (¬ IsAllowed models item) ⊎ (any (has_model_id item.id) offered ≡ true)) items

kept-AreOffered :
    (models items : List ModelItem) (entries : List (Text × ModelItem))
    → IsMap (IsAllowed models) entries
    → All (λ item. has_key item.id entries ≡ true) (keep (is_choosable models) items)
    → AreOffered models (entry_models entries) items
unfolding keep
kept-AreOffered models [] entries m h = tt
kept-AreOffered models (item ∷ items) entries m h = elim (is_choosable-IsAllowed models item) [
  | inl (shows, allowed) ↦
      let (key, later) = (rw shows at h) in
      (
        inr (entry_named (IsAllowed models) item.id entries m key),
        kept-AreOffered models items entries m later,
      )
  | inr (hides, hidden) ↦ (inl hidden, kept-AreOffered models items entries m (rw hides at h))
]

-- Whatever the accounts and the target, the models offered begin with Auto and no two share an id.
-- Every other one is enabled, is not named Auto, and is not disabled by the catalogue's first model of
-- its id; and every model of the target's workspaces for which that holds is offered, by its id.
pub available_models_lem :
    (models : List ModelItem) (accounts : List AccountItem) (target : Target)
    → (items : List ModelItem) × (available_models models accounts target ≡ auto_model ∷ items)
      × HasDistinctModels (available_models models accounts target)
      × All (IsAllowed models) items
      × AreOffered models items (flat_models (model_targets accounts target))
unfolding available_models
available_models_lem models accounts target =
    let flat = flat_models (model_targets accounts target) in
    let chosen = keep (is_choosable models) flat in
    let h = by_id-IsMap (IsAllowed models) [] chosen (All-IsAllowed models flat) tt in
    let (distinct, allowed) = entries_distinct (IsAllowed models) (by_id [] chosen) h in
    (
      entry_models (by_id [] chosen),
      refl,
      (not_auto models (entry_models (by_id [] chosen)) allowed, distinct),
      allowed,
      kept-AreOffered models flat (by_id [] chosen) h (by_id-has_keys [] chosen),
    )
