-- ===== src/Chat/Tokens/Bounds.antt =====
-- What the estimate guarantees.
use gx_notion2api.Prelude.{
  ℕ, ◌+◌, ◌-◌, ◌*◌, ◌/◌, ◌≤◌, ◌≡◌, refl, Bool, true, false, not, some, List, [], ◌∷◌, Text, arith,
  length, keep, is_present, if◌then◌else◌, Bool-cases, inl, inr,
}
use gx_notion2api.Chat.Tokens.{
  code_points, is_cjk_ideograph, count_characters, estimate_text, estimate_tokens, is_pair,
}

abbrev cjk_count : List ℕ → ℕ
cjk_count cs = length (keep is_cjk_ideograph cs)

abbrev other_count : List ℕ → ℕ
other_count cs = length (keep (λ c. not (is_cjk_ideograph c)) cs)

count_characters_lem :
    (cjk other : ℕ) (cs : List ℕ)
    → count_characters cjk other cs ≡ (cjk + cjk_count cs, other + other_count cs)
unfolding count_characters keep
count_characters_lem cjk other [] = ground arith
count_characters_lem cjk other (c ∷ cs) = elim (Bool-cases (is_cjk_ideograph c)) [
  | inl b ↦ rw b (rw (count_characters_lem (cjk + 1) other cs) (ground arith))
  | inr b ↦ rw b (rw (count_characters_lem cjk (other + 1) cs) (ground arith))
]

counts_sum : (cs : List ℕ) → cjk_count cs + other_count cs ≡ length cs
unfolding keep
counts_sum [] = omega arith
counts_sum (c ∷ cs) = ground (arith, counts_sum cs)

length-code_points-le : (s : Text) → length (code_points s) ≤ length s
unfolding code_points
length-code_points-le [] = omega arith
length-code_points-le (c ∷ []) = omega arith
length-code_points-le (c ∷ d ∷ rest) =
    by_pair (is_pair c d) (length-code_points-le rest) (length-code_points-le (d ∷ rest))
  where
    by_pair :
        (b : Bool)
        → length (code_points rest) ≤ length rest
        → length (code_points (d ∷ rest)) ≤ length (d ∷ rest)
        → length (
            if b
            then (0x10000 + (c - 0xd800) * 1024 + (d - 0xdc00)) ∷ code_points rest
            else c ∷ code_points (d ∷ rest))
          ≤ length (c ∷ d ∷ rest)
    by_pair true h k = omega arith
    by_pair false h k = omega arith

estimate_text_lem :
    (s : Text) → estimate_text s ≡ cjk_count (code_points s) + (other_count (code_points s) + 3) / 4
unfolding estimate_text
estimate_text_lem s = rw (count_characters_lem 0 0 (code_points s)) (omega arith)

-- The estimate of a text that is not empty counts each ideograph as one token and each four other
-- characters, rounded up, as one; it is at most the number of characters, which is at most the length
-- of the text, and at least a quarter of the number of characters.
pub estimate_tokens_bounds :
    (s : Text)
    → is_present s ≡ true
    → (estimate_tokens (some s)
        ≡ length (keep is_cjk_ideograph (code_points s))
          + (length (keep (λ c. not (is_cjk_ideograph c)) (code_points s)) + 3) / 4)
      × (estimate_tokens (some s) ≤ length (code_points s))
      × (length (code_points s) ≤ length s)
      × (length (code_points s) ≤ 4 * estimate_tokens (some s))
unfolding estimate_tokens
estimate_tokens_bounds s given = rw given (
    rw (estimate_text_lem s) (
      refl,
      omega (arith, counts_sum (code_points s)),
      length-code_points-le s,
      omega (arith, counts_sum (code_points s)),
    ))
