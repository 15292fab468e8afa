-- ===== src/Api/Encoding/Segments.antt =====
-- An encoded id stays within its segment of a path.
use gx_notion2api.Prelude.{
  subst, ℕ, ◌≡◌, refl, Bool, true, false, ◌||◌, some, List, [], ◌∷◌, Text, arith, All, All-append,
  Bool-cases, inl, inr, nat_eq, any, ◌/◌,
}
use gx_notion2api.Api.Encoding.{
  is_unreserved, hex_digit, utf8, percents, encode_points, encode_uri_component,
}
use gx_notion2api.Chat.Tokens.{code_points}

-- The marks that end a segment of a path: `/`, `?`, `#`
abbrev pub is_mark : ℕ → Bool
is_mark c = nat_eq c 47 || nat_eq c 63 || nat_eq c 35

hex_digit_inside : (n : ℕ) → is_mark (hex_digit n) ≡ false
unfolding hex_digit
hex_digit_inside n = ground arith

unreserved_inside : (c : ℕ) → is_unreserved c ≡ true → is_mark c ≡ false
unfolding is_unreserved any
unreserved_inside c e = ground (arith, e)

percents_inside : (bytes : List ℕ) → All (λ c. is_mark c ≡ false) (percents bytes)
unfolding percents
percents_inside [] = tt
percents_inside (byte ∷ bytes) =
    (refl, (hex_digit_inside (byte / 16), (hex_digit_inside byte, percents_inside bytes)))

encode_points_inside : (cs : List ℕ) → All (λ c. is_mark c ≡ false) (encode_points cs)
unfolding encode_points
encode_points_inside [] = tt
encode_points_inside (c ∷ cs) = elim (Bool-cases (is_unreserved c)) [
  | inl e ↦ rw e (unreserved_inside c e, encode_points_inside cs)
  | inr e ↦ rw e (
      All-append (λ c. is_mark c ≡ false) (percents (utf8 c)) (encode_points cs)
        (percents_inside (utf8 c)) (encode_points_inside cs))
]

encoded_from : (t u : Text) → encode_uri_component t ≡ some u → encode_points (code_points t) ≡ u
unfolding encode_uri_component
encoded_from t u e = ground (arith, e)

-- Whatever the id, its encoding has no mark that ends a segment of a path, so the id stays within its
-- segment.
pub encode_uri_component_lem :
    (t u : Text) → encode_uri_component t ≡ some u → All (λ c. is_mark c ≡ false) u
encode_uri_component_lem t u e =
    subst (All (λ c. is_mark c ≡ false)) (encoded_from t u e) (encode_points_inside (code_points t))
