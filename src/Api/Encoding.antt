-- ===== src/Api/Encoding.antt =====
-- `encodeURIComponent`, which frontend/lib/services/admin/admin.service.ts puts around each id in a
-- path, on texts of UTF-16 code units. It throws at a surrogate without its other half.
pub mod Segments
use gx_notion2api.Prelude.{
  ℕ, ◌+◌, ◌%◌, ◌/◌, Bool, true, false, not, ◌&&◌, ◌||◌, Option, none, some, List, [], ◌∷◌, ◌++◌,
  Text, txt, if◌then◌else◌, ltb, leb, nat_eq, any,
}
use gx_notion2api.Chat.Tokens.{code_points}

abbrev pub is_between : ℕ → ℕ → ℕ → Bool
is_between low high c = leb low c && leb c high

-- Letters, digits and `-_.!~*'()`
unfoldable pub is_unreserved : ℕ → Bool
unfolding any
is_unreserved c =
    is_between 48 57 c
    || is_between 65 90 c
    || is_between 97 122 c
    || nat_eq c 95
    || any (nat_eq c) (txt "-.!~*'()")

-- The hexadecimal digit of the last four bits
unfoldable pub hex_digit : ℕ → ℕ
hex_digit n = if ltb (n % 16) 10 then 48 + n % 16 else 55 + n % 16

abbrev pub percent : ℕ → Text
percent byte = 37 ∷ hex_digit (byte / 16) ∷ hex_digit byte ∷ []

-- The bytes of a code point in UTF-8
unfoldable pub utf8 : ℕ → List ℕ
utf8 c =
    if ltb c 128
    then c ∷ []
    else if ltb c 2048
    then (192 + c / 64) ∷ (128 + c % 64) ∷ []
    else if ltb c 65536
    then (224 + c / 4096) ∷ (128 + c / 64 % 64) ∷ (128 + c % 64) ∷ []
    else (240 + c / 262144) ∷ (128 + c / 4096 % 64) ∷ (128 + c / 64 % 64) ∷ (128 + c % 64) ∷ []

unfoldable pub percents : List ℕ → Text
unfolding hex_digit
percents [] = []
percents (byte ∷ bytes) = percent byte ++ percents bytes

unfoldable pub encode_points : List ℕ → Text
unfolding is_unreserved utf8 percents
encode_points [] = []
encode_points (c ∷ cs) = (if is_unreserved c then c ∷ [] else percents (utf8 c)) ++ encode_points cs

abbrev pub is_surrogate : ℕ → Bool
is_surrogate c = is_between 55296 57343 c

unfoldable pub encode_uri_component : Text → Option Text
unfolding code_points encode_points any
encode_uri_component t =
    if any is_surrogate (code_points t) then none else some (encode_points (code_points t))
