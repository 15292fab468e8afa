-- ===== src/Prelude/Strings.antt =====
-- JavaScript strings: sequences of UTF-16 code units, with the methods that the console calls.
-- A source literal is written `txt "…"`; the literals of the console lie in the basic plane, where a
-- code unit is a code point.
use Prim.Native.Nat.{ℕ}
use Prim.Native.Char.{code}
use Prim.Native.String.{String}
use mathlib.Core.Path.{◌≡◌, refl}
use mathlib.Core.Logic.{◌↔◌, ◌≢◌}
use mathlib.Core.Bool.{Bool, true, false, ◌&&◌, ◌||◌}
use mathlib.Core.List.{List, [], ◌∷◌, reverse}
use mathlib.Core.Option.{Option, none, some}
use native.Mathlib.Omega.{arith}
use gx_notion2api.Prelude.Tests.{if◌then◌else◌, nat_eq, leb}
use gx_notion2api.Prelude.Lists.{any}

abbrev pub Text : Type 0
Text = List ℕ

abbrev pub txt : String → Text
txt String.[] = []
txt (String.◌∷◌ c s) = code c ∷ txt s

-- `left === right`
unfoldable pub text_eq : Text → Text → Bool
text_eq [] [] = true
text_eq (a ∷ s) (b ∷ t) = nat_eq a b && text_eq s t
text_eq _ _ = false

pub text_eq_iff : (s t : Text) → (text_eq s t ≡ true) ↔ (s ≡ t)
unfolding text_eq
text_eq_iff [] [] = ground arith
text_eq_iff [] (b ∷ t) = ground arith
text_eq_iff (a ∷ s) [] = ground arith
text_eq_iff (a ∷ s) (b ∷ t) = ground (arith, text_eq_iff s t)

pub text_eq_refl : (s : Text) → text_eq s s ≡ true
text_eq_refl s = (text_eq_iff s s).1 refl

pub text_ne : (s t : Text) → text_eq s t ≡ false → s ≢ t
text_ne s t h e = ground (arith, text_eq_iff s t)

-- Is the string truthy: not empty?
abbrev pub is_present : Text → Bool
is_present [] = false
is_present (c ∷ s) = true

-- `Boolean(value)` of an optional string
abbrev pub is_given : Option Text → Bool
is_given none = false
is_given (some s) = is_present s

-- `error instanceof Error ? error.message : fallback`, where `none` is what is not an `Error`
abbrev pub message_or : Option Text → Text → Text
message_or none fallback = fallback
message_or (some message) fallback = message

-- `value || fallback`
unfoldable pub or_text : Option Text → Text → Text
or_text none d = d
or_text (some s) d = if is_present s then s else d

-- `value || other`, where both may be undefined
unfoldable pub or_else : Option Text → Option Text → Option Text
or_else none o = o
or_else (some s) o = if is_present s then some s else o

-- `left === right` of optional strings
unfoldable pub option_eq : Option Text → Option Text → Bool
option_eq none none = true
option_eq (some s) (some t) = text_eq s t
option_eq _ _ = false

pub option_eq_iff : (a b : Option Text) → (option_eq a b ≡ true) ↔ (a ≡ b)
unfolding option_eq
option_eq_iff none none = ground arith
option_eq_iff none (some t) = ground arith
option_eq_iff (some s) none = ground arith
option_eq_iff (some s) (some t) = ground (arith, text_eq_iff s t)

-- White space and line terminators, as `trim` and `\s` read them
unfoldable pub is_space : ℕ → Bool
is_space c =
    (leb 9 c && leb c 13)
    || nat_eq c 32
    || nat_eq c 160
    || nat_eq c 0x1680
    || (leb 0x2000 c && leb c 0x200a)
    || nat_eq c 0x2028
    || nat_eq c 0x2029
    || nat_eq c 0x202f
    || nat_eq c 0x205f
    || nat_eq c 0x3000
    || nat_eq c 0xfeff

unfoldable pub trim_start : Text → Text
trim_start [] = []
trim_start (c ∷ s) = if is_space c then trim_start s else c ∷ s

-- `s.trim()`
unfoldable pub trim : Text → Text
unfolding trim_start is_space
trim s = reverse (trim_start (reverse (trim_start s)))

-- Does the text begin with the prefix?
unfoldable pub starts_with : Text → Text → Bool
starts_with s [] = true
starts_with [] (p ∷ ps) = false
starts_with (c ∷ s) (p ∷ ps) = nat_eq c p && starts_with s ps

-- `s.includes(part)`
unfoldable pub includes : Text → Text → Bool
unfolding starts_with
includes [] part = starts_with [] part
includes (c ∷ s) part = starts_with (c ∷ s) part || includes s part

-- `xs.includes(s)` of an array of strings
unfoldable pub contains : Text → List Text → Bool
unfolding any
contains s xs = any (λ x. text_eq x s) xs
