-- ===== src/Prelude/Numbers.antt =====
-- Decimal numerals and rounding up.
use Prim.Native.Nat.{ℕ, zero, suc, ◌+◌, ◌/◌, ◌%◌}
use mathlib.Core.List.{[], ◌∷◌}
use gx_notion2api.Prelude.Tests.{if◌then◌else◌, nat_eq}
use gx_notion2api.Prelude.Strings.{Text}

-- The digits of the number, before the digits that are there; a number has fewer digits than `fuel`.
unfoldable pub decimal_from : ℕ → ℕ → Text → Text
decimal_from zero n digits = digits
decimal_from (suc fuel) n digits =
    let more = (48 + n % 10) ∷ digits in
    let rest = decimal_from fuel (n / 10) more in if nat_eq (n / 10) 0 then more else rest

-- `String(n)` of a natural number
unfoldable pub decimal : ℕ → Text
unfolding decimal_from
decimal n = decimal_from (suc n) n []
