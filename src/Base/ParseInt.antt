-- ===== src/Base/ParseInt.antt =====
-- `Number.parseInt(s, 10)`, as far as a number between two bounds is made of it.
use orders_microservice.Base.{◌&&◌}
use Prim.Native.Nat.{ℕ, ◌+◌, ◌*◌, ◌-◌, ◌^◌}
use mathlib.Core.Bool.{Bool, false, ◌&&◌}
use mathlib.Core.Option.{Option, none, some}
use mathlib.Core.List.{[], ◌∷◌}
use orders_microservice.Base.Tests.{ltb, ◌==◌, if◌then◌else◌}
use orders_microservice.Base.Text.{Text, is_digit}

-- the digits at the front of a text, as a number, with the value so far
unfoldable pub digits_value : ℕ → Text → ℕ
digits_value value [] = value
digits_value value (c ∷ s) =
    let rest = digits_value (value * 10 + (c - b'0')) s in if is_digit c then rest else value

abbrev pub starts_with_digit : Text → Bool
starts_with_digit [] = false
starts_with_digit (c ∷ _) = is_digit c

-- the least number that rounds to Infinity, halfway between the largest double and 2 ^ 1024
unfoldable pub infinity_from : ℕ
infinity_from = 2 ^ 1024 - 2 ^ 970

-- `Number.parseInt(s, 10)` without its sign, with the test `Number.isFinite`: nothing is NaN or
-- Infinity
unfoldable pub parse_digits : Text → Option ℕ
unfolding digits_value infinity_from
parse_digits s =
    let value = digits_value 0 s in
    if starts_with_digit s && ltb value infinity_from then some value else none

-- the same with a sign, where a negative number counts as zero
unfoldable pub parse_signed : Text → Option ℕ
unfolding parse_digits
parse_signed [] = none
parse_signed (c ∷ s) =
    if c == b'-'
    then (elim (parse_digits s) [ none ↦ none | some _ ↦ some 0 ])
    else if c == b'+'
    then parse_digits s
    else parse_digits (c ∷ s)

-- `Math.min(Math.max(n, 1), max)`
abbrev pub clamp : ℕ → ℕ → ℕ
clamp max n = if ltb n 1 then 1 else if ltb max n then max else n
