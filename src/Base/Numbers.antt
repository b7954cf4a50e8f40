-- ===== src/Base/Numbers.antt =====
-- `str::parse` for unsigned numbers, and masks of the low bits.
pub mod Decimal
use z8s.Base.{◌/◌, ltb}
use z8s.Base.Tests.{ltb, leb, ◌==◌, if◌then◌else◌}
use z8s.Base.Text.{Text}
use z8s.Base.Int.{ℤ, pos, negsuc}
use Prim.Native.Nat.{ℕ, zero, suc, ◌+◌, ◌-◌, ◌*◌, ◌/◌, ◌%◌, ◌≤◌}
use mathlib.Core.Path.{◌≡◌}
use mathlib.Core.Bool.{Bool, ◌&&◌}
use mathlib.Core.Option.{Option, none, some}
use mathlib.Core.List.{[], ◌∷◌, ◌++◌}
use native.Mathlib.Omega.{arith}

abbrev pub is_digit : ℕ → Bool
is_digit c = leb b'0' c && leb c b'9'

-- The digits of a number up to `max`, where an overflow is an error.
unfoldable pub digits : ℕ → ℕ → Text → Option ℕ
digits max acc [] = some acc
digits max acc (c ∷ s) =
    let n = acc * 10 + (c - b'0') in
    let rest = digits max n s in if is_digit c && leb n max then rest else none

-- `s.parse::<uN>()`: an optional plus, then one digit or more.
unfoldable pub parse_uint : ℕ → Text → Option ℕ
unfolding digits
parse_uint max [] = none
parse_uint max (c ∷ []) = if c == b'+' then none else digits max 0 (c ∷ [])
parse_uint max (c ∷ d ∷ s) = if c == b'+' then digits max 0 (d ∷ s) else digits max 0 (c ∷ d ∷ s)

pub digits-le : (max acc : ℕ) (s : Text) (n : ℕ) → acc ≤ max → digits max acc s ≡ some n → n ≤ max
unfolding digits
digits-le max acc [] n h e = ground arith
digits-le max acc (c ∷ s) n h e = ground (arith, digits-le max (acc * 10 + (c - b'0')) s n)

-- A parsed number is in range.
pub parse_uint-le : (max : ℕ) (s : Text) (n : ℕ) → parse_uint max s ≡ some n → n ≤ max
unfolding parse_uint
parse_uint-le max [] n e = absurd (ground arith)
parse_uint-le max (c ∷ []) n e = ground (arith, digits-le max 0 (c ∷ []) n)
parse_uint-le max (c ∷ d ∷ s) n e =
    ground (arith, digits-le max 0 (d ∷ s) n, digits-le max 0 (c ∷ d ∷ s) n)

-- The decimal digits of a number of at most `fuel` digits.
unfoldable pub decimal_digits : ℕ → ℕ → Text
decimal_digits zero n = []
decimal_digits (suc fuel) n =
    let rest = decimal_digits fuel (n / 10) in
    if ltb n 10 then (b'0' + n) ∷ [] else rest ++ ((b'0' + n % 10) ∷ [])

-- `to_string` of a number below 2 ^ 64, which has at most 20 digits.
unfoldable pub decimal : ℕ → Text
unfolding decimal_digits
decimal n = decimal_digits 20 n

-- `to_string` of an i32.
unfoldable pub decimal_int : ℤ → Text
unfolding decimal
decimal_int (pos n) = decimal n
decimal_int (negsuc n) = b'-' ∷ decimal (suc n)
