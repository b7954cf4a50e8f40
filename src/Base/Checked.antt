-- ===== src/Base/Checked.antt =====
-- Fixed-width arithmetic that panics on overflow, as the program is built for development.
use z8s.Base.{◌<◌, ◌≤◌, ◌≡◌, arith}
use z8s.Base.Tests.{ltb, leb, if◌then◌else◌}
use Prim.Native.Nat.{ℕ, ◌+◌, ◌-◌, ◌*◌, ◌^◌}

-- A run that returns, or that panics on an overflow.
pub data Checked {ℓ} (A : Type ℓ) : Type ℓ where
  ok : A → Checked A
  overflow : Checked A

infixl 5 ◌>>=◌
abbrev pub ◌>>=◌ {ℓ κ} : {A : Type ℓ} {B : Type κ} → Checked A → (A → Checked B) → Checked B
ok a >>= k = k a
overflow >>= k = overflow

abbrev pub u32_size : ℕ
u32_size = 2 ^ 32

-- `a + b` and `a - b` on u32.
unfoldable pub add32 : ℕ → ℕ → Checked ℕ
add32 a b = if ltb (a + b) u32_size then ok (a + b) else overflow

unfoldable pub sub32 : ℕ → ℕ → Checked ℕ
sub32 a b = if leb b a then ok (a - b) else overflow

-- `1u32 << s`.
unfoldable pub shl1 : ℕ → Checked ℕ
shl1 s = if ltb s 32 then ok (2 ^ s) else overflow

-- `a * b` on u64.
unfoldable pub mul64 : ℕ → ℕ → Checked ℕ
mul64 a b = if ltb (a * b) (2 ^ 64) then ok (a * b) else overflow

pub add32_ok : (a b : ℕ) → a + b < u32_size → add32 a b ≡ ok (a + b)
unfolding add32
add32_ok a b h = ground arith

pub sub32_ok : (a b : ℕ) → b ≤ a → sub32 a b ≡ ok (a - b)
unfolding sub32
sub32_ok a b h = ground arith

pub shl1_ok : (s : ℕ) → s < 32 → shl1 s ≡ ok (2 ^ s)
unfolding shl1
shl1_ok s h = ground arith

pub ruleset in_bounds = (add32_ok, sub32_ok, shl1_ok)
