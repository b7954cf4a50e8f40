-- ===== src/Base/Powers.antt =====
-- Powers of two.
use z8s.Base.{ℕ, zero, suc, ◌+◌, ◌*◌, ◌/◌, ◌^◌, ◌≤◌, ◌<◌, ◌≡◌, ap, arith}
use native.Mathlib.Nat.{pow-suc, div-add-mod}

pub two_pow_suc : (k : ℕ) → 2 ^ suc k ≡ 2 * 2 ^ k
two_pow_suc k = omega (arith, pow-suc 2 k)

pub two_pow_pos : (k : ℕ) → 1 ≤ 2 ^ k
two_pow_pos zero = omega arith
two_pow_pos (suc k) = omega (arith, two_pow_pos k, two_pow_suc k)

pub two_pow-ge_four : (k : ℕ) → 2 ≤ k → 4 ≤ 2 ^ k
two_pow-ge_four zero h = absurd (omega arith)
two_pow-ge_four (suc zero) h = absurd (omega arith)
two_pow-ge_four (suc (suc k)) h = omega (arith, two_pow_pos k, two_pow_suc k, two_pow_suc (suc k))

pub two_pow_add : (k n m : ℕ) → k + n ≡ m → 2 ^ m ≡ 2 ^ k * 2 ^ n
two_pow_add zero n m e = let e' : m ≡ n = omega arith in rw e' (omega arith)
two_pow_add (suc k) n zero e = absurd (omega arith)
two_pow_add (suc k) n (suc m) e = omega (
  arith,
  two_pow_suc m,
  ap (λ (t : ℕ). t * 2 ^ n) (two_pow_suc k),
  two_pow_add k n m (omega arith),
)

-- The multiple of `2 ^ k` at or below a number under `2 ^ m` has room for a whole block.
pub block_fits : (k n m x : ℕ) → k + n ≡ m → x < 2 ^ m → x / 2 ^ k * 2 ^ k + 2 ^ k ≤ 2 ^ m
block_fits k n m x e h = grind (arith, two_pow_add k n m e, two_pow_pos k, div-add-mod x (2 ^ k))
