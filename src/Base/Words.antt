-- ===== src/Base/Words.antt =====
-- Unsigned machine arithmetic, its wrap-around written out.
use Prim.Native.Nat.{ℕ, ◌+◌, ◌-◌, ◌*◌, ◌/◌, ◌%◌, ◌^◌, ◌≤◌, ◌<◌}
use mathlib.Core.Path.{◌≡◌, ap}
use native.Mathlib.Decide.{dec_le}
use native.Mathlib.Omega.{arith}
use native.Mathlib.Nat.{div-add-mod}

-- `unsigned long` and `u64`
unfoldable pub add64 : ℕ → ℕ → ℕ
add64 a b = (a + b) % 2 ^ 64

unfoldable pub sub64 : ℕ → ℕ → ℕ
sub64 a b = (a + 2 ^ 64 - b) % 2 ^ 64

-- `x & ~(n - 1)` for a power of two `n`
unfoldable pub align_down : ℕ → ℕ → ℕ
align_down x n = x / n * n

pub add64-eq-add : (a b : ℕ) → a + b < 2 ^ 64 → add64 a b ≡ a + b
unfolding add64
add64-eq-add a b h = omega arith

pub sub64-eq-sub : (a b : ℕ) → b ≤ a → a < 2 ^ 64 → sub64 a b ≡ a - b
unfolding sub64
sub64-eq-sub a b h k = omega arith

pub align_down_bounds : (x n : ℕ) → 0 < n → (align_down x n ≤ x) × (x < align_down x n + n)
unfolding align_down
align_down_bounds x n h = omega (arith, div-add-mod x n)

-- Of two multiples of `n`, one less than a whole `n` above the other is not above it.
mul-le : (q r n : ℕ) → q * n < r * n + n → q * n ≤ r * n
mul-le q r n h = elim (dec_le q r) [
  | yes p ↦ grind arith
  | no p ↦ absurd (grind (arith, mul_gap q r n (omega arith)))
]
  where
    mul_gap : (q r n : ℕ) → r + 1 ≤ q → (r + 1) * n ≤ q * n
    mul_gap q r n p = grind arith

pub align_down-le : (a x n : ℕ) → align_down a n ≡ a → align_down x n < a + n → align_down x n ≤ a
unfolding align_down
align_down-le a x n e h = omega (arith, mul-le (x / n) (a / n) n (omega arith))

-- The multiples of `n` are aligned.
pub align_down-align_down : (x n : ℕ) → 0 < n → align_down (align_down x n) n ≡ align_down x n
unfolding align_down
align_down-align_down x n h = ap (λ (t : ℕ). t * n) (mul-div x n h)
  where
    mul-div : (x n : ℕ) → 0 < n → x / n * n / n ≡ x / n
    mul-div x n h = grind arith
