-- ===== src/Bbuild/Runs.antt =====
-- The runs of set bits of a bitmap, as runs of blocks.
use pmfs.Base.{
  ℕ, zero, suc, ◌+◌, ◌-◌, ◌*◌, ◌/◌, ◌≤◌, ◌<◌, ◌^◌, ◌≡◌, ◌↔◌, Bool, true, false, ◌&&◌, ◌||◌, ltb,
  leb, arith,
}
use native.Mathlib.Nat.{le-div_iff_mul-le, div-lt_iff_lt-mul}
use pmfs.Balloc.Spec.{in_run}
use pmfs.Bbuild.{Bitmap, shift_left}

-- whether bit `b` is set, from bit `from` on and below `size`
abbrev pub bit : Bitmap → ℕ → ℕ → ℕ → Bool
bit bitmap size from b = leb from b && ltb b size && bitmap b

-- whether block `c` is one of those that the bits from `from` on stand for
abbrev pub marked : Bitmap → (size scale from : ℕ) → ℕ → Bool
marked bitmap size scale from c = bit bitmap size from (c / 2 ^ scale)

pub power_pos : (scale : ℕ) → 0 < 2 ^ scale
power_pos zero = omega arith
power_pos (suc scale) = grind (arith, power_pos scale)

pub shift_left-eq :
    (x size scale : ℕ) → x ≤ size → size * 2 ^ scale < 2 ^ 64 → shift_left x scale ≡ x * 2 ^ scale
unfolding shift_left
shift_left-eq x size scale le h = grind arith

pub run_end : (low next p : ℕ) → low ≤ next → low * p + (next - low) * p ≡ next * p
run_end low next p le = sum_mul (next - low) (omega arith)
  where
    sum_mul : (d : ℕ) → next ≡ low + d → low * p + d * p ≡ next * p
    sum_mul d e = rw e (grind arith)

-- A run of bits below the end of the bitmap is a run of blocks that is not empty and ends in 64 bits.
pub run_bounds :
    (low next size p : ℕ)
    → low < next
    → next ≤ size
    → 0 < p
    → size * p < 2 ^ 64
    → (0 < (next - low) * p) × (next * p < 2 ^ 64)
run_bounds low next size p lt le pos small = (more (next - low) (omega arith), grind arith)
  where
    more : (d : ℕ) → 0 < d → 0 < d * p
    more d h = grind arith

-- The blocks of the bits `low .. next - 1` are a run.
pub in_run-bits :
    (low next scale c : ℕ)
    → low ≤ next
    → in_run (low * 2 ^ scale) ((next - low) * 2 ^ scale) c
      ≡ (leb low (c / 2 ^ scale) && ltb (c / 2 ^ scale) next)
in_run-bits low next scale c le =
    let p = power_pos scale in
    let above : (low ≤ c / 2 ^ scale) ↔ (low * 2 ^ scale ≤ c) = le-div_iff_mul-le p in
    let below : (c / 2 ^ scale < next) ↔ (c < next * 2 ^ scale) = div-lt_iff_lt-mul p in
    ground (arith, above, below, run_end low next (2 ^ scale) le)

-- The bits from `from` on are those of a run and those behind it.
pub bit-split :
    (bitmap : Bitmap) (size from low next b : ℕ)
    → from ≤ low
    → low ≤ next
    → next ≤ size
    → (from ≤ b → b < low → bitmap b ≡ false)
    → (low ≤ b → b < next → bitmap b ≡ true)
    → bit bitmap size from b ≡ ((leb low b && ltb b next) || bit bitmap size next b)
bit-split bitmap size from low next b h k l clear set = ground arith
