-- ===== src/Tree/Height.antt =====
-- The height that __pmfs_alloc_blocks gives the tree has a place for the last block.
use pmfs.Base.{
  ℕ, zero, suc, ◌+◌, ◌*◌, ◌/◌, ◌^◌, ◌≤◌, ◌<◌, ◌≡◌, inl, inr, ◌==◌, ltb, arith, Bool-cases,
}
use native.Mathlib.Nat.{div-lt_iff_lt-mul, div-le_self}
use pmfs.Tree.{span}
use pmfs.Tree.Grow.{span-pos}
use pmfs.Tree.Whole.{levels, needed_height}

-- The loop that counts the levels: they make place for what is counted.
pub levels_enough : (fuel total : ℕ) → total < span fuel → total < span (levels fuel total)
unfolding levels span
levels_enough zero total lt = lt
levels_enough (suc fuel) total lt = elim (Bool-cases (total == 0)) [
  | inl e ↦ rw e (ground arith)
  | inr e ↦ rw e (omega (arith, levels_enough fuel (total / 512) (omega arith)))
]

span_add : (a b : ℕ) → span (a + b) ≡ span b * span a
unfolding span
span_add zero b = let z : 0 + b ≡ b = omega arith in rw z (omega arith)
span_add (suc a) b =
    let z : suc a + b ≡ suc (a + b) = omega arith in let e = span_add a b in rw (z, e) (grind arith)

word_small : (x n : ℕ) → x < 2 ^ 64 → x / n < span 8
unfolding span
word_small x n lt = omega (arith, div-le_self x n)

pub needed_height_enough :
    (height last : ℕ) → last < 2 ^ 64 → last < span (needed_height height last)
unfolding needed_height
needed_height_enough height last word = elim (Bool-cases (ltb last (span height))) [
  | inl e ↦ rw e (ground arith)
  | inr e ↦
      let more = levels_enough 8 (last / span height) (word_small last (span height) word) in
      let fits : last < span (levels 8 (last / span height)) * span height =
        (div-lt_iff_lt-mul (span-pos height)).0 more in
      rw (e, span_add height (levels 8 (last / span height))) fits
]

pub needed_height_le : (height last : ℕ) → height ≤ needed_height height last
unfolding needed_height
needed_height_le height last = elim (Bool-cases (ltb last (span height))) [
  | inl e ↦ rw e (omega arith)
  | inr e ↦ rw e (omega arith)
]
