-- ===== src/Tree/Range.antt =====
-- A range of places, split by the entries of a node.
use pmfs.Base.{
  ℕ, suc, ◌+◌, ◌-◌, ◌*◌, ◌/◌, ◌%◌, ◌≤◌, ◌<◌, ◌≡◌, refl, Bool, ◌||◌, ◌&&◌, ◌==◌, leb, ltb, arith,
  ℕ_discrete, dec_lt, if◌then◌else◌,
}
use native.Mathlib.Nat.{mod-lt, div-add-mod, div-lt_iff_lt-mul, le-div_iff_mul-le}
use pmfs.Tree.{span}
use pmfs.Tree.Grow.{span-pos}

abbrev pub in_range : (first last : ℕ) → ℕ → Bool
in_range first last b = leb first b && leb b last

-- Numbers are compared by their quotients first.
lt_by_quotient : (x y n : ℕ) → 0 < n → x / n < y / n → x < y
lt_by_quotient x y n pos lt =
    let above : x < y / n * n = (div-lt_iff_lt-mul pos).0 lt in
    let below : y / n * n ≤ y = (le-div_iff_mul-le pos).0 (omega arith) in
    omega (arith, above, below)

leb_by_quotient :
    (x y n : ℕ) → 0 < n → leb x y ≡ (ltb (x / n) (y / n) || (x / n == y / n && leb (x % n) (y % n)))
leb_by_quotient x y n pos = elim (ℕ_discrete (x / n) (y / n)) [
  | yes e ↦
      let same : n * (x / n) ≡ n * (y / n) = rw e refl in
      ground (arith, same, div-add-mod x n, div-add-mod y n)
  | no ne ↦ elim (dec_lt (x / n) (y / n)) [
    | yes lt ↦ ground (arith, lt_by_quotient x y n pos lt)
    | no ge ↦ ground (arith, lt_by_quotient y x n pos (omega arith))
  ]
]

-- The part of a range under entry `k`.
abbrev pub part : (n first last k : ℕ) → ℕ → Bool
part n first last k =
    in_range (if k == first / n then first % n else 0) (if k == last / n then last % n else n - 1)

pub in_range_parts :
    (n first last b : ℕ)
    → 0 < n
    → in_range first last b ≡ (
        leb (first / n) (b / n)
        && ltb (b / n) (first / n + (last / n + 1 - first / n))
        && part n first last (b / n) (b % n))
in_range_parts n first last b pos =
    rw (leb_by_quotient first b n pos, leb_by_quotient b last n pos) (ground (arith, mod-lt b pos))

pub div_le : (n a b : ℕ) → 0 < n → a ≤ b → a / n ≤ b / n
div_le n a b pos le = (le-div_iff_mul-le pos).1 (omega (arith, div-add-mod a n, le))

-- The entry above a place that the node maps.
pub index_lt : (h x : ℕ) → x < span (suc h) → x / span h < 512
unfolding span
index_lt h x lt = (div-lt_iff_lt-mul (span-pos h)).1 lt
