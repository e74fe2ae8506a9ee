-- ===== src/Inodes/Search.antt =====
-- The inodes of a table that are free, and what the scan for one finds.
use pmfs.Base.{
  ℕ, zero, suc, ◌+◌, ◌-◌, ◌≤◌, ◌<◌, ◌≡◌, refl, ◌∙◌, Bool, true, false, Option, none, some, List, [],
  ◌∷◌, ◌++◌, arith, ◌==◌, if◌then◌else◌, length, drop, set, Bool-cases, inl, inr,
}
use pmfs.Inodes.{Inode, is_free, scan_free, blank_inodes}

-- whether there is a free inode of this number
unfoldable pub free_at : List Inode → ℕ → Bool
free_at [] j = false
free_at (pi ∷ rest) zero = is_free pi
free_at (pi ∷ rest) (suc j) = free_at rest j

pub free_at-drop :
    (n j : ℕ) (l : List Inode) → n ≤ length l → free_at (drop n l) j ≡ free_at l (n + j)
unfolding free_at
free_at-drop zero j l le = let z : 0 + j ≡ j = omega arith in rw z refl
free_at-drop (suc n) j [] le = absurd (omega (arith, le))
free_at-drop (suc n) j (pi ∷ rest) le =
    let z : suc n + j ≡ suc (n + j) = omega arith in
    rw z (free_at-drop n j rest (omega (arith, le)))

pub free_at-set :
    (l : List Inode) (n j : ℕ) (pi : Inode)
    → n < length l
    → free_at (set l n pi) j ≡ (if j == n then is_free pi else free_at l j)
unfolding free_at
free_at-set [] n j pi lt = absurd (omega (arith, lt))
free_at-set (p ∷ l) zero zero pi lt = refl
free_at-set (p ∷ l) zero (suc j) pi lt = let e : (suc j == 0) ≡ false = ground arith in rw e refl
free_at-set (p ∷ l) (suc n) zero pi lt = let e : (0 == suc n) ≡ false = ground arith in rw e refl
free_at-set (p ∷ l) (suc n) (suc j) pi lt = free_at-set l n j pi (omega (arith, lt)) ∙ ground arith

pub free_at-append : (l m : List Inode) (j : ℕ) → j < length l → free_at (l ++ m) j ≡ free_at l j
unfolding free_at
free_at-append [] m j lt = absurd (omega (arith, lt))
free_at-append (p ∷ l) m zero lt = refl
free_at-append (p ∷ l) m (suc j) lt = free_at-append l m j (omega (arith, lt))

pub length-set : (l : List Inode) (n : ℕ) (pi : Inode) → length (set l n pi) ≡ length l
length-set [] n pi = refl
length-set (p ∷ l) zero pi = refl
length-set (p ∷ l) (suc n) pi = omega (arith, length-set l n pi)

pub length-blank_inodes : (n : ℕ) → length (blank_inodes n) ≡ n
unfolding blank_inodes
length-blank_inodes zero = refl
length-blank_inodes (suc n) = omega (arith, length-blank_inodes n)

-- The scan finds the first free inode.
abbrev pub ScanBy : ℕ → List Inode → Option ℕ → Type 0
ScanBy i l (some k) =
    (i ≤ k)
    × (k < i + length l)
    × (free_at l (k - i) ≡ true)
    × ((j : ℕ) → j < k - i → free_at l j ≡ false)
ScanBy i l none = (j : ℕ) → free_at l j ≡ false

skip-ScanBy :
    (i : ℕ) (pi : Inode) (l : List Inode)
    → is_free pi ≡ false
    → (o : Option ℕ) → ScanBy (suc i) l o
    → ScanBy i (pi ∷ l) o
unfolding free_at
skip-ScanBy i pi l e none f = λ j. none_free j
  where
    none_free : (j : ℕ) → free_at (pi ∷ l) j ≡ false
    none_free zero = e
    none_free (suc j) = f j
skip-ScanBy i pi l e (some k) (a, b, c, d) =
    let z : k - i ≡ suc (k - suc i) = omega (arith, a) in
    (omega (arith, a), omega (arith, b), rw z c, λ j lt. before j (omega (arith, lt, a)))
  where
    before : (j : ℕ) → j < suc (k - suc i) → free_at (pi ∷ l) j ≡ false
    before zero lt = e
    before (suc j) lt = d j (omega (arith, lt))

pub scan_free-ScanBy : (i : ℕ) (l : List Inode) → ScanBy i l (scan_free i l)
unfolding scan_free free_at
scan_free-ScanBy i [] = λ j. refl
scan_free-ScanBy i (pi ∷ l) = elim (Bool-cases (is_free pi)) [
  | inl e ↦
      let z : i - i ≡ 0 = omega arith in
      rw (e, z) (omega arith, omega arith, e, λ j lt. absurd (omega (arith, lt)))
  | inr e ↦ rw e (skip-ScanBy i pi l e _ (scan_free-ScanBy (suc i) l))
]
