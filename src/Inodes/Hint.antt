-- ===== src/Inodes/Hint.antt =====
-- What the free-inode hint is worth: the scan from it on finds the first free inode of the table.
use pmfs.Base.{
  ℕ, zero, suc, ◌+◌, ◌-◌, ◌≤◌, ◌<◌, ◌≡◌, refl, sym, ◌∙◌, true, false, Option, none, some, List, [],
  ◌∷◌, arith, ltb, ◌==◌, if◌then◌else◌, length, length-append, drop, Bool-cases, inl, inr, dec_lt,
}
use pmfs.Inodes.{Inode, Table, is_free, blank_inodes, increase_table, take_inode, hint_start}
use pmfs.Inodes.Search.{
  free_at, free_at-drop, free_at-set, free_at-append, length-set, length-blank_inodes, ScanBy,
}

-- The hint is a number of the table, or its end, and no inode from 3 on below it is free.
pub record IsTable (s : Table) : Type 0 where
  pub low : 3 ≤ s.s_free_inode_hint
  pub bound : s.s_free_inode_hint ≤ length s.inodes
  pub below : (j : ℕ) → 3 ≤ j → j < s.s_free_inode_hint → free_at s.inodes j ≡ false

pub taken-free_at :
    (mode : ℕ) (s : Table) (i j : ℕ)
    → i < length s.inodes
    → free_at (take_inode mode s i).inodes j ≡ (if j == i then false else free_at s.inodes j)
unfolding take_inode is_free
taken-free_at mode s i j lt = free_at-set s.inodes i j _ lt

pub taken_length :
    (mode : ℕ) (s : Table) (i : ℕ) → length (take_inode mode s i).inodes ≡ length s.inodes
unfolding take_inode
taken_length mode s i = length-set s.inodes i _

pub take_inode-IsTable :
    (mode : ℕ) (s : Table) (i : ℕ)
    → 3 ≤ i
    → i < length s.inodes
    → ((j : ℕ) → 3 ≤ j → j < i → free_at s.inodes j ≡ false)
    → IsTable (take_inode mode s i)
unfolding take_inode
take_inode-IsTable mode s i ge lt full =
    let hint = if ltb i (length s.inodes - 1) then i + 1 else hint_start in
    let (a, b, c) : (3 ≤ hint) × (hint ≤ length s.inodes) × (hint ≤ i + 1) = ground arith in
    record {
      low = a;
      bound = omega (
        arith,
        b,
        length-set s.inodes i (record { i_links_count = 1; i_mode = mode; i_dtime = 0 }),
      );
      below = λ j p q. not_free j p (omega (arith, q, c));
    }
  where
    not_free : (j : ℕ) → 3 ≤ j → j < i + 1 → free_at (take_inode mode s i).inodes j ≡ false
    not_free j p q = elim (Bool-cases (j == i)) [
      | inl e ↦ taken-free_at mode s i j lt ∙ rw e refl
      | inr e ↦ taken-free_at mode s i j lt ∙ rw e (full j p (ground arith))
    ]

-- the scan from the hint on, in numbers of the whole table
unfoldable pub ScanAll : Table → Option ℕ → Type 0
ScanAll s (some k) =
    (3 ≤ k)
    × (k < length s.inodes)
    × (free_at s.inodes k ≡ true)
    × ((j : ℕ) → 3 ≤ j → j < k → free_at s.inodes j ≡ false)
ScanAll s none = (j : ℕ) → 3 ≤ j → free_at s.inodes j ≡ false

length-drop : (n : ℕ) (l : List Inode) → n ≤ length l → n + length (drop n l) ≡ length l
length-drop zero l le = omega arith
length-drop (suc n) [] le = absurd (omega (arith, le))
length-drop (suc n) (p ∷ l) le = omega (arith, length-drop n l (omega (arith, le)))

from_hint :
    (s : Table) (j : ℕ)
    → IsTable s
    → s.s_free_inode_hint ≤ j
    → free_at (drop s.s_free_inode_hint s.inodes) (j - s.s_free_inode_hint) ≡ free_at s.inodes j
from_hint s j w le =
    let z : s.s_free_inode_hint + (j - s.s_free_inode_hint) ≡ j = omega arith in
    free_at-drop s.s_free_inode_hint (j - s.s_free_inode_hint) s.inodes w.bound ∙ rw z refl

pub ScanBy-ScanAll :
    (s : Table) (o : Option ℕ)
    → IsTable s
    → ScanBy s.s_free_inode_hint (drop s.s_free_inode_hint s.inodes) o
    → ScanAll s o
unfolding ScanAll
ScanBy-ScanAll s none w f = λ j p. all j p
  where
    all : (j : ℕ) → 3 ≤ j → free_at s.inodes j ≡ false
    all j p = elim (dec_lt j s.s_free_inode_hint) [
      | yes lt ↦ w.below j p lt
      | no ge ↦ sym (from_hint s j w (omega arith)) ∙ f (j - s.s_free_inode_hint)
    ]
ScanBy-ScanAll s (some k) w (a, b, c, d) = (
  omega (arith, a, w.low),
  omega (arith, b, length-drop s.s_free_inode_hint s.inodes w.bound),
  sym (from_hint s k w a) ∙ c,
  λ j p q. before j p q,
)
  where
    before : (j : ℕ) → 3 ≤ j → j < k → free_at s.inodes j ≡ false
    before j p q = elim (dec_lt j s.s_free_inode_hint) [
      | yes lt ↦ w.below j p lt
      | no ge ↦ sym (from_hint s j w (omega arith)) ∙ d (j - s.s_free_inode_hint) (omega arith)
    ]

pub grown_length :
    (per_block : ℕ) (s : Table)
    → length (increase_table per_block s).inodes ≡ length s.inodes + per_block
unfolding increase_table
grown_length per_block s =
    length-append s.inodes (blank_inodes per_block) ∙ rw (length-blank_inodes per_block) refl

pub grown-free_at :
    (per_block : ℕ) (s : Table) (j : ℕ)
    → j < length s.inodes
    → free_at (increase_table per_block s).inodes j ≡ free_at s.inodes j
unfolding increase_table
grown-free_at per_block s j lt = free_at-append s.inodes (blank_inodes per_block) j lt
