-- ===== src/Balloc/Spec.antt =====
-- What the in-use list stands for: a set of blocks, its size, and the order of the nodes.
use pmfs.Base.{
  ℕ, ◌+◌, ◌-◌, ◌*◌, ◌≤◌, ◌<◌, ◌^◌, ◌≡◌, Bool, false, ◌&&◌, ◌||◌, List, [], ◌∷◌, ltb, leb, arith,
  length,
}
use pmfs.Balloc.{BlockNode, SbInfo}

abbrev pub covers : BlockNode → ℕ → Bool
covers i b = leb i.block_low b && leb b i.block_high

-- whether block `b` is in use
abbrev pub used : List BlockNode → ℕ → Bool
used [] b = false
used (i ∷ rest) b = covers i b || used rest b

-- how many blocks are in use
abbrev pub total : List BlockNode → ℕ
total [] = 0
total (i ∷ rest) = i.block_high + 1 - i.block_low + total rest

-- whether block `b` is one of the `n` blocks from `low` on
abbrev pub in_run : ℕ → ℕ → ℕ → Bool
in_run low n b = leb low b && ltb b (low + n)

-- The nodes are in order, none is empty, no two overlap or touch, the first begins at `low` or
-- later and all end below `high`.
abbrev pub IsChain : ℕ → ℕ → List BlockNode → Type 0
IsChain low high [] = low ≤ high + 1
IsChain low high (i ∷ rest) =
    (low ≤ i.block_low) × (i.block_low ≤ i.block_high) × IsChain (i.block_high + 2) high rest

-- The invariant of the block allocator. A device has less than 2 ^ 63 blocks of 4 KiB (its size in bytes
-- is a 64-bit number).
pub record IsValid (sbi : SbInfo) : Type 0 where
  pub chain : IsChain 0 sbi.block_end sbi.block_inuse_head
  pub small : sbi.block_end < 2 ^ 63
  pub counted : sbi.num_blocknode_allocated ≡ length sbi.block_inuse_head

-- No block below `low` is in use.
pub used-below :
    (low high : ℕ) (l : List BlockNode) (b : ℕ) → IsChain low high l → b < low → used l b ≡ false
used-below low high [] b c h = ground arith
used-below low high (i ∷ rest) b c h = ground (arith, used-below (i.block_high + 2) high rest b c.2)

pub IsChain-le : (low high : ℕ) (l : List BlockNode) → IsChain low high l → low ≤ high + 1
IsChain-le low high [] c = c
IsChain-le low high (i ∷ rest) c = omega (arith, IsChain-le (i.block_high + 2) high rest c.2)

pub IsChain-weaken :
    (low low' high : ℕ) (l : List BlockNode) → low' ≤ low → IsChain low high l → IsChain low' high l
IsChain-weaken low low' high [] h c = omega arith
IsChain-weaken low low' high (i ∷ rest) h c = (omega arith, c.1, c.2)

-- No block from `high` on is in use.
pub used-above :
    (low high : ℕ) (l : List BlockNode) (b : ℕ) → IsChain low high l → high ≤ b → used l b ≡ false
used-above low high [] b c h = ground arith
used-above low high (i ∷ rest) b c h =
    ground (
      arith,
      used-above (i.block_high + 2) high rest b c.2,
      IsChain-le (i.block_high + 2) high rest,
    )

-- A block end below 2 ^ 63 bounds the number of nodes, so their counter does not wrap.
pub length-chain :
    (low high : ℕ) (l : List BlockNode) → IsChain low high l → low + 2 * length l ≤ high + 1
length-chain low high [] c = omega arith
length-chain low high (i ∷ rest) c = omega (arith, length-chain (i.block_high + 2) high rest c.2)
