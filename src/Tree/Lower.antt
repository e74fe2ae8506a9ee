-- ===== src/Tree/Lower.antt =====
-- pmfs_decrease_btree_height for a new size of the file: the tree gets the least height that will do.
use pmfs.Base.{
  ℕ, subst, zero, suc, ◌+◌, ◌-◌, ◌*◌, ◌/◌, ◌^◌, ◌≤◌, ◌<◌, ◌≡◌, ◌≢◌, refl, ◌⊎◌, inl, inr, Bool, true,
  false, ◌||◌, ◌==◌, arith, Bool-cases,
}
use pmfs.Balloc.{BlockType, type_4k, type_2m, type_1g, get_numblocks}
use pmfs.Tree.{Tree, span, find_data_block, decrease_btree_height}
use pmfs.Tree.Grow.{find_in}
use pmfs.Tree.Shrink.{decrease_btree_height-find}
use pmfs.Tree.Height.{levels_enough}
use pmfs.Tree.Whole.{levels, decreased, last_block, lower_to, decrease_height}

-- the bytes of a block
abbrev size_of : BlockType → ℕ
size_of btype = get_numblocks btype * 4096

span_next : (n total : ℕ) → span n ≤ total / 512 → span (suc n) ≤ total
unfolding span
span_next n total le = omega (arith, le)

least_above :
    (n total : ℕ) → total ≢ 0 → (n ≡ 0) ⊎ (span (n - 1) ≤ total / 512) → span (suc n - 1) ≤ total
unfolding span
least_above zero total ne h = omega arith
least_above (suc n) total ne (inl z) = absurd (omega (arith, z))
least_above (suc n) total ne (inr le) =
    let e : suc (suc n) - 1 ≡ suc n = omega arith in
    let e' : suc n - 1 ≡ n = omega arith in rw e (span_next n total (rw⁻¹ e' le))

-- No smaller tree has a place for what is counted.
levels_least : (fuel total : ℕ) → (levels fuel total ≡ 0) ⊎ (span (levels fuel total - 1) ≤ total)
unfolding levels
levels_least zero total = inl refl
levels_least (suc fuel) total = elim (Bool-cases (total == 0)) [
  | inl e ↦ rw e (inl refl)
  | inr e ↦ rw e (
      inr (
        least_above (levels fuel (total / 512)) total (λ z. ground (arith, z))
          (levels_least fuel (total / 512))))
]

levels_le : (fuel total h : ℕ) → total < span h → levels fuel total ≤ h
unfolding levels span
levels_le zero total h lt = omega arith
levels_le (suc fuel) total zero lt =
    let e : (total == 0) ≡ true = ground arith in rw e (omega arith)
levels_le (suc fuel) total (suc h) lt = elim (Bool-cases (total == 0)) [
  | inl e ↦ rw e (omega arith)
  | inr e ↦ rw e (omega (arith, levels_le fuel (total / 512) h (omega arith)))
]

last_block_place :
    (btype : BlockType) (newsize blocknr : ℕ)
    → newsize + size_of btype < 2 ^ 64
    → blocknr * size_of btype < newsize
    → blocknr ≤ last_block btype newsize
unfolding last_block get_numblocks
last_block_place type_4k newsize blocknr word lt = omega arith
last_block_place type_2m newsize blocknr word lt = omega arith
last_block_place type_1g newsize blocknr word lt = omega arith

last_block_word : (btype : BlockType) (newsize : ℕ) → last_block btype newsize < span 8
unfolding last_block span
last_block_word btype newsize = omega arith

last_block_fits :
    (btype : BlockType) (newsize places : ℕ)
    → newsize + size_of btype < 2 ^ 64
    → 0 < newsize
    → newsize ≤ places * size_of btype
    → last_block btype newsize < places
unfolding last_block get_numblocks
last_block_fits type_4k newsize places word pos le = omega arith
last_block_fits type_2m newsize places word pos le = omega arith
last_block_fits type_1g newsize places word pos le = omega arith

last_block-levels :
    (btype : BlockType) (newsize : ℕ)
    → last_block btype newsize < span (levels 8 (last_block btype newsize))
last_block-levels btype newsize = levels_enough 8 _ (last_block_word btype newsize)

lower_to-find :
    (mem : Bool) (h : ℕ) (t : Tree) (kept blocknr : ℕ)
    → h ≤ t.height
    → kept < span h
    → find_in t kept ≢ 0
    → blocknr < span h
    → ((lower_to mem h t.root t).height ≡ h)
      × (find_in (lower_to mem h t.root t) blocknr ≡ find_in t blocknr)
unfolding lower_to
lower_to-find mem h t kept blocknr le lk nz lt = elim (Bool-cases (t.height == h)) [
  | inl q ↦ simp q (ground arith, refl)
  | inr q ↦
      let (a, b) =
        decrease_btree_height-find mem (t.height - h) h t kept blocknr (omega (arith, le)) lk nz
          lt in
      let lowered : Tree = decrease_btree_height mem (t.height - h) t in
      simp q (
        refl,
        subst (λ (k : ℕ). find_data_block lowered.nodes k lowered.root blocknr ≡ find_in t blocknr)
            a b,
      )
]

-- What a tree is lowered to for a file of `newsize` bytes, and the place `blocknr` in it: the height is
-- the least one that has a place for the last block, and there is the block that was there.
pub record LoweredTo (btype : BlockType) (newsize : ℕ) (t t' : Tree) (blocknr : ℕ) : Type 0 where
  pub least : (t'.height ≡ 0) ⊎ (span (t'.height - 1) ≤ last_block btype newsize)
  pub fits : last_block btype newsize < span t'.height
  pub same : find_in t' blocknr ≡ find_in t blocknr

-- For a file that counts blocks, a new size of at least one byte that the tree has places for, both below
-- 2 ^ 64 with a block more, and the inode's own root, when a block is kept at one of the places that are
-- left: `decrease_height` gives the tree the least height that has a place for the file's last byte, and
-- every place in the file has the block that it had.
pub decrease_height-LoweredTo :
    (mem : Bool) (btype : BlockType) (i_blocks newsize : ℕ) (t : Tree) (kept blocknr : ℕ)
    → i_blocks ≢ 0
    → 0 < newsize
    → newsize + size_of btype < 2 ^ 64
    → newsize ≤ span t.height * size_of btype
    → kept * size_of btype < newsize
    → find_in t kept ≢ 0
    → blocknr * size_of btype < newsize
    → (t' : Tree) × (decrease_height mem btype i_blocks newsize t.root t ≡ decreased t')
      × LoweredTo btype newsize t t' blocknr
unfolding decrease_height
decrease_height-LoweredTo mem btype i_blocks newsize t kept blocknr some pos word room lk nz lt =
    let e : (i_blocks == 0 || newsize == 0) ≡ false = ground arith in
    let last_lt = last_block_fits btype newsize (span t.height) word pos room in
    let le = levels_le 8 (last_block btype newsize) t.height last_lt in
    let fits = last_block-levels btype newsize in
    let k = last_block_place btype newsize kept word lk in
    let b = last_block_place btype newsize blocknr word lt in
    let (same_height, same) =
      lower_to-find mem (levels 8 (last_block btype newsize)) t kept blocknr le
        (omega (arith, k, fits)) nz (omega (arith, b, fits)) in
    rw e (
      _,
      refl,
      record {
        least = rw same_height (levels_least 8 (last_block btype newsize));
        fits = rw same_height fits;
        same = same;
      },
    )
