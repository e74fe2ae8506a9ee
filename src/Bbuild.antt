-- ===== src/Bbuild.antt =====
-- bbuild.c: how the in-use list of balloc.c comes back at mount. After a clean unmount it is read from
-- the blocks of a reserved inode; otherwise the inode table and the b-trees of the inodes are walked,
-- the blocks seen are noted in three bitmaps and the list is built from these. The allocator is the
-- one of balloc.c, the meta-data blocks are those of the b-tree.
pub mod Insert
mod Runs
mod Loop
pub mod Build
pub mod Scan
mod Noted
mod Table
mod Layout
pub mod Recover
pub mod Save
pub mod Kept
mod Tests
use pmfs.Base.{
  ℕ, zero, suc, ◌≡◌, ◌≤◌, ◌<◌, not, ◌+◌, ◌-◌, ◌*◌, ◌/◌, ◌%◌, ◌^◌, Bool, true, false, ◌&&◌, ◌||◌,
  Option, none, some, List, [], ◌∷◌, ◌++◌, ltb, leb, ◌==◌, if◌then◌else◌, length,
}
use pmfs.Base.Words.{add64, sub64}
use pmfs.Balloc.{
  BlockNode, node, SbInfo, BlockType, type_4k, type_2m, type_1g, Walk, no_room, fit, place,
  next_block_low, NewBlock, allocated, enospc, take_blocks, init_blockmap,
}

-- The loop of `pmfs_alloc_insert_blocknode_map`: the walk of `pmfs_new_block` with one candidate,
-- `low .. high`, at every node.
unfoldable pub insert_walk : (mem : Bool) (block_end low high : ℕ) → List BlockNode → Walk
unfolding next_block_low
insert_walk mem block_end low high [] = no_room
insert_walk mem block_end low high (i ∷ rest) =
    place mem i rest low high (fit i.block_high (next_block_low block_end rest) low high)
      (insert_walk mem block_end low high rest)

-- `allocated` is the return of 0
unfoldable pub insert_blocknode_map : (mem : Bool) → SbInfo → (low high : ℕ) → NewBlock
insert_blocknode_map mem sbi low high =
    take_blocks sbi (add64 (sub64 high low) 1)
      (insert_walk mem sbi.block_end low high sbi.block_inuse_head)

-- A failed insertion is only printed.
unfoldable pub inserted_state : SbInfo → NewBlock → SbInfo
inserted_state sbi (allocated sbi' low) = sbi'
inserted_state sbi enospc = sbi

abbrev pub Bitmap : Type 0
Bitmap = ℕ → Bool

unfoldable pub shift_left : ℕ → ℕ → ℕ
shift_left x scale = x * 2 ^ scale % 2 ^ 64

-- The kernel's `find_next_bit` and `find_next_zero_bit`: a bitmap, its size and where to begin.
abbrev pub FindNext : Type 0
FindNext = Bitmap → ℕ → ℕ → ℕ

-- What they are documented to return: the first bit of the wanted value from there on, or the size.
pub record IsFindNext (want : Bool) (find : FindNext) : Type 0 where
  pub at_least : (bitmap : Bitmap) (size from : ℕ) → from ≤ size → from ≤ find bitmap size from
  pub at_most : (bitmap : Bitmap) (size from : ℕ) → from ≤ size → find bitmap size from ≤ size
  pub passed :
      (bitmap : Bitmap) (size from b : ℕ)
      → from ≤ size
      → from ≤ b
      → b < find bitmap size from
      → bitmap b ≡ not want
  pub found :
      (bitmap : Bitmap) (size from : ℕ)
      → from ≤ size
      → find bitmap size from < size
      → bitmap (find bitmap size from) ≡ want

-- `struct scan_bitmap`: bitmaps with a bit for every 4 KiB, 2 MiB and 1 GiB, and their sizes in bytes
pub record ScanBitmap : Type 0 where
  pub bitmap_4k : Bitmap
  pub bitmap_2m : Bitmap
  pub bitmap_1g : Bitmap

pub record BitmapSizes : Type 0 where
  pub bitmap_4k_size : ℕ
  pub bitmap_2m_size : ℕ
  pub bitmap_1g_size : ℕ

unfoldable pub then_build : Option SbInfo → (SbInfo → Option SbInfo) → Option SbInfo
then_build none f = none
then_build (some sbi) f = f sbi

module _ (find_next_bit find_next_zero_bit : FindNext) (mem : Bool) where
  -- The loop of `__pmfs_build_blocknode_map` from `next` on; `none` when the fuel ends first.
  unfoldable pub build_from : (bitmap : Bitmap) (bsize scale fuel next : ℕ) → SbInfo → Option SbInfo
  unfolding inserted_state
  build_from bitmap bsize scale zero next sbi = none
  build_from bitmap bsize scale (suc fuel) next sbi =
      let low = find_next_bit bitmap bsize next in
      let next' = find_next_zero_bit bitmap bsize low in
      let sbi' =
        inserted_state sbi (
          insert_blocknode_map mem sbi (shift_left low scale) (sub64 (shift_left next' scale) 1)) in
      let rest = build_from bitmap bsize scale fuel next' sbi' in
      if low == bsize then some sbi else if next' == bsize then some sbi' else rest

  -- `__pmfs_build_blocknode_map`: bit 0 is not read.
  unfoldable pub build_bitmap : (bitmap : Bitmap) (bsize scale : ℕ) → SbInfo → Option SbInfo
  build_bitmap bitmap bsize scale sbi = build_from bitmap bsize scale bsize 1 sbi

  -- `pmfs_build_blocknode_map`
  unfoldable pub build_blocknode_map : ScanBitmap → BitmapSizes → SbInfo → Option SbInfo
  unfolding then_build
  build_blocknode_map bm sizes sbi =
      then_build
        (then_build (build_bitmap bm.bitmap_4k (sizes.bitmap_4k_size * 8) 0 sbi)
          (build_bitmap bm.bitmap_2m (sizes.bitmap_2m_size * 8) 9))
        (build_bitmap bm.bitmap_1g (sizes.bitmap_1g_size * 8) 18)
