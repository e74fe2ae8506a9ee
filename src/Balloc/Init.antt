-- ===== src/Balloc/Init.antt =====
-- pmfs_init_blockmap: the in-use list of a new file system, and its free counter.
use pmfs.Base.{ℕ, ◌+◌, ◌-◌, ◌*◌, ◌/◌, ◌≤◌, ◌<◌, ◌^◌, ◌≡◌, refl, [], arith, ltb}
use pmfs.Base.Words.{add64, sub64}
use pmfs.Balloc.{SbInfo, init_blockmap, count_free_blocks}
use pmfs.Balloc.Spec.{used, IsValid}

-- the state that pmfs_init and pmfs_setup_blocknode_map pass to pmfs_init_blockmap: block 0 is the
-- first, nothing is in use and the counter has all blocks (a device has less than 2 ^ 64 bytes)
pub record IsBlank (sbi : SbInfo) : Type 0 where
  pub from_zero : sbi.block_start ≡ 0
  pub no_nodes : sbi.block_inuse_head ≡ []
  pub no_count : sbi.num_blocknode_allocated ≡ 0
  pub all_free : sbi.num_free_blocks ≡ sbi.block_end
  pub small : sbi.block_end < 2 ^ 52

-- how many 4 KiB blocks the first `size` bytes take
abbrev pub blocks_of : ℕ → ℕ
blocks_of size = (size + 4095) / 4096

module _ {sbi : SbInfo} (size : ℕ) (s : IsBlank sbi) (some_used : 0 < size)
    (fits : blocks_of size ≤ sbi.block_end) where
  used_blocks-eq : sub64 (add64 size 4096) 1 / 4096 ≡ blocks_of size
  unfolding add64 sub64
  used_blocks-eq = omega (arith, s.small)

  first_high-eq : sub64 (add64 sbi.block_start (blocks_of size)) 1 ≡ blocks_of size - 1
  unfolding add64 sub64
  first_high-eq = omega (arith, s.small, s.from_zero)

  -- From a blank state whose first `size` bytes, one at least, fit the device, the initial state is valid, and the
  -- blocks in use are exactly those that hold the first `size` bytes.
  pub init_blockmap-IsValid :
      IsValid (init_blockmap sbi size)
      × ((b : ℕ) → used (init_blockmap sbi size).block_inuse_head b ≡ ltb b (blocks_of size))
  unfolding init_blockmap add64
  init_blockmap-IsValid =
      rw (used_blocks-eq, first_high-eq, s.no_nodes, s.from_zero, s.no_count)
        (
          record { chain = omega arith; small = omega (arith, s.small); counted = refl },
          λ b. ground arith,
        )

  -- On a device with fewer than 25 Mi blocks (100 GB) behind the first `size` bytes, the counter of
  -- free blocks wraps below zero, and `count_free_blocks` reports more blocks than the device has.
  pub count_free_blocks-init_blockmap :
      sbi.block_end < blocks_of size + 25 * 1024 * 1024
      → sbi.block_end < count_free_blocks (init_blockmap sbi size)
  unfolding init_blockmap count_free_blocks sub64
  count_free_blocks-init_blockmap h = rw used_blocks-eq (omega (arith, s.all_free, s.small))
