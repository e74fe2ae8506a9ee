-- ===== src/Bbuild/Scan.antt =====
-- The scan of bbuild.c: pmfs_inode_table_crawl and pmfs_inode_crawl note the blocks they come by.
use pmfs.Base.{
  ℕ, zero, suc, ◌-◌, Option, none, some, ◌+◌, ◌/◌, ◌%◌, ◌^◌, Bool, false, ◌&&◌, ◌||◌, not, ◌==◌,
  if◌then◌else◌,
}
use pmfs.Balloc.{SbInfo, BlockType, type_4k, type_2m, type_1g, init_blockmap}
use pmfs.Tree.{Nodes}
use pmfs.Bbuild.{Bitmap, FindNext, ScanBitmap, BitmapSizes, build_blocknode_map}

unfoldable pub set_bit : ℕ → Bitmap → Bitmap
set_bit n bitmap b = b == n || bitmap b

-- the number of a block of the type, from its offset
unfoldable pub block_of : BlockType → ℕ → ℕ
block_of type_4k off = off / 2 ^ 12
block_of type_2m off = off / 2 ^ 21
block_of type_1g off = off / 2 ^ 30

unfoldable pub note_block : BlockType → (off : ℕ) → ScanBitmap → ScanBitmap
unfolding set_bit block_of
note_block type_4k off bm = record bm { bitmap_4k = set_bit (block_of type_4k off) bm.bitmap_4k }
note_block type_2m off bm = record bm { bitmap_2m = set_bit (block_of type_2m off) bm.bitmap_2m }
note_block type_1g off bm = record bm { bitmap_1g = set_bit (block_of type_1g off) bm.bitmap_1g }

-- The loop over the first `n` entries of a meta-data block: `crawl` for those that are not 0.
unfoldable pub each_entry {ℓ} :
    {S : Type ℓ} → (crawl : ℕ → S → S) → (entry : ℕ → ℕ) → (n : ℕ) → S → S
each_entry crawl entry zero s = s
each_entry crawl entry (suc i) s =
    let before = each_entry crawl entry i s in
    if entry i == 0 then before else crawl (entry i) before

-- `pmfs_inode_crawl_recursive`
unfoldable pub inode_crawl_recursive :
    Nodes → BlockType → (height block : ℕ) → ScanBitmap → ScanBitmap
unfolding note_block each_entry
inode_crawl_recursive nodes btype zero block bm = note_block btype block bm
inode_crawl_recursive nodes btype (suc height) block bm =
    each_entry (inode_crawl_recursive nodes btype height) (nodes block) 512
      (note_block type_4k block bm)

-- the fields of an inode that the scan reads
pub record ScanInode : Type 0 where
  pub i_links_count : ℕ
  pub i_mode : ℕ
  pub i_dtime : ℕ
  pub root : ℕ
  pub height : ℕ
  pub i_blk_type : BlockType

unfoldable pub inode_crawl : Nodes → ScanInode → ScanBitmap → ScanBitmap
unfolding inode_crawl_recursive
inode_crawl nodes pi bm =
    let crawled = inode_crawl_recursive nodes pi.i_blk_type pi.height pi.root bm in
    if pi.root == 0 then bm else crawled

unfoldable pub is_empty_inode : ScanInode → Bool
is_empty_inode pi = pi.i_links_count == 0 && (pi.i_mode == 0 || not (pi.i_dtime == 0))

-- What the scan keeps: the bitmaps, and two 32-bit counters of the super block.
pub record Scan : Type 0 where
  pub bm : ScanBitmap
  pub s_inodes_count : ℕ
  pub s_inodes_used_count : ℕ

-- `INODES_PER_BLOCK`, with inodes of 128 bytes
unfoldable pub inodes_per_block : BlockType → ℕ
inodes_per_block type_4k = 2 ^ 5
inodes_per_block type_2m = 2 ^ 14
inodes_per_block type_1g = 2 ^ 23

unfoldable pub scan_inode : Nodes → ScanInode → Scan → Scan
unfolding inode_crawl is_empty_inode
scan_inode nodes pi s = if is_empty_inode pi then s else record s {
  bm = inode_crawl nodes pi s.bm;
  s_inodes_used_count = (s.s_inodes_used_count + 1) % 2 ^ 32;
}

-- The loop over the first `n` inodes of a block of the table.
unfoldable pub scan_inodes : Nodes → (inode : ℕ → ScanInode) → (n : ℕ) → Scan → Scan
unfolding scan_inode
scan_inodes nodes inode zero s = s
scan_inodes nodes inode (suc i) s = scan_inode nodes (inode i) (scan_inodes nodes inode i s)

-- the bitmap for a data block of the inode table
unfoldable pub table_block_type : BlockType → BlockType
table_block_type type_4k = type_4k
table_block_type type_2m = type_2m
table_block_type type_1g = type_4k

-- `pmfs_inode_table_crawl_recursive`; `inodes off` are those of the block at `off`.
unfoldable pub inode_table_crawl_recursive :
    Nodes → (inodes : ℕ → ℕ → ScanInode) → BlockType → (height block : ℕ) → Scan → Scan
unfolding note_block each_entry scan_inodes table_block_type
inode_table_crawl_recursive nodes inodes btype zero block s =
    let n = inodes_per_block btype in
    scan_inodes nodes (inodes block) n (record s {
      bm = note_block (table_block_type btype) block s.bm;
      s_inodes_count = (s.s_inodes_count + n) % 2 ^ 32;
    })
inode_table_crawl_recursive nodes inodes btype (suc height) block s =
    each_entry (inode_table_crawl_recursive nodes inodes btype height) (nodes block) 512
      (record s { bm = note_block type_4k block s.bm })

-- the allocator, and the counters of `struct pmfs_sb_info` for the inodes
pub record MountState : Type 0 where
  pub sbi : SbInfo
  pub s_inodes_count : ℕ
  pub s_inodes_used_count : ℕ
  pub s_free_inodes_count : ℕ
  pub s_free_inode_hint : ℕ

-- `block_start` and `block_end` of a device of `initsize` bytes
unfoldable pub set_bounds : (initsize : ℕ) → SbInfo → SbInfo
set_bounds initsize sbi = record sbi { block_start = 0; block_end = initsize / 2 ^ 12 }

abbrev pub no_bits : ScanBitmap
no_bits = record { bitmap_4k = λ b. false; bitmap_2m = λ b. false; bitmap_1g = λ b. false }

unfoldable pub bitmap_sizes : (initsize : ℕ) → BitmapSizes
bitmap_sizes initsize = record {
  bitmap_4k_size = initsize / 2 ^ 15 + 1;
  bitmap_2m_size = initsize / 2 ^ 24 + 1;
  bitmap_1g_size = initsize / 2 ^ 33 + 1;
}

unfoldable pub with_counters : Scan → Option SbInfo → Option MountState
with_counters scan none = none
with_counters scan (some sbi) = some (record {
  sbi = sbi;
  s_inodes_count = scan.s_inodes_count;
  s_inodes_used_count = scan.s_inodes_used_count;
  s_free_inodes_count =
      (scan.s_inodes_count + 2 ^ 32 - (scan.s_inodes_used_count + 2) % 2 ^ 32) % 2 ^ 32;
  s_free_inode_hint = 3;
})

-- `pmfs_setup_blocknode_map` without a saved list. `bitmaps` says whether the bitmaps are allocated, `mem` is
-- for the nodes; `btype`, `height` and `root` are the inode table's, and `journal_end` is where the
-- journal ends.
unfoldable pub failure_recovery :
    (find_next_bit find_next_zero_bit : FindNext) (bitmaps mem : Bool)
    → Nodes
    → (inodes : ℕ → ℕ → ScanInode) → BlockType
    → (height root initsize journal_end : ℕ) → MountState
    → Option MountState
unfolding inode_table_crawl_recursive set_bounds bitmap_sizes with_counters
failure_recovery find_next_bit find_next_zero_bit bitmaps mem nodes inodes btype height root
      initsize journal_end s =
    let sbi = set_bounds initsize s.sbi in
    let scan = inode_table_crawl_recursive nodes inodes btype height root (record {
      bm = no_bits;
      s_inodes_count = s.s_inodes_count;
      s_inodes_used_count = s.s_inodes_used_count;
    }) in
    let first = init_blockmap (record sbi { num_free_blocks = initsize / 2 ^ 12 }) journal_end in
    if bitmaps
    then with_counters scan (
        build_blocknode_map find_next_bit find_next_zero_bit mem scan.bm (bitmap_sizes initsize)
          first)
    else some (record s { sbi = sbi })
