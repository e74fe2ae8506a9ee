-- ===== src/Bbuild/Recover.antt =====
-- pmfs_setup_blocknode_map after a crash: the blocks in use are those that the file system keeps.
use pmfs.Base.{
  ℕ, ◌/◌, ◌≤◌, ◌<◌, ◌^◌, ◌≡◌, ◌≢◌, refl, sym, ◌∙◌, ◌↔◌, ◌⊎◌, inl, inr, Bool, true, false, ◌||◌, [],
  some, ltb, arith, subst, Bool-cases,
}
use pmfs.Balloc.{SbInfo, BlockType, type_4k, type_2m, type_1g, init_blockmap}
use pmfs.Balloc.Spec.{used, IsValid}
use pmfs.Balloc.Init.{IsBlank, blocks_of, init_blockmap-IsValid}
use pmfs.Tree.{Nodes, span, find_data_block}
use pmfs.Bbuild.{FindNext, IsFindNext}
use pmfs.Bbuild.Loop.{Built}
use pmfs.Bbuild.Build.{build_blocknode_map-Built}
use pmfs.Bbuild.Scan.{
  block_of, is_empty_inode, inodes_per_block, ScanInode, Scan, inode_table_crawl_recursive,
  MountState, set_bounds, no_bits, bitmap_sizes, with_counters, failure_recovery,
}
use pmfs.Bbuild.Noted.{noted}
use pmfs.Bbuild.Table.{
  InTable, InFile, find_data_block-InTree, InFile-InTable, inode_table_crawl_recursive_iff,
}
use pmfs.Bbuild.Layout.{PartOf, IsLayout, scale_of, seen_iff, seen-IsScan, seen-Insertable}

-- The in-use list is valid and holds the first `start` blocks, the blocks `P`, and no others.
pub record Recovered (P : BlockType → ℕ → Type 0) (start : ℕ) (sbi : SbInfo) : Type 0 where
  pub valid : IsValid sbi
  pub in_use : (c : ℕ) → (used sbi.block_inuse_head c ≡ true) ↔ ((c < start) ⊎ PartOf P c)

Built-Recovered :
    (P : BlockType → ℕ → Type 0) (start : ℕ) (sbi sbi' : SbInfo) (new : ℕ → Bool)
    → Built sbi sbi' new
    → ((c : ℕ) → used sbi.block_inuse_head c ≡ ltb c start)
    → ((c : ℕ) → (new c ≡ true) ↔ PartOf P c)
    → Recovered P start sbi'
Built-Recovered P start sbi sbi' new b below iff = record {
  valid = b.valid;
  in_use = λ c. rw (b.used_after c, below c) (there c, back c);
}
  where
    there : (c : ℕ) → (ltb c start || new c) ≡ true → (c < start) ⊎ PartOf P c
    there c h = elim (Bool-cases (new c)) [ inl e ↦ inr ((iff c).0 e) | inr e ↦ inl (ground arith) ]

    back : (c : ℕ) → (c < start) ⊎ PartOf P c → (ltb c start || new c) ≡ true
    back c (inl lt) = ground arith
    back c (inr p) = let set = (iff c).1 p in ground arith

-- From empty bitmaps, what is noted is what a scan adds.
from_no_bits {ℓ κ} :
    {X : Type ℓ} {Y : Type κ} (t : BlockType) (b : ℕ) → X ↔ ((noted no_bits t b ≡ true) ⊎ Y) → X ↔ Y
from_no_bits {Y} t b iff = (λ x. added t (iff.0 x), λ y. iff.1 (inr y))
  where
    added : (t : BlockType) → (noted no_bits t b ≡ true) ⊎ Y → Y
    added t (inr y) = y
    added type_4k (inl e) = absurd (ground arith)
    added type_2m (inl e) = absurd (ground arith)
    added type_1g (inl e) = absurd (ground arith)

-- In a state whose list holds the blocks of the table and of the files: if lookup `k` in the inode
-- table finds a block, its inode `i` is `pi` and in use, and lookup `blocknr` in the tree of `pi` finds a
-- data block, both at places that the trees map, then every 4 KiB block `c` of the data block is in
-- use.
Recovered-find_data_block :
    (nodes : Nodes) (inodes : ℕ → ℕ → ScanInode) (btype : BlockType)
    (height root k i blocknr start c : ℕ) (pi : ScanInode) (sbi : SbInfo)
    → Recovered (InTable nodes inodes btype height root) start sbi
    → k < span height
    → find_data_block nodes height root k ≢ 0
    → i < inodes_per_block btype
    → inodes (find_data_block nodes height root k) i ≡ pi
    → is_empty_inode pi ≡ false
    → pi.root ≢ 0
    → blocknr < span pi.height
    → find_data_block nodes pi.height pi.root blocknr ≢ 0
    → c / 2 ^ scale_of pi.i_blk_type
      ≡ block_of pi.i_blk_type (find_data_block nodes pi.height pi.root blocknr)
    → used sbi.block_inuse_head c ≡ true
Recovered-find_data_block nodes inodes btype height root k i blocknr start c pi sbi r small found lt
      e in_use rooted small' found' part =
    let file : InFile nodes pi pi.i_blk_type (c / 2 ^ scale_of pi.i_blk_type) =
      (in_use, (rooted, rw part (find_data_block-InTree nodes _ _ _ blocknr small' found'))) in
    (r.in_use c).1 (
      inr (
        pi.i_blk_type,
        InFile-InTable nodes inodes btype height root k i _ _ small found lt (
            subst (λ (p : ScanInode). InFile nodes p pi.i_blk_type (c / 2 ^ scale_of pi.i_blk_type))
              (sym e) file),
      ))

module _ {find_next_bit find_next_zero_bit : FindNext} (set : IsFindNext true find_next_bit)
    (clear : IsFindNext false find_next_zero_bit) (nodes : Nodes) (inodes : ℕ → ℕ → ScanInode)
    (btype : BlockType) (height root initsize journal_end : ℕ) (s : MountState)
    (word : initsize < 2 ^ 64) (some_used : 0 < journal_end)
    (fits : blocks_of journal_end ≤ initsize / 2 ^ 12) (no_nodes : s.sbi.block_inuse_head ≡ [])
    (no_count : s.sbi.num_blocknode_allocated ≡ 0)
    (layout : IsLayout
      (InTable nodes inodes btype height root)
      (blocks_of journal_end)
      (initsize / 2 ^ 12)) where
  -- With memory for the bitmaps and the nodes, `find_next_bit` and `find_next_zero_bit` as documented,
  -- an empty in-use list, a device of less than 2 ^ 64 bytes that holds at least the
  -- `journal_end` bytes (one or more) in front of its blocks, and blocks of the inode table and of the
  -- files of its inodes in use that lie behind these on the device and do not overlap with those of
  -- another size: `failure_recovery` ends, the list is valid afterwards, and a block of 4 KiB is in use
  -- exactly if it is one of the first `journal_end` bytes', or part of a block of the inode table or of a
  -- file of an inode in use.
  pub failure_recovery-Recovered :
      (s' : MountState) × (failure_recovery find_next_bit find_next_zero_bit true true nodes inodes
          btype height root initsize journal_end s
        ≡ some s')
      × Recovered (InTable nodes inodes btype height root) (blocks_of journal_end) s'.sbi
  unfolding failure_recovery set_bounds with_counters init_blockmap
  failure_recovery-Recovered =
      let P = InTable nodes inodes btype height root in
      let blank : SbInfo = record (set_bounds initsize s.sbi) {
        num_free_blocks = initsize / 2 ^ 12;
      } in
      let is_blank : IsBlank blank = record {
        from_zero = refl;
        no_nodes = no_nodes;
        no_count = no_count;
        all_free = refl;
        small = omega arith;
      } in
      let scan : Scan = inode_table_crawl_recursive nodes inodes btype height root (record {
        bm = no_bits;
        s_inodes_count = s.s_inodes_count;
        s_inodes_used_count = s.s_inodes_used_count;
      }) in
      let bits : (t : BlockType) (b : ℕ) → (noted scan.bm t b ≡ true) ↔ P t b = λ t b.
        from_no_bits t b (inode_table_crawl_recursive_iff nodes t b inodes btype height root _) in
      let start_pos : 0 < blocks_of journal_end = omega arith in
      let (v, below) = init_blockmap-IsValid journal_end is_blank some_used fits in
      let (sbi', e, b) =
        build_blocknode_map-Built set clear scan.bm (bitmap_sizes initsize)
          (init_blockmap blank journal_end)
          (seen-IsScan P scan.bm _ initsize start_pos word layout bits) v (below 0 ∙ ground arith)
          (seen-Insertable P scan.bm _ initsize start_pos word layout bits _ refl below) in
      rw e (
        _,
        refl,
        Built-Recovered P _ _ _ _ b below
            (seen_iff P scan.bm _ initsize start_pos word layout bits),
      )

  -- With memory for the bitmaps and the nodes, `find_next_bit` and `find_next_zero_bit` as documented,
  -- an empty in-use list, a device of less than 2 ^ 64 bytes that holds at least the
  -- `journal_end` bytes (one or more) in front of its blocks, and blocks of the inode table and of the
  -- files of its inodes in use that lie behind these on the device and do not overlap with those of
  -- another size: `failure_recovery` ends, and afterwards no block of a file is free. For if lookup `k` in
  -- the inode table finds a block, its inode `i` is `pi` and in use, and lookup `blocknr` in the tree of
  -- `pi` finds a data block, both at places that the trees map, then every block `c` of 4 KiB of the data
  -- block is in use in the list that is rebuilt.
  pub failure_recovery-find_data_block :
      (k i blocknr c : ℕ) (pi : ScanInode)
      → k < span height
      → find_data_block nodes height root k ≢ 0
      → i < inodes_per_block btype
      → inodes (find_data_block nodes height root k) i ≡ pi
      → is_empty_inode pi ≡ false
      → pi.root ≢ 0
      → blocknr < span pi.height
      → find_data_block nodes pi.height pi.root blocknr ≢ 0
      → c / 2 ^ scale_of pi.i_blk_type
        ≡ block_of pi.i_blk_type (find_data_block nodes pi.height pi.root blocknr)
      → (s' : MountState) × (failure_recovery find_next_bit find_next_zero_bit true true nodes
            inodes btype height root initsize journal_end s
          ≡ some s')
        × (used s'.sbi.block_inuse_head c ≡ true)
  failure_recovery-find_data_block k i blocknr c pi small found lt e in_use rooted small' found'
        part =
      let (s', ends, r) = failure_recovery-Recovered in
      (
        s',
        ends,
        Recovered-find_data_block nodes inodes btype height root k i blocknr _ c pi s'.sbi r small
            found lt e in_use rooted small' found' part,
      )
