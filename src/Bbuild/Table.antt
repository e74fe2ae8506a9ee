-- ===== src/Bbuild/Table.antt =====
-- The scan of the inode table notes exactly its own blocks and those of the inodes in use.
use pmfs.Base.{
  ℕ, zero, suc, ◌/◌, ◌%◌, ◌<◌, ◌≡◌, ◌≢◌, refl, ◌↔◌, ◌⊎◌, inl, inr, true, false, ◌==◌, arith,
  Bool-cases, ◌∙◌, dec_lt, subst, ap,
}
use pmfs.Base.Iff.{with_guard, not_added, add_both}
use pmfs.Balloc.{BlockType, type_4k}
use native.Mathlib.Nat.{mod-lt, div-lt_iff_lt-mul}
use pmfs.Tree.Grow.{span-pos}
use pmfs.Tree.{Nodes, span, find_data_block}
use pmfs.Bbuild.{ScanBitmap}
use pmfs.Bbuild.Scan.{
  block_of, ScanInode, inode_crawl, is_empty_inode, Scan, inodes_per_block, scan_inode, scan_inodes,
  table_block_type, inode_table_crawl_recursive,
}
use pmfs.Bbuild.Noted.{
  noted, data_block, below, InTree, note_block_iff, SomeEntry, each_entry_iff,
  inode_crawl_recursive_iff,
}

-- Block number `b` of type `t` is one of the inode's tree.
abbrev pub InInode : Nodes → ScanInode → BlockType → ℕ → Type 0
InInode nodes pi t b = (pi.root ≢ 0) × InTree nodes pi.i_blk_type pi.height pi.root t b

-- The inode is in use, and block number `b` of type `t` is one of its file's.
abbrev pub InFile : Nodes → ScanInode → BlockType → ℕ → Type 0
InFile nodes pi t b = (is_empty_inode pi ≡ false) × InInode nodes pi t b

-- one of the first `n` inodes is in use and has the block
abbrev pub InFiles : Nodes → (inode : ℕ → ScanInode) → (n : ℕ) → BlockType → ℕ → Type 0
InFiles nodes inode n t b = (i : ℕ) × (i < n) × InFile nodes (inode i) t b

-- Block number `b` of type `t` is one of the inode table's, or of a file of one of its inodes in use.
abbrev pub InTable :
    Nodes → (inodes : ℕ → ℕ → ScanInode) → BlockType → (height block : ℕ) → BlockType → ℕ → Type 0
InTable nodes inodes btype zero block t b =
    ((t ≡ table_block_type btype) × (b ≡ block_of (table_block_type btype) block))
    ⊎ InFiles nodes (inodes block) (inodes_per_block btype) t b
InTable nodes inodes btype (suc height) block t b =
    ((t ≡ type_4k) × (b ≡ block_of type_4k block))
    ⊎ SomeEntry (λ (child : ℕ). InTable nodes inodes btype height child t b) (nodes block) 512

module _ (nodes : Nodes) (t : BlockType) (b : ℕ) where
  inode_crawl_iff :
      (pi : ScanInode) (bm : ScanBitmap)
      → (noted (inode_crawl nodes pi bm) t b ≡ true)
        ↔ ((noted bm t b ≡ true) ⊎ InInode nodes pi t b)
  unfolding inode_crawl
  inode_crawl_iff pi bm = elim (Bool-cases (pi.root == 0)) [
    | inl e ↦ rw e (not_added λ ne. ne (ground arith))
    | inr e ↦ rw e (
        with_guard (ground arith)
          (inode_crawl_recursive_iff nodes pi.i_blk_type t b pi.height pi.root bm))
  ]

  scan_inode_iff :
      (pi : ScanInode) (s : Scan)
      → (noted (scan_inode nodes pi s).bm t b ≡ true)
        ↔ ((noted s.bm t b ≡ true) ⊎ InFile nodes pi t b)
  unfolding scan_inode
  scan_inode_iff pi s = elim (Bool-cases (is_empty_inode pi)) [
    | inl e ↦ rw e (not_added λ h. ground arith)
    | inr e ↦ rw e (with_guard refl (inode_crawl_iff pi s.bm))
  ]

  scan_inodes_iff :
      (inode : ℕ → ScanInode) (n : ℕ) (s : Scan)
      → (noted (scan_inodes nodes inode n s).bm t b ≡ true)
        ↔ ((noted s.bm t b ≡ true) ⊎ InFiles nodes inode n t b)
  unfolding scan_inodes
  scan_inodes_iff inode zero s = (λ p. inl p, none_yet)
    where
      none_yet : (noted s.bm t b ≡ true) ⊎ InFiles nodes inode 0 t b → noted s.bm t b ≡ true
      none_yet (inl p) = p
      none_yet (inr (i, lt, x)) = absurd (omega arith)
  scan_inodes_iff inode (suc n) s =
      add_both (scan_inode_iff (inode n) (scan_inodes nodes inode n s)) (scan_inodes_iff inode n s)
        (there, back)
    where
      there :
          InFiles nodes inode (suc n) t b → InFiles nodes inode n t b ⊎ InFile nodes (inode n) t b
      there (i, lt, x) = elim (dec_lt i n) [
        | yes h ↦ inl (i, h, x)
        | no h ↦ inr (subst (λ (j : ℕ). InFile nodes (inode j) t b) (omega arith) x)
      ]

      back :
          InFiles nodes inode n t b ⊎ InFile nodes (inode n) t b → InFiles nodes inode (suc n) t b
      back (inl (i, lt, x)) = (i, omega arith, x)
      back (inr x) = (n, omega arith, x)

  -- `inode_table_crawl_recursive` notes exactly the blocks of the table and of the inodes in use.
  pub inode_table_crawl_recursive_iff :
      (inodes : ℕ → ℕ → ScanInode) (btype : BlockType) (height block : ℕ) (s : Scan)
      → (noted (inode_table_crawl_recursive nodes inodes btype height block s).bm t b ≡ true)
        ↔ ((noted s.bm t b ≡ true) ⊎ InTable nodes inodes btype height block t b)
  unfolding inode_table_crawl_recursive
  inode_table_crawl_recursive_iff inodes btype zero block s =
      add_both (scan_inodes_iff (inodes block) (inodes_per_block btype) _)
        (note_block_iff (table_block_type btype) t block b s.bm) (λ x. x, λ x. x)
  inode_table_crawl_recursive_iff inodes btype (suc height) block s =
      add_both
        (each_entry_iff (λ (s : Scan). noted s.bm t b ≡ true)
          (λ (child : ℕ). InTable nodes inodes btype height child t b)
          (inode_table_crawl_recursive nodes inodes btype height) (nodes block) 512 _
          (inode_table_crawl_recursive_iff inodes btype height))
        (note_block_iff type_4k t block b s.bm) (λ x. x, λ x. x)

-- A lookup that finds a block goes through an entry that is not 0.
lookup_step :
    (nodes : Nodes) (height block blocknr : ℕ)
    → blocknr < span (suc height)
    → find_data_block nodes (suc height) block blocknr ≢ 0
    → (i : ℕ) × (i < 512)
      × (nodes block i ≢ 0)
      × (blocknr % span height < span height)
      × (find_data_block nodes (suc height) block blocknr
          ≡ find_data_block nodes height (nodes block i) (blocknr % span height))
unfolding find_data_block span
lookup_step nodes height block blocknr lt ne =
    let i : ℕ = blocknr / span height in
    let pos = span-pos height in
    elim (Bool-cases (nodes block i == 0)) [
      | inl e ↦ absurd (ne (rw e refl))
      | inr e ↦
          (i, (div-lt_iff_lt-mul pos).1 lt, (λ z. ground arith), mod-lt blocknr pos, rw e refl)
    ]

-- Every block that a lookup in a tree finds is one of the tree.
pub find_data_block-InTree :
    (nodes : Nodes) (btype : BlockType) (height block blocknr : ℕ)
    → blocknr < span height
    → find_data_block nodes height block blocknr ≢ 0
    → InTree nodes btype height block btype
        (block_of btype (find_data_block nodes height block blocknr))
unfolding find_data_block
find_data_block-InTree nodes btype zero block blocknr lt ne = (block, data_block block, refl)
find_data_block-InTree nodes btype (suc height) block blocknr lt ne =
    let (i, index_lt, entry, small, found) = lookup_step nodes height block blocknr lt ne in
    let (off, v, same) =
      find_data_block-InTree nodes btype height (nodes block i) (blocknr % span height) small
        λ z. ne (found ∙ z) in
    (off, below height block i btype off index_lt entry v, ap (block_of btype) found ∙ same)

-- The files of the inodes in a block that a lookup in the inode table finds are in the table.
pub InFile-InTable :
    (nodes : Nodes) (inodes : ℕ → ℕ → ScanInode) (btype : BlockType) (height block k i : ℕ)
    (t : BlockType) (b : ℕ)
    → k < span height
    → find_data_block nodes height block k ≢ 0
    → i < inodes_per_block btype
    → InFile nodes (inodes (find_data_block nodes height block k) i) t b
    → InTable nodes inodes btype height block t b
unfolding find_data_block
InFile-InTable nodes inodes btype zero block k i t b lt ne small f = inr (i, small, f)
InFile-InTable nodes inodes btype (suc height) block k i t b lt ne small f =
    let (j, index_lt, entry, lt', found) = lookup_step nodes height block k lt ne in
    inr (
      j,
      index_lt,
      entry,
      InFile-InTable nodes inodes btype height (nodes block j) (k % span height) i t b lt'
          (λ z. ne (found ∙ z)) small
          (subst (λ (off : ℕ). InFile nodes (inodes off i) t b) found f),
    )
