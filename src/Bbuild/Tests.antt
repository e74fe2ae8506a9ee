-- ===== src/Bbuild/Tests.antt =====
-- Runs of the rebuilt and of the saved in-use list, and their theorems at concrete states.
use pmfs.Base.{
  ℕ, zero, suc, ◌+◌, ◌-◌, ◌*◌, ◌/◌, ◌≤◌, ◌<◌, ◌^◌, ◌≡◌, ◌≢◌, refl, sym, ◌∙◌, ◌⊎◌, inl, inr, Bool,
  true, false, ◌&&◌, not, [], ◌∷◌, ◌==◌, leb, ltb, arith, some, ℕ_discrete, if◌then◌else◌, subst,
}
use pmfs.Balloc.{
  SbInfo, node, BlockType, type_4k, type_2m, type_1g, allocated, enospc, take_blocks, place, fit,
}
use pmfs.Balloc.Init.{blocks_of}
use pmfs.Balloc.Spec.{used, IsValid}
use pmfs.Tree.{Nodes, find_data_block, span}
use pmfs.Bbuild.{
  Bitmap, FindNext, IsFindNext, ScanBitmap, BitmapSizes, insert_walk, insert_blocknode_map,
  build_blocknode_map,
}
use pmfs.Bbuild.Insert.{IsFree, Extended, insert_blocknode_map-Extended}
use pmfs.Bbuild.Loop.{Insertable, Built}
use pmfs.Bbuild.Build.{seen, IsScan, build_blocknode_map-Built}
use pmfs.Bbuild.Scan.{
  ScanInode, MountState, block_of, is_empty_inode, inodes_per_block, table_block_type,
  failure_recovery,
}
use pmfs.Bbuild.Noted.{Visit, leaf_block}
use pmfs.Bbuild.Table.{InTable}
use pmfs.Bbuild.Layout.{IsLayout, scale_of}
use pmfs.Bbuild.Recover.{Recovered, failure_recovery-Recovered, failure_recovery-find_data_block}
use pmfs.Bbuild.Save.{save_blocknode_mappings, load_blocknode_mappings}
use pmfs.Bbuild.Kept.{load_blocknode_mappings-save_blocknode_mappings}

-- The first of the `n` bits from `from` on that is as wanted, or the bit behind them.
find_in : (want : Bool) → Bitmap → (n from : ℕ) → ℕ
find_in want bitmap zero from = from
find_in true bitmap (suc n) from = if bitmap from then from else find_in true bitmap n (from + 1)
find_in false bitmap (suc n) from = if bitmap from then find_in false bitmap n (from + 1) else from

abbrev find_by : Bool → FindNext
find_by want bitmap size from = find_in want bitmap (size - from) from

find_in-bounds :
    (want : Bool) (bitmap : Bitmap) (n from : ℕ)
    → (from ≤ find_in want bitmap n from) × (find_in want bitmap n from ≤ from + n)
unfolding find_in
find_in-bounds want bitmap zero from = omega arith
find_in-bounds true bitmap (suc n) from = ground (arith, find_in-bounds true bitmap n (from + 1))
find_in-bounds false bitmap (suc n) from = ground (arith, find_in-bounds false bitmap n (from + 1))

find_in-found :
    (want : Bool) (bitmap : Bitmap) (n from : ℕ)
    → find_in want bitmap n from < from + n
    → bitmap (find_in want bitmap n from) ≡ want
unfolding find_in
find_in-found want bitmap zero from h = absurd (omega arith)
find_in-found true bitmap (suc n) from h = ground (arith, find_in-found true bitmap n (from + 1))
find_in-found false bitmap (suc n) from h = ground (arith, find_in-found false bitmap n (from + 1))

find_in-passed :
    (want : Bool) (bitmap : Bitmap) (n from b : ℕ)
    → from ≤ b
    → b < find_in want bitmap n from
    → bitmap b ≡ not want
unfolding find_in
find_in-passed want bitmap zero from b h k = absurd (omega arith)
find_in-passed true bitmap (suc n) from b h k = elim (ℕ_discrete from b) [
  | yes e ↦
      let clear : bitmap from ≡ false = ground arith in subst (λ (x : ℕ). bitmap x ≡ false) e clear
  | no ne ↦ ground (arith, find_in-passed true bitmap n (from + 1) b)
]
find_in-passed false bitmap (suc n) from b h k = elim (ℕ_discrete from b) [
  | yes e ↦ let set : bitmap from ≡ true = ground arith in subst (λ (x : ℕ). bitmap x ≡ true) e set
  | no ne ↦ ground (arith, find_in-passed false bitmap n (from + 1) b)
]

find_by-IsFindNext : (want : Bool) → IsFindNext want (find_by want)
find_by-IsFindNext want = record {
  at_least = λ bitmap size from le. (find_in-bounds want bitmap (size - from) from).0;
  at_most = λ bitmap size from le. omega (arith, find_in-bounds want bitmap (size - from) from);
  passed = λ bitmap size from b le. find_in-passed want bitmap (size - from) from b;
  found = λ bitmap size from le lt. find_in-found want bitmap (size - from) from (omega arith);
}

-- blocks 0 to 99 and 200 to 299 of 2048 are in use
abbrev two : SbInfo
two = record {
  block_inuse_head = node 0 99 ∷ node 200 299 ∷ [];
  block_start = 0;
  block_end = 2048;
  num_free_blocks = 1848;
  num_blocknode_allocated = 2;
}

two-IsValid : IsValid two
two-IsValid = record { chain = omega arith; small = omega arith; counted = refl }

insert_blocknode_map_run : insert_blocknode_map true two 250 310 ≡ enospc
unfolding insert_blocknode_map take_blocks insert_walk place fit
insert_blocknode_map_run = refl

insert_blocknode_map-Extended_example :
    ((sbi' : SbInfo) × (insert_blocknode_map true two 120 129 ≡ allocated sbi' 120)
      × Extended two sbi' 120 10)
    ⊎ ((insert_blocknode_map true two 120 129 ≡ enospc)
        × ¬ (IsFree two.block_inuse_head 120 10 × (130 ≤ 2048)))
insert_blocknode_map-Extended_example =
    insert_blocknode_map-Extended two 120 10 two-IsValid (omega arith) (omega arith) refl

-- blocks 120 to 129, and the 2 MiB block 1
abbrev some_bits : ScanBitmap
some_bits = record {
  bitmap_4k = λ b. leb 120 b && ltb b 130;
  bitmap_2m = λ b. b == 1;
  bitmap_1g = λ b. false;
}

abbrev some_sizes : BitmapSizes
some_sizes = record { bitmap_4k_size = 257; bitmap_2m_size = 1; bitmap_1g_size = 1 }

some_bits-IsScan : IsScan some_bits some_sizes
some_bits-IsScan = record {
  some_4k = omega arith;
  some_2m = omega arith;
  some_1g = omega arith;
  small_4k = omega arith;
  small_2m = omega arith;
  small_1g = omega arith;
  apart_4k = λ c h. ground arith;
  apart_2m = λ c h. ground arith;
}

some_bits-Insertable : Insertable two (seen some_bits some_sizes)
some_bits-Insertable = record { is_free = λ c h. ground arith; on_device = λ c h. ground arith }

build_blocknode_map-Built_example :
    (sbi' : SbInfo) × (build_blocknode_map
        (find_by true)
        (find_by false)
        true
        some_bits
        some_sizes
        two
      ≡ some sbi')
    × Built two sbi' (seen some_bits some_sizes)
build_blocknode_map-Built_example =
    build_blocknode_map-Built (find_by-IsFindNext true) (find_by-IsFindNext false) some_bits
      some_sizes two some_bits-IsScan two-IsValid refl some_bits-Insertable

type_4k≢type_2m : type_4k ≢ type_2m
type_4k≢type_2m e = cc

type_4k≢type_1g : type_4k ≢ type_1g
type_4k≢type_1g e = cc

-- an inode table of one block of 4 KiB at block 256, whose inode 3 has one data block, block 512
abbrev file_inode : ScanInode
file_inode = record {
  i_links_count = 1;
  i_mode = 0x81a4;
  i_dtime = 0;
  root = 512 * 4096;
  height = 0;
  i_blk_type = type_4k;
}

abbrev empty_inode : ScanInode
empty_inode = record file_inode { i_links_count = 0; i_mode = 0; root = 0 }

abbrev some_inodes : ℕ → ℕ → ScanInode
some_inodes off i = if i == 3 then file_inode else empty_inode

abbrev no_meta_blocks : Nodes
no_meta_blocks p i = 0

abbrev SomeTable : BlockType → ℕ → Type 0
SomeTable = InTable no_meta_blocks some_inodes type_4k 0 (256 * 4096)

in-SomeTable : (t : BlockType) (b : ℕ) → SomeTable t b → (t ≡ type_4k) × (255 < b) × (b < 513)
unfolding table_block_type block_of is_empty_inode
in-SomeTable t b (inl (e, h)) = (e, ground arith, ground arith)
in-SomeTable t b (inr (i, lt, (used_inode, (rooted, (off, v, e))))) =
    in_file (i == 3) used_inode v e
  where
    in_file :
        (third : Bool)
        → let pi = if third then file_inode else empty_inode in
          (is_empty_inode pi ≡ false)
          → Visit no_meta_blocks pi.i_blk_type pi.height pi.root t off
          → b ≡ block_of t off
          → (t ≡ type_4k) × (255 < b) × (b < 513)
    in_file true used_inode v e =
        let (p, q) = leaf_block type_4k t (512 * 4096) off v in
        let same : b ≡ block_of type_4k (512 * 4096) = cc in (p, omega arith, omega arith)
    in_file false used_inode v e = absurd (ground (arith, used_inode))

SomeTable-IsLayout : IsLayout SomeTable (blocks_of 65536) (8388608 / 2 ^ 12)
SomeTable-IsLayout = record {
  behind = λ t c p. from_number t c (in-SomeTable t _ p);
  on_device = λ t c p. to_number t c (in-SomeTable t _ p);
  apart = λ t t' c p p'. (in-SomeTable t _ p).0 ∙ sym (in-SomeTable t' _ p').0;
}
  where
    from_number :
        (t : BlockType) (c : ℕ)
        → (t ≡ type_4k) × (255 < c / 2 ^ scale_of t) × (c / 2 ^ scale_of t < 513)
        → 16 ≤ c
    from_number type_4k c h = omega arith
    from_number type_2m c h = omega arith
    from_number type_1g c h = omega arith

    to_number :
        (t : BlockType) (c : ℕ)
        → (t ≡ type_4k) × (255 < c / 2 ^ scale_of t) × (c / 2 ^ scale_of t < 513)
        → c < 2048
    to_number type_4k c h = omega arith
    to_number type_2m c h = absurd (type_4k≢type_2m (sym h.0))
    to_number type_1g c h = absurd (type_4k≢type_1g (sym h.0))

abbrev unmounted : MountState
unmounted = record {
  sbi = record {
    block_inuse_head = [];
    block_start = 0;
    block_end = 0;
    num_free_blocks = 0;
    num_blocknode_allocated = 0;
  };
  s_inodes_count = 0;
  s_inodes_used_count = 0;
  s_free_inodes_count = 0;
  s_free_inode_hint = 0;
}

failure_recovery-Recovered_example :
    (s' : MountState) × (failure_recovery
        (find_by true)
        (find_by false)
        true
        true
        no_meta_blocks
        some_inodes
        type_4k
        0
        (256 * 4096)
        8388608
        65536
        unmounted
      ≡ some s')
    × Recovered SomeTable (blocks_of 65536) s'.sbi
failure_recovery-Recovered_example =
    failure_recovery-Recovered (find_by-IsFindNext true) (find_by-IsFindNext false) no_meta_blocks
      some_inodes type_4k 0 (256 * 4096) 8388608 65536 unmounted (omega arith) (omega arith)
      (omega arith) refl refl SomeTable-IsLayout

failure_recovery-find_data_block_example :
    (s' : MountState) × (failure_recovery
        (find_by true)
        (find_by false)
        true
        true
        no_meta_blocks
        some_inodes
        type_4k
        0
        (256 * 4096)
        8388608
        65536
        unmounted
      ≡ some s')
    × (used s'.sbi.block_inuse_head 512 ≡ true)
failure_recovery-find_data_block_example =
    failure_recovery-find_data_block (find_by-IsFindNext true) (find_by-IsFindNext false)
      no_meta_blocks some_inodes type_4k 0 (256 * 4096) 8388608 65536 unmounted (omega arith)
      (omega arith) (omega arith) refl refl SomeTable-IsLayout 0 3 0 512 file_inode
      (unfold span in omega arith) (unfold find_data_block in λ e. omega arith)
      (unfold inodes_per_block in omega arith) (unfold find_data_block in refl)
      (unfold is_empty_inode in refl) (λ e. omega arith) (unfold span in omega arith)
      (unfold find_data_block in λ e. omega arith) (unfold find_data_block block_of in refl)

load_blocknode_mappings-save_blocknode_mappings_example :
    load_blocknode_mappings
      (λ b. (b + 1) * 4096)
      (save_blocknode_mappings
        (λ b. (b + 1) * 4096)
        (record unmounted { sbi = two })
        (λ p j. node 0 0))
      (record two { block_inuse_head = [] })
    ≡ record unmounted { sbi = two }
load_blocknode_mappings-save_blocknode_mappings_example =
    load_blocknode_mappings-save_blocknode_mappings (λ b. (b + 1) * 4096)
      (record unmounted { sbi = two }) (λ p j. node 0 0) (record two { block_inuse_head = [] })
      (omega arith) (omega arith) refl (λ a b h k e. omega arith) refl refl refl
