-- ===== src/Balloc/Tests.antt =====
-- Runs of the block allocator, and its theorems at concrete states.
use pmfs.Base.{ℕ, ◌*◌, ◌<◌, ◌≡◌, refl, true, some, [], ◌∷◌, arith, ltb}
use pmfs.Base.Words.{add64, sub64, align_down}
use pmfs.Balloc.{
  SbInfo, node, type_4k, type_2m, get_numblocks, Hint, fit, place, walk, allocated, new_block, cut,
  carve, release, freed, error_mng, free_block, free_block_from, init_blockmap, count_free_blocks,
}
use pmfs.Balloc.Spec.{used, IsValid}
use pmfs.Balloc.Search.{Hole}
use pmfs.Balloc.Alloc.{NewRun, new_block-NewRun, new_block_complete}
use pmfs.Balloc.Free.{FreedRun, free_block-FreedRun, free_block_from-hint}
use pmfs.Balloc.Cycle.{
  free_block_complete, SameBlocks, free_block-new_block, here, next, alloc, balance, Steps-balance,
}
use pmfs.Balloc.Init.{IsBlank, init_blockmap-IsValid, count_free_blocks-init_blockmap}

-- blocks 0 to 99 and 200 to 299 of 2048 are in use
abbrev two : SbInfo
two = record {
  block_inuse_head = node 0 99 ∷ node 200 299 ∷ [];
  block_start = 0;
  block_end = 2048;
  num_free_blocks = 1848;
  num_blocknode_allocated = 2;
}

-- a 2 MiB run, 512 blocks from block 512 on
abbrev two_large : SbInfo
two_large = record two {
  block_inuse_head = node 0 99 ∷ node 200 299 ∷ node 512 1023 ∷ [];
  num_free_blocks = 1336;
  num_blocknode_allocated = 3;
}

-- block 250 given back
abbrev split : SbInfo
split = record two {
  block_inuse_head = node 0 99 ∷ node 200 249 ∷ node 251 299 ∷ [];
  num_free_blocks = 1849;
  num_blocknode_allocated = 3;
}

new_block_4k :
    new_block true two type_4k
    ≡ allocated
        (record two { block_inuse_head = node 0 100 ∷ node 200 299 ∷ []; num_free_blocks = 1847 })
        100
unfolding new_block walk place fit align_down add64 sub64 get_numblocks
new_block_4k = refl

new_block_2m : new_block true two type_2m ≡ allocated two_large 512
unfolding new_block walk place fit align_down add64 sub64 get_numblocks
new_block_2m = refl

free_block_middle : free_block true two 250 type_4k ≡ freed split (some 2)
unfolding free_block release carve cut add64 sub64 get_numblocks
free_block_middle = refl

free_block_unused : free_block true two 150 type_4k ≡ error_mng
unfolding free_block release carve cut add64 sub64 get_numblocks
free_block_unused = refl

two-IsValid : IsValid two
two-IsValid = omega arith

new_block-NewRun_example : NewRun two two_large 512 512
unfolding get_numblocks
new_block-NewRun_example = new_block-NewRun true two type_2m two-IsValid new_block_2m

Hole-at_512 : Hole 2048 512 two.block_inuse_head 512
unfolding align_down
Hole-at_512 = record { aligned = refl; fits = omega arith; is_free = λ b h. ground arith }

new_block_complete_example :
    (sbi' : SbInfo) × (blocknr : ℕ) × (new_block true two type_2m ≡ allocated sbi' blocknr)
unfolding get_numblocks
new_block_complete_example =
    new_block_complete two type_2m (node 0 99) 512 two-IsValid (node 200 299 ∷ [], refl)
      (omega arith) Hole-at_512

free_block-FreedRun_example : FreedRun two split 1 250
unfolding get_numblocks
free_block-FreedRun_example =
    free_block-FreedRun true two 250 type_4k two-IsValid (omega arith) free_block_middle

free_block_from-hint_example :
    free_block_from true two 250 type_4k (some 1) ≡ free_block true two 250 type_4k
free_block_from-hint_example = free_block_from-hint true two 250 type_4k (some 1) two-IsValid

free_block_complete_example :
    (sbi' : SbInfo) × (hint : Hint) × (free_block true two 250 type_4k ≡ freed sbi' hint)
unfolding get_numblocks
free_block_complete_example = free_block_complete two 250 type_4k two-IsValid (λ b h. ground arith)

free_block-new_block_example :
    (sbi'' : SbInfo) × (hint : Hint) × (free_block true two_large 512 type_2m ≡ freed sbi'' hint)
    × SameBlocks two sbi''
free_block-new_block_example =
    free_block-new_block true two type_2m two-IsValid (omega arith) new_block_2m

Steps-balance_example : IsValid two_large × (balance two_large ≡ balance two)
Steps-balance_example = Steps-balance (next here (alloc true type_2m 512 new_block_2m)) two-IsValid

-- a device of 16 GiB
abbrev blank : SbInfo
blank = record {
  block_inuse_head = [];
  block_start = 0;
  block_end = 4 * 1024 * 1024;
  num_free_blocks = 4 * 1024 * 1024;
  num_blocknode_allocated = 0;
}

blank-IsBlank : IsBlank blank
blank-IsBlank = record {
  from_zero = refl;
  no_nodes = refl;
  no_count = refl;
  all_free = refl;
  small = omega arith;
}

-- 4 KiB and a journal of 4 MiB
init_blockmap-IsValid_example :
    IsValid (init_blockmap blank 4198400)
    × ((b : ℕ) → used (init_blockmap blank 4198400).block_inuse_head b ≡ ltb b 1025)
init_blockmap-IsValid_example =
    init_blockmap-IsValid 4198400 blank-IsBlank (omega arith) (omega arith)

count_free_blocks-init_blockmap_example :
    4 * 1024 * 1024 < count_free_blocks (init_blockmap blank 4198400)
count_free_blocks-init_blockmap_example =
    count_free_blocks-init_blockmap 4198400 blank-IsBlank (omega arith) (omega arith) (omega arith)
