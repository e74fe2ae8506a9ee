-- ===== src/Tree/Tests.antt =====
-- Runs of the b-tree's growth, and its theorems at a concrete tree.
use pmfs.Base.{
  ◌+◌, ◌||◌, ◌*◌, ◌/◌, ◌^◌, ◌≡◌, refl, true, false, [], ◌∷◌, arith, ◌==◌, if◌then◌else◌,
}
use pmfs.Base.Words.{add64, sub64, align_down}
use pmfs.Balloc.{
  free_block_from, release, carve, cut, SbInfo, node, type_4k, get_numblocks, new_block, walk, fit,
  place,
}
use pmfs.Tree.{
  Nodes, Tree, span, find_data_block, get_block_off, increase_btree_height, decrease_btree_height,
}
use pmfs.Tree.Frame.{IsOwned, IsTree}
use pmfs.Tree.Grow.{find_in, IncreasedBy, increase_btree_height-IncreasedBy}
use pmfs.Tree.Shrink.{decrease_btree_height-find}
use pmfs.Tree.Blocks.{Blocks, recursive_alloc_blocks}
use pmfs.Tree.Own.{InNodes, IsSound}
use pmfs.Tree.Extend.{IsDevice, ExtendsBy}
use pmfs.Tree.Range.{in_range}
use pmfs.Tree.Alloc.{recursive_alloc_blocks-Extends}
use pmfs.Tree.Whole.{File, find_block, alloc_range, alloc_blocks}
use pmfs.Tree.File.{IsFile}
use pmfs.Tree.Filled.{FilledBy}
use pmfs.Tree.Truncate.{Truncated, recursive_truncate_blocks}
use pmfs.Tree.Progress.{Loses}
use pmfs.Tree.Truncation.{recursive_truncate_blocks-Loses}
use pmfs.Balloc.Spec.{used}
use pmfs.Tree.Whole.{decreased, bug_on, decrease_height}
use pmfs.Tree.Lower.{LoweredTo, decrease_height-LoweredTo}
use pmfs.Tree.Fill.{alloc_blocks-FilledBy}

-- a file of one block, number 50, with blocks 0 to 99 of 2048 in use
abbrev small : Tree
small = record {
  sbi = record {
    block_inuse_head = node 0 99 ∷ [];
    block_start = 0;
    block_end = 2048;
    num_free_blocks = 1948;
    num_blocknode_allocated = 1;
  };
  nodes = λ p i. 0;
  root = 50 * 4096;
  height = 0;
}

small-IsTree : IsTree small
unfolding IsOwned
small-IsTree = record {
  valid = omega arith;
  small = omega arith;
  super_used = refl;
  owned = tt;
  no_root = λ z. refl;
}

-- block 100 becomes the root
abbrev grown : Tree
grown = record {
  sbi = record {
    block_inuse_head = node 0 100 ∷ [];
    block_start = 0;
    block_end = 2048;
    num_free_blocks = 1947;
    num_blocknode_allocated = 1;
  };
  nodes = λ p i. if p == 100 * 4096 then (if i == 0 then 50 * 4096 else 0) else 0;
  root = 100 * 4096;
  height = 1;
}

increase_small : (increase_btree_height true 1 small).tree.root ≡ 100 * 4096
unfolding increase_btree_height new_block walk place fit align_down add64 sub64 get_numblocks
    get_block_off
increase_small = refl

find_grown : find_in grown 0 ≡ 50 * 4096
unfolding find_data_block span
find_grown = refl

increase_btree_height-IncreasedBy_example :
    IncreasedBy true 1 small (increase_btree_height true 1 small)
increase_btree_height-IncreasedBy_example =
    increase_btree_height-IncreasedBy true 1 small small-IsTree

decrease_btree_height-find_example :
    ((decrease_btree_height true 1 grown).height ≡ 0)
    × (find_in (decrease_btree_height true 1 grown) 0 ≡ find_in grown 0)
unfolding span find_data_block
decrease_btree_height-find_example =
    decrease_btree_height-find true 1 0 grown 0 0 refl (omega arith) (λ z. omega (arith, z))
      (omega arith)

abbrev no_nodes : Nodes
no_nodes p i = 0

abbrev device : SbInfo
device = record {
  block_inuse_head = node 0 99 ∷ [];
  block_start = 0;
  block_end = 2048;
  num_free_blocks = 1948;
  num_blocknode_allocated = 1;
}

device-IsDevice : IsDevice device
device-IsDevice = record { valid = small-IsTree.valid; small = omega arith; super_used = refl }

-- block 10 is an empty node
abbrev one_node : Blocks
one_node = record { sbi = device; nodes = no_nodes; i_blocks = 0; eof_blocks = false }

one_node-IsSound : IsSound device no_nodes 1 (10 * 4096)
unfolding IsSound
one_node-IsSound =
    (refl, λ i lt ne. tt, λ i lt ne. absurd (ne refl), λ i j p lt lt' ne. absurd (ne refl))

recursive_alloc_blocks-Extends_example :
    ExtendsBy one_node 1
      (10 * 4096)
      (in_range 2 4)
      (recursive_alloc_blocks true type_4k 0 (10 * 4096) 2 4 one_node)
unfolding span
recursive_alloc_blocks-Extends_example =
    recursive_alloc_blocks-Extends true type_4k 0 (10 * 4096) 2 4 one_node (omega arith)
      (omega arith) device-IsDevice one_node-IsSound

abbrev empty : File
empty = record {
  tree = record { sbi = device; nodes = no_nodes; root = 0; height = 0 };
  i_blocks = 0;
  eof_blocks = false;
}

empty-IsFile : IsFile empty.tree
empty-IsFile = record {
  device = device-IsDevice;
  sound = λ ne. absurd (ne refl);
  no_root = λ z. refl;
}

-- blocks 1 to 3: block 100 becomes the root, blocks 101 to 103 stand in it
alloc_empty : (alloc_blocks true type_4k 1 3 empty).success ≡ true
unfolding alloc_blocks alloc_range sub64 new_block walk place fit align_down
alloc_empty = refl

alloc_empty_root : (alloc_blocks true type_4k 1 3 empty).file.tree.root ≡ 100 * 4096
unfolding alloc_blocks alloc_range sub64 new_block walk place fit align_down
alloc_empty_root = refl

alloc_empty_last : find_block (alloc_blocks true type_4k 1 3 empty).file.tree 3 ≡ 103 * 4096
unfolding alloc_blocks alloc_range find_block sub64 new_block walk place fit align_down
alloc_empty_last = refl

alloc_empty_count : (alloc_blocks true type_4k 1 3 empty).file.i_blocks ≡ 3
unfolding alloc_blocks alloc_range sub64 new_block walk place fit align_down
alloc_empty_count = refl

-- A file of four levels is refused.
alloc_too_large : (alloc_blocks true type_4k (2 ^ 30) 1 empty).success ≡ false
unfolding alloc_blocks alloc_range sub64
alloc_too_large = refl

alloc_blocks-FilledBy_example :
    FilledBy empty.tree
      (1 / get_numblocks type_4k)
      (3 / get_numblocks type_4k)
      (alloc_blocks true type_4k 1 3 empty)
alloc_blocks-FilledBy_example =
    alloc_blocks-FilledBy true type_4k 1 3 empty empty-IsFile (omega arith) (omega arith)

-- node 10 with the blocks 20, 21 and 22 at 0, 2 and 3
abbrev three_entries : Nodes
three_entries p i =
    if p == 10 * 4096
    then (if i == 0 then 20 * 4096 else if i == 2 || i == 3 then (19 + i) * 4096 else 0)
    else 0

three_entries-IsSound : IsSound device three_entries 1 (10 * 4096)
unfolding IsSound InNodes
three_entries-IsSound = (refl, λ i lt ne. tt, λ i lt ne m. m, λ i j p lt lt' ne ne' m m'. absurd m)

abbrev truncate_two : Truncated
truncate_two = recursive_truncate_blocks true type_4k 0 (10 * 4096) 1 5 device three_entries

truncate_two_count : (truncate_two.freed_count ≡ 2) × (truncate_two.meta_empty ≡ false)
unfolding recursive_truncate_blocks free_block_from release carve cut get_numblocks
truncate_two_count = (refl, refl)

truncate_two_entries :
    (truncate_two.nodes (10 * 4096) 0 ≡ 20 * 4096)
    × (truncate_two.nodes (10 * 4096) 2 ≡ 0)
    × (truncate_two.nodes (10 * 4096) 3 ≡ 0)
unfolding recursive_truncate_blocks free_block_from release carve cut get_numblocks
truncate_two_entries = (refl, refl, refl)

truncate_two_free : used truncate_two.sbi.block_inuse_head 22 ≡ false
unfolding recursive_truncate_blocks free_block_from release carve cut get_numblocks
truncate_two_free = refl

recursive_truncate_blocks-Loses_example :
    Loses three_entries truncate_two.nodes 1 (10 * 4096) (in_range 1 5) truncate_two.meta_empty
unfolding span
recursive_truncate_blocks-Loses_example =
    recursive_truncate_blocks-Loses true type_4k 0 (10 * 4096) 1 5 device three_entries
      (omega arith) (omega arith) (omega arith) three_entries-IsSound

decrease_to_first :
    decrease_height true type_4k 1 100 grown.root grown
    ≡ decreased (decrease_btree_height true 1 grown)
unfolding decrease_height
decrease_to_first = refl

decrease_root_left : decrease_height true type_4k 0 100 grown.root grown ≡ bug_on
unfolding decrease_height
decrease_root_left = refl

decrease_height-LoweredTo_example :
    (t' : Tree) × (decrease_height true type_4k 1 100 grown.root grown ≡ decreased t')
    × LoweredTo type_4k 100 grown t' 0
unfolding get_numblocks
decrease_height-LoweredTo_example =
    decrease_height-LoweredTo true type_4k 1 100 grown 0 0 (λ z. omega (arith, z)) (omega arith)
      (omega arith) (unfold span in omega arith) (omega arith)
      (unfold find_data_block span in λ z. omega (arith, z)) (omega arith)
