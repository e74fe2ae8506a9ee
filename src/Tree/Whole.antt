-- ===== src/Tree/Whole.antt =====
-- __pmfs_alloc_blocks of inode.c, the lookup of a block of a file, and pmfs_decrease_btree_height.
use pmfs.Base.{
  ℕ, zero, suc, ◌+◌, ◌-◌, ◌*◌, ◌/◌, Bool, true, false, not, ◌&&◌, ◌||◌, ◌==◌, ltb, if◌then◌else◌,
}
use pmfs.Base.Words.{add64, sub64}
use pmfs.Balloc.{BlockType, get_numblocks, NewBlock, allocated, enospc, new_block}
use pmfs.Tree.{
  Tree, span, find_data_block, get_block_off, Increased, increase_btree_height,
  decrease_btree_height,
}
use pmfs.Tree.Blocks.{AllocBlocks, recursive_alloc_blocks}

-- the tree of an inode, its count of blocks of 4 KiB, and its flag EOFBLOCKS
pub record File : Type 0 where
  pub tree : Tree
  pub i_blocks : ℕ
  pub eof_blocks : Bool

-- `pmfs_find_data_block` for a block of the inode's own size, and offset 0 in it
unfoldable pub find_block : Tree → (blocknr : ℕ) → ℕ
unfolding find_data_block span
find_block t blocknr =
    if ltb blocknr (span t.height) then find_data_block t.nodes t.height t.root blocknr else 0

pub record AllocFile : Type 0 where
  pub file : File
  -- whether no error is returned
  pub success : Bool

-- `while (total_blocks > 0) { total_blocks = total_blocks >> meta_bits; height++; }`: the number of
-- turns; 64 bits are less than 8 times 9 bits, which is the fuel.
unfoldable pub levels : (fuel total_blocks : ℕ) → ℕ
levels zero total_blocks = 0
levels (suc fuel) total_blocks =
    let more = levels fuel (total_blocks / 512) in if total_blocks == 0 then 0 else suc more

-- The height at which the tree has a place for `last_blocknr`.
unfoldable pub needed_height : (height last_blocknr : ℕ) → ℕ
unfolding levels
needed_height height last_blocknr =
    if ltb last_blocknr (span height)
    then height
    else height + levels 8 (last_blocknr / span height)

unfoldable pub from_blocks : File → AllocBlocks → AllocFile
from_blocks f r = record {
  file = record f {
    tree = record f.tree { sbi = r.blocks.sbi; nodes = r.blocks.nodes };
    i_blocks = r.blocks.i_blocks;
    eof_blocks = r.blocks.eof_blocks;
  };
  success = r.success;
}

-- The call of `recursive_alloc_blocks`; a tree without levels has its only block already.
unfoldable pub alloc_at :
    (mem : Bool) → BlockType → (first_blocknr last_blocknr height : ℕ) → File → AllocFile
unfolding recursive_alloc_blocks from_blocks
alloc_at mem btype first_blocknr last_blocknr zero f = record { file = f; success = true }
alloc_at mem btype first_blocknr last_blocknr (suc h) f = from_blocks f (
    recursive_alloc_blocks mem btype h f.tree.root first_blocknr last_blocknr (record {
      sbi = f.tree.sbi;
      nodes = f.tree.nodes;
      i_blocks = f.i_blocks;
      eof_blocks = f.eof_blocks;
    }))

unfoldable pub alloc_grown :
    (mem : Bool)
    → BlockType
    → (first_blocknr last_blocknr height : ℕ) → File
    → Increased
    → AllocFile
unfolding alloc_at
alloc_grown mem btype first_blocknr last_blocknr height f r =
    let f' = record f { tree = r.tree } in
    if r.success
    then alloc_at mem btype first_blocknr last_blocknr height f'
    else record { file = f'; success = false }

-- the only block of a file without levels
unfoldable pub put_root : BlockType → File → NewBlock → AllocFile
unfolding get_block_off get_numblocks add64
put_root btype f (allocated sbi blocknr) = record {
  file = record f {
    tree = record f.tree { sbi = sbi; root = get_block_off blocknr; height = 0 };
    i_blocks = add64 f.i_blocks (get_numblocks btype);
  };
  success = true;
}
put_root btype f enospc = record { file = f; success = false }

-- `__pmfs_alloc_blocks` from block `first_blocknr` to block `last_blocknr`, in the inode's own blocks
unfoldable pub alloc_range :
    (mem : Bool) → BlockType → (first_blocknr last_blocknr : ℕ) → File → AllocFile
unfolding needed_height put_root alloc_grown increase_btree_height
alloc_range mem btype first_blocknr last_blocknr f =
    let height = needed_height f.tree.height last_blocknr in
    if not (ltb last_blocknr (span f.tree.height)) && ltb 3 height
    then record { file = f; success = false }
    else if f.tree.root == 0 && height == 0
    then put_root btype f (new_block mem f.tree.sbi btype)
    else alloc_grown mem btype first_blocknr last_blocknr height f
        (increase_btree_height mem (height - f.tree.height) f.tree)

-- `__pmfs_alloc_blocks`
unfoldable pub alloc_blocks : (mem : Bool) → BlockType → (file_blocknr num : ℕ) → File → AllocFile
unfolding alloc_range
alloc_blocks mem btype file_blocknr num f =
    let n = get_numblocks btype in
    alloc_range mem btype (file_blocknr / n) (sub64 (add64 file_blocknr num) 1 / n) f

pub data Decreased : Type 0 where
  decreased : Tree → Decreased
  -- `BUG_ON(newroot != 0)`
  bug_on : Decreased

-- the last block of a file of `newsize` bytes, in blocks of the type
unfoldable pub last_block : BlockType → (newsize : ℕ) → ℕ
unfolding get_numblocks add64 sub64
last_block btype newsize =
    let size = get_numblocks btype * 4096 in sub64 (sub64 (add64 newsize size) 1 / size) 1

-- Where the height is the same already, the root is left too.
unfoldable pub lower_to : (mem : Bool) → (new_height newroot : ℕ) → Tree → Tree
unfolding decrease_btree_height
lower_to mem new_height newroot t =
    if t.height == new_height
    then t
    else record (decrease_btree_height mem (t.height - new_height) (record t { root = newroot })) {
      height = new_height;
    }

-- `pmfs_decrease_btree_height`
unfoldable pub decrease_height :
    (mem : Bool) → BlockType → (i_blocks newsize newroot : ℕ) → Tree → Decreased
unfolding last_block levels lower_to
decrease_height mem btype i_blocks newsize newroot t =
    if i_blocks == 0 || newsize == 0
    then (if newroot == 0 then decreased (record t { root = 0; height = 0 }) else bug_on)
    else decreased (lower_to mem (levels 8 (last_block btype newsize)) newroot t)
