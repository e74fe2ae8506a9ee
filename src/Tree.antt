-- ===== src/Tree.antt =====
-- The b-tree of an inode in inode.c and pmfs.h: how it maps the blocks of a file, and how it grows
-- and shrinks by levels. A meta-data block is the function from its indices to the offsets stored
-- there; the allocator of block numbers is the one of balloc.c.
pub mod Frame
pub mod Grow
pub mod Shrink
mod Blocks
mod Own
mod Extend
mod Replace
mod Child
mod Taken
mod Entered
mod Entry
mod Range
mod Alloc
mod Whole
mod File
mod Height
mod Filled
mod Fill
mod Lower
mod Truncate
mod Progress
mod Closing
mod Steps
mod Truncation
mod Tests
use pmfs.Base.{ℕ, zero, suc, ◌+◌, ◌-◌, ◌*◌, ◌/◌, ◌%◌, ◌^◌, Bool, true, false, ◌==◌, if◌then◌else◌}
use pmfs.Balloc.{
  SbInfo, type_4k, NewBlock, allocated, enospc, new_block, FreeBlock, freed, assertion_failed,
  error_mng, bug, free_block,
}

abbrev pub Nodes : Type 0
Nodes = ℕ → ℕ → ℕ

-- The allocator, the meta-data blocks, and `root` and `height` of the inode; 0 is no offset.
pub record Tree : Type 0 where
  pub sbi : SbInfo
  pub nodes : Nodes
  pub root : ℕ
  pub height : ℕ

-- 1 << (height * META_BLK_SHIFT), the blocks that a tree of the height maps
unfoldable pub span : ℕ → ℕ
span zero = 1
span (suc height) = 512 * span height

-- `__pmfs_find_data_block`
unfoldable pub find_data_block : Nodes → (height bp blocknr : ℕ) → ℕ
unfolding span
find_data_block nodes zero bp blocknr = bp
find_data_block nodes (suc height) bp blocknr =
    let bp' = nodes bp (blocknr / span height) in
    let rest = find_data_block nodes height bp' (blocknr % span height) in
    if bp' == 0 then 0 else rest

unfoldable pub get_block_off : ℕ → ℕ
get_block_off blocknr = blocknr * 4096 % 2 ^ 64

-- `pmfs_get_blocknr` for blocks of 4 KiB
unfoldable pub get_blocknr : ℕ → ℕ
get_blocknr off = off / 4096

-- A zeroed block at `bp` with `child` at index 0.
unfoldable pub new_node : Nodes → (bp child : ℕ) → Nodes
new_node nodes bp child p i = if p == bp then (if i == 0 then child else 0) else nodes p i

pub record Increased : Type 0 where
  pub tree : Tree
  -- whether no error is returned
  pub success : Bool

unfoldable pub add_level : (Tree → Increased) → Tree → NewBlock → Increased
unfolding get_block_off new_node
add_level again t enospc = record { tree = t; success = false }
add_level again t (allocated sbi blocknr) =
    let bp = get_block_off blocknr in
    again
      (record { sbi = sbi; nodes = new_node t.nodes bp t.root; root = bp; height = suc t.height })

-- `pmfs_increase_btree_height` by `levels`; `mem` is for the allocator.
unfoldable pub increase_btree_height : (mem : Bool) → (levels : ℕ) → Tree → Increased
unfolding add_level
increase_btree_height mem zero t = record { tree = t; success = true }
increase_btree_height mem (suc levels) t =
    add_level (λ t'. increase_btree_height mem levels t') t (new_block mem t.sbi type_4k)

-- What `pmfs_free_block` leaves: it returns no error, and its failures change nothing.
unfoldable pub freed_state : SbInfo → FreeBlock → SbInfo
freed_state sbi (freed sbi' hint) = sbi'
freed_state sbi assertion_failed = sbi
freed_state sbi error_mng = sbi
freed_state sbi bug = sbi

-- The loop of `pmfs_decrease_btree_height`, `levels` times.
unfoldable pub decrease_btree_height : (mem : Bool) → (levels : ℕ) → Tree → Tree
unfolding freed_state get_blocknr
decrease_btree_height mem zero t = t
decrease_btree_height mem (suc levels) t = decrease_btree_height mem levels (record t {
  sbi = freed_state t.sbi (free_block mem t.sbi (get_blocknr t.root) type_4k);
  root = t.nodes t.root 0;
  height = t.height - 1;
})
