-- ===== src/Tree/Blocks.antt =====
-- recursive_alloc_blocks and __pmfs_alloc_blocks of inode.c: blocks for a range of a file.
use pmfs.Base.{ℕ, zero, suc, ◌+◌, ◌-◌, ◌/◌, ◌%◌, Bool, true, false, ◌&&◌, ◌==◌, if◌then◌else◌}
use pmfs.Base.Words.{add64}
use pmfs.Balloc.{SbInfo, BlockType, type_4k, get_numblocks, NewBlock, allocated, enospc, new_block}
use pmfs.Tree.{Nodes, span, get_block_off, new_node}

-- What the allocation of blocks changes: the allocator, the meta-data blocks, and of the inode the count
-- of blocks and the flag EOFBLOCKS. Locks, the journal and the contents of data blocks are left out.
pub record Blocks : Type 0 where
  pub sbi : SbInfo
  pub nodes : Nodes
  pub i_blocks : ℕ
  pub eof_blocks : Bool

pub record AllocBlocks : Type 0 where
  pub blocks : Blocks
  -- whether no error is returned
  pub success : Bool

unfoldable pub set_entry : Nodes → (bp i off : ℕ) → Nodes
set_entry nodes bp i off p j = if p == bp && j == i then off else nodes p j

unfoldable pub put_data : BlockType → (bp i : ℕ) → Blocks → NewBlock → AllocBlocks
unfolding set_entry get_block_off get_numblocks add64
put_data btype bp i s (allocated sbi blocknr) = record {
  blocks = record s {
    sbi = sbi;
    nodes = set_entry s.nodes bp i (get_block_off blocknr);
    i_blocks = add64 s.i_blocks (get_numblocks btype);
  };
  success = true;
}
put_data btype bp i s enospc = record { blocks = record s { eof_blocks = true }; success = false }

-- The body of the loop for a node of height 1: a data block at index `i`.
unfoldable pub alloc_data : (mem : Bool) → BlockType → (bp i : ℕ) → Blocks → AllocBlocks
unfolding put_data
alloc_data mem btype bp i s =
    if s.nodes bp i == 0
    then put_data btype bp i s (new_block mem s.sbi btype)
    else record { blocks = s; success = true }

unfoldable pub put_node : (bp i : ℕ) → Blocks → NewBlock → AllocBlocks
unfolding set_entry get_block_off new_node
put_node bp i s (allocated sbi blocknr) =
    let off = get_block_off blocknr in
    record {
      blocks = record s { sbi = sbi; nodes = set_entry (new_node s.nodes off 0) bp i off };
      success = true;
    }
put_node bp i s enospc = record { blocks = s; success = false }

-- A zeroed meta-data block at index `i`, if there is none.
unfoldable pub alloc_node : (mem : Bool) → (bp i : ℕ) → Blocks → AllocBlocks
unfolding put_node
alloc_node mem bp i s =
    if s.nodes bp i == 0
    then put_node bp i s (new_block mem s.sbi type_4k)
    else record { blocks = s; success = true }

-- The next step, unless the last one failed.
unfoldable pub and_then : (Blocks → AllocBlocks) → AllocBlocks → AllocBlocks
and_then next r = if r.success then next r.blocks else r

-- The loop for `n` indices from `i` on.
unfoldable pub alloc_loop : (body : ℕ → Blocks → AllocBlocks) → (n i : ℕ) → Blocks → AllocBlocks
unfolding and_then
alloc_loop body zero i s = record { blocks = s; success = true }
alloc_loop body (suc n) i s = and_then (alloc_loop body n (i + 1)) (body i s)

-- `recursive_alloc_blocks` for a node of height `h + 1`
unfoldable pub recursive_alloc_blocks :
    (mem : Bool) → BlockType → (h bp first_blocknr last_blocknr : ℕ) → Blocks → AllocBlocks
unfolding alloc_data alloc_node alloc_loop span and_then
recursive_alloc_blocks mem btype zero bp first_blocknr last_blocknr s =
    alloc_loop (alloc_data mem btype bp) (last_blocknr + 1 - first_blocknr) first_blocknr s
recursive_alloc_blocks mem btype (suc h) bp first_blocknr last_blocknr s =
    let first_index = first_blocknr / span (suc h) in
    let last_index = last_blocknr / span (suc h) in
    alloc_loop
      (λ (i : ℕ) (s : Blocks).
        let first_blk = if i == first_index then first_blocknr % span (suc h) else 0 in
        let last_blk = if i == last_index then last_blocknr % span (suc h) else span (suc h) - 1 in
        and_then
          (λ (s : Blocks). recursive_alloc_blocks mem btype h (s.nodes bp i) first_blk last_blk s)
          (alloc_node mem bp i s))
      (last_index + 1 - first_index) first_index s
