-- ===== src/Tree/Truncate.antt =====
-- recursive_truncate_blocks and pmfs_free_inode_subtree of inode.c: the release of a range of a file.
use pmfs.Base.{
  ℕ, zero, suc, ◌+◌, ◌-◌, ◌/◌, ◌%◌, ◌^◌, Bool, true, false, not, ◌&&◌, ◌==◌, leb, if◌then◌else◌,
  none,
}
use pmfs.Balloc.{
  SbInfo, BlockType, type_4k, Hint, FreeBlock, freed, assertion_failed, error_mng, bug, free_block,
  free_block_from,
}
use pmfs.Tree.{Nodes, span, get_blocknr, freed_state}

-- What the release of blocks has done: the allocator, the meta-data blocks, and the count of data blocks
-- that it has freed (32 bits). Whether the node is empty now is `meta_empty`; then its entries are left.
pub record Truncated : Type 0 where
  pub sbi : SbInfo
  pub nodes : Nodes
  pub freed_count : ℕ
  pub meta_empty : Bool

-- The variables of the loops; `last` is the code's `end`.
pub record Truncate : Type 0 where
  pub sbi : SbInfo
  pub nodes : Nodes
  pub freed_count : ℕ
  pub start_hint : Hint
  pub start : ℕ
  pub last : ℕ
  pub all_range_freed : Bool

-- whether `n` entries from `i` on are 0
unfoldable pub are_zero : (node : ℕ → ℕ) → (n i : ℕ) → Bool
are_zero node zero i = true
are_zero node (suc n) i = node i == 0 && are_zero node n (i + 1)

-- `is_empty_meta_block`
unfoldable pub is_empty_meta_block : (node : ℕ → ℕ) → (start_idx end_idx : ℕ) → Bool
unfolding are_zero
is_empty_meta_block node start_idx end_idx =
    are_zero node start_idx 0 && are_zero node (512 - (end_idx + 1)) (end_idx + 1)

-- `memset(&node[start], 0, ...)`, which clears nothing for an empty range
unfoldable pub clear_range : Nodes → (bp start last : ℕ) → Nodes
clear_range nodes bp start last p i = if p == bp && leb start i && leb i last then 0 else nodes p i

-- The end of `recursive_truncate_blocks`.
unfoldable pub close_node : (bp first_index last_index : ℕ) → Truncate → Truncated
unfolding is_empty_meta_block clear_range
close_node bp first_index last_index t =
    let meta_empty = t.all_range_freed && is_empty_meta_block (t.nodes bp) first_index last_index in
    record {
      sbi = t.sbi;
      nodes = if meta_empty then t.nodes else clear_range t.nodes bp t.start t.last;
      freed_count = t.freed_count;
      meta_empty = meta_empty;
    }

unfoldable pub count_freed : FreeBlock → Truncate → Truncate
count_freed (freed sbi hint) t = record t {
  sbi = sbi;
  start_hint = hint;
  freed_count = (t.freed_count + 1) % 2 ^ 32;
}
count_freed assertion_failed t = record t { freed_count = (t.freed_count + 1) % 2 ^ 32 }
count_freed error_mng t = record t { freed_count = (t.freed_count + 1) % 2 ^ 32 }
count_freed bug t = record t { freed_count = (t.freed_count + 1) % 2 ^ 32 }

-- The body of the loop for a node of height 1.
unfoldable pub free_data : (mem : Bool) → BlockType → (bp i : ℕ) → Truncate → Truncate
unfolding count_freed get_blocknr
free_data mem btype bp i t =
    if t.nodes bp i == 0
    then t
    else count_freed (free_block_from mem t.sbi (get_blocknr (t.nodes bp i)) btype t.start_hint) t

-- After the recursion below entry `i`: an empty node is freed, and of one that is not the entry stays.
unfoldable pub after_child :
    (mem : Bool) → (first_index last_index bp i : ℕ) → Truncate → Truncated → Truncate
unfolding freed_state get_blocknr
after_child mem first_index last_index bp i t r =
    let count = (t.freed_count + r.freed_count) % 2 ^ 32 in
    if r.meta_empty
    then record t {
      sbi = freed_state r.sbi (free_block mem r.sbi (get_blocknr (r.nodes bp i)) type_4k);
      nodes = r.nodes;
      freed_count = count;
    }
    else record t {
      sbi = r.sbi;
      nodes = r.nodes;
      freed_count = count;
      start = if i == first_index then t.start + 1 else t.start;
      last = if not (i == first_index) && i == last_index then t.last - 1 else t.last;
      all_range_freed = false;
    }

-- The body of the loop above; `below` is the recursion.
unfoldable pub free_child :
    (mem : Bool)
    → (below : (bp first_blk last_blk : ℕ) → SbInfo → Nodes → Truncated)
    → (n first_blocknr last_blocknr bp i : ℕ) → Truncate
    → Truncate
unfolding after_child
free_child mem below n first_blocknr last_blocknr bp i t =
    let first_index = first_blocknr / n in
    let last_index = last_blocknr / n in
    let first_blk = if i == first_index then first_blocknr % n else 0 in
    let last_blk = if i == last_index then last_blocknr % n else n - 1 in
    if t.nodes bp i == 0
    then t
    else after_child mem first_index last_index bp i t
        (below (t.nodes bp i) first_blk last_blk t.sbi t.nodes)

-- The loop for `n` indices from `i` on.
unfoldable pub truncate_loop : (body : ℕ → Truncate → Truncate) → (n i : ℕ) → Truncate → Truncate
truncate_loop body zero i t = t
truncate_loop body (suc n) i t = truncate_loop body n (i + 1) (body i t)

-- the variables in front of the loop
unfoldable pub begin : (first_index last_index : ℕ) → SbInfo → Nodes → Truncate
begin first_index last_index sbi nodes = record {
  sbi = sbi;
  nodes = nodes;
  freed_count = 0;
  start_hint = none;
  start = first_index;
  last = last_index;
  all_range_freed = true;
}

-- `recursive_truncate_blocks` for a node of height `h + 1`
unfoldable pub recursive_truncate_blocks :
    (mem : Bool) → BlockType → (h bp first_blocknr last_blocknr : ℕ) → SbInfo → Nodes → Truncated
unfolding free_data free_child truncate_loop begin close_node span
recursive_truncate_blocks mem btype zero bp first_blocknr last_blocknr sbi nodes =
    close_node bp first_blocknr last_blocknr (
      truncate_loop (free_data mem btype bp) (last_blocknr + 1 - first_blocknr) first_blocknr
        (begin first_blocknr last_blocknr sbi nodes))
recursive_truncate_blocks mem btype (suc h) bp first_blocknr last_blocknr sbi nodes =
    let n = span (suc h) in
    let first_index = first_blocknr / n in
    let last_index = last_blocknr / n in
    close_node bp first_index last_index (
      truncate_loop
        (free_child mem
          (λ bp' a b sbi' nodes'. recursive_truncate_blocks mem btype h bp' a b sbi' nodes') n
          first_blocknr last_blocknr bp)
        (last_index + 1 - first_index) first_index (begin first_index last_index sbi nodes))
