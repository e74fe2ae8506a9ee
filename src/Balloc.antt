-- ===== src/Balloc.antt =====
-- balloc.c, with the block nodes of super.c: the in-use list of block ranges. The doubly linked
-- `block_inuse_head` is a list, a `start_hint` is a position in it, and `mem` says whether the
-- kernel's slab allocator hands out a node. The locks are taken round whole operations.
pub mod Spec
pub mod Place
pub mod Search
mod Loop
pub mod Alloc
pub mod Free
pub mod Cycle
pub mod Init
mod Tests
use pmfs.Base.{
  ℕ, zero, suc, ◌+◌, ◌-◌, ◌*◌, ◌/◌, ◌%◌, ◌^◌, Bool, true, false, ◌&&◌, Option, none, some, List, [],
  ◌∷◌, ◌++◌, ltb, leb, ◌==◌, if◌then◌else◌, get_elem?, take, drop, length,
}
use pmfs.Base.Words.{add64, sub64, align_down}

pub record BlockNode : Type 0 where
  pub block_low : ℕ
  pub block_high : ℕ

abbrev pub node : ℕ → ℕ → BlockNode
node low high = record { block_low = low; block_high = high }

-- the fields of `struct pmfs_sb_info` that the block allocator keeps
pub record SbInfo : Type 0 where
  pub block_inuse_head : List BlockNode
  pub block_start : ℕ
  pub block_end : ℕ
  pub num_free_blocks : ℕ
  pub num_blocknode_allocated : ℕ

pub data BlockType : Type 0 where
  type_4k type_2m type_1g : BlockType

unfoldable pub get_numblocks : BlockType → ℕ
get_numblocks type_4k = 1
get_numblocks type_2m = 512
get_numblocks type_1g = 0x40000

-- what an operation does to `num_blocknode_allocated`
pub data NodeCount : Type 0 where
  same one_more one_less : NodeCount

unfoldable pub count_nodes : NodeCount → ℕ → ℕ
unfolding add64 sub64
count_nodes same k = k
count_nodes one_more k = add64 k 1
count_nodes one_less k = sub64 k 1

-- The four places that the walk of `pmfs_new_block` accepts for a candidate range, or none.
pub data Fit : Type 0 where
  skip fill left right middle : Fit

-- `fit high next low' high'`: the tests on the candidate `low' .. high'` between a node that ends
-- at `high` and the next one, which begins at `next`.
unfoldable pub fit : ℕ → ℕ → ℕ → ℕ → Fit
fit high next low' high' =
    if leb next high'
    then skip
    else if low' == add64 high 1 && high' == sub64 next 1
    then fill
    else if low' == add64 high 1 && ltb high' (sub64 next 1)
    then left
    else if ltb (add64 high 1) low' && high' == sub64 next 1
    then right
    else if ltb (add64 high 1) low' && ltb high' (sub64 next 1)
    then middle
    else skip

pub data Walk : Type 0 where
  placed : List BlockNode → NodeCount → ℕ → Walk
  no_memory no_room : Walk

-- the node `i` stays in front of what the walk of the others has done
unfoldable pub behind : BlockNode → Walk → Walk
behind i (placed nodes change low) = placed (i ∷ nodes) change low
behind i no_memory = no_memory
behind i no_room = no_room

-- The body of the loop at the node `i`, before `rest`, for the candidate `low' .. high'`.
unfoldable pub place : Bool → BlockNode → List BlockNode → ℕ → ℕ → Fit → Walk → Walk
unfolding behind
place mem i rest low' high' skip later = behind i later
place mem i [] low' high' fill later = placed (record i { block_high = high' } ∷ []) same low'
place mem i (j ∷ rest) low' high' fill later =
    placed (record i { block_high = j.block_high } ∷ rest) one_less low'
place mem i rest low' high' left later = placed (record i { block_high = high' } ∷ rest) same low'
place mem i [] low' high' right later =
    if mem then placed (i ∷ node low' high' ∷ []) one_more low' else no_memory
place mem i (j ∷ rest) low' high' right later =
    placed (i ∷ record j { block_low = low' } ∷ rest) same low'
place mem i rest low' high' middle later =
    if mem then placed (i ∷ node low' high' ∷ rest) one_more low' else no_memory

unfoldable pub next_block_low : ℕ → List BlockNode → ℕ
next_block_low block_end [] = block_end
next_block_low block_end (j ∷ rest) = j.block_low

-- The loop of `pmfs_new_block` over the nodes, for runs of `n` blocks aligned to `n`.
unfoldable pub walk : Bool → ℕ → ℕ → List BlockNode → Walk
unfolding next_block_low
walk mem block_end n [] = no_room
walk mem block_end n (i ∷ rest) =
    let low' = align_down (add64 i.block_high n) n in
    let high' = sub64 (add64 low' n) 1 in
    place mem i rest low' high' (fit i.block_high (next_block_low block_end rest) low' high')
      (walk mem block_end n rest)

pub data NewBlock : Type 0 where
  allocated : SbInfo → ℕ → NewBlock
  enospc : NewBlock

unfoldable pub take_blocks : SbInfo → ℕ → Walk → NewBlock
unfolding count_nodes
take_blocks sbi n (placed nodes change low') =
    allocated
      (record sbi {
        block_inuse_head = nodes;
        num_free_blocks = sub64 sbi.num_free_blocks n;
        num_blocknode_allocated = count_nodes change sbi.num_blocknode_allocated;
      })
      low'
take_blocks sbi n no_memory = enospc
take_blocks sbi n no_room = enospc

unfoldable pub new_block : Bool → SbInfo → BlockType → NewBlock
unfolding take_blocks
new_block mem sbi btype =
    let n = get_numblocks btype in take_blocks sbi n (walk mem sbi.block_end n sbi.block_inuse_head)

-- `some k` is a hint at the `k`-th node of the list.
abbrev pub Hint : Type 0
Hint = Option ℕ

-- `pmfs_next_blocknode`: `k` is the position of the next node, NULL at the end of the list
unfoldable pub next_blocknode : List BlockNode → ℕ → Hint
next_blocknode [] k = none
next_blocknode (j ∷ rest) k = some k

pub data Release : Type 0 where
  released : List BlockNode → NodeCount → Hint → Release
  -- the middle of a node, and no memory for the second half
  kept : Release
  not_found : Release

unfoldable pub suc_hint : Hint → Hint
suc_hint none = none
suc_hint (some k) = some (suc k)

unfoldable pub past : BlockNode → Release → Release
unfolding suc_hint
past i (released nodes change hint) = released (i ∷ nodes) change (suc_hint hint)
past i kept = kept
past i not_found = not_found

-- The tests of `__pmfs_free_block` on the run `low' .. high'` and the node `i`: the run is the
-- whole node, its left end, its right end or its middle, or the loop goes on.
unfoldable pub cut : BlockNode → ℕ → ℕ → Fit
cut i low' high' =
    if ltb i.block_high low'
    then skip
    else if low' == i.block_low && high' == i.block_high
    then fill
    else if low' == i.block_low && ltb high' i.block_high
    then left
    else if ltb i.block_low low' && high' == i.block_high
    then right
    else if ltb i.block_low low' && ltb high' i.block_high
    then middle
    else skip

-- The body of the loop at the node `i`, before `rest`. The hint counts from `i`.
unfoldable pub carve : Bool → BlockNode → List BlockNode → ℕ → ℕ → Fit → Release → Release
unfolding past next_blocknode
carve mem i rest low' high' skip later = past i later
carve mem i rest low' high' fill later = released rest one_less (next_blocknode rest 0)
carve mem i rest low' high' left later =
    released (record i { block_low = add64 high' 1 } ∷ rest) same (some 0)
carve mem i rest low' high' right later =
    released (record i { block_high = sub64 low' 1 } ∷ rest) same (next_blocknode rest 1)
carve mem i rest low' high' middle later =
    if mem
    then released
        (record i { block_high = sub64 low' 1 } ∷ node (add64 high' 1) i.block_high ∷ rest) one_more
        (some 1)
    else kept

-- The loop of `__pmfs_free_block` from a node on. The hint counts from the first node it visits.
unfoldable pub release : Bool → ℕ → ℕ → List BlockNode → Release
release mem low' high' [] = not_found
release mem low' high' (i ∷ rest) =
    carve mem i rest low' high' (cut i low' high') (release mem low' high' rest)

unfoldable pub past_all : List BlockNode → Release → Release
unfolding past
past_all [] r = r
past_all (i ∷ before) r = past i (past_all before r)

unfoldable pub start_node : ℕ → ℕ → Option BlockNode → ℕ
start_node low' k none = 0
start_node low' k (some i) = if leb i.block_low low' then k else 0

-- The node at which the loop begins: the hint's, unless it begins behind the run.
unfoldable pub start_at : ℕ → Hint → List BlockNode → ℕ
unfolding start_node
start_at low' none nodes = 0
start_at low' (some k) nodes = start_node low' k (get_elem? nodes k)

pub data FreeBlock : Type 0 where
  freed : SbInfo → Hint → FreeBlock
  -- the first is a failed `PMFS_ASSERT`, the second `pmfs_error_mng`: nothing is changed
  assertion_failed error_mng : FreeBlock
  -- `BUG_ON(list_empty(head))`
  bug : FreeBlock

unfoldable pub give_back : SbInfo → ℕ → Release → FreeBlock
unfolding count_nodes
give_back sbi n (released nodes change hint) =
    freed
      (record sbi {
        block_inuse_head = nodes;
        num_free_blocks = add64 sbi.num_free_blocks n;
        num_blocknode_allocated = count_nodes change sbi.num_blocknode_allocated;
      })
      hint
give_back sbi n kept = assertion_failed
give_back sbi n not_found = error_mng

unfoldable pub is_empty : List BlockNode → Bool
is_empty [] = true
is_empty (i ∷ rest) = false

-- `__pmfs_free_block`
unfoldable pub free_block_from : Bool → SbInfo → ℕ → BlockType → Hint → FreeBlock
unfolding give_back past_all start_at is_empty
free_block_from mem sbi blocknr btype hint =
    let n = get_numblocks btype in
    let high' = sub64 (add64 blocknr n) 1 in
    let nodes = sbi.block_inuse_head in
    let k = start_at blocknr hint nodes in
    if is_empty nodes
    then bug
    else give_back sbi n (past_all (take k nodes) (release mem blocknr high' (drop k nodes)))

-- `pmfs_free_block` passes no hint.
unfoldable pub free_block : Bool → SbInfo → ℕ → BlockType → FreeBlock
unfolding free_block_from
free_block mem sbi blocknr btype = free_block_from mem sbi blocknr btype none

unfoldable pub count_free_blocks : SbInfo → ℕ
count_free_blocks sbi = sbi.num_free_blocks

-- `pmfs_init_blockmap`. The in-use list is empty when it is called, and the node is the kernel's
-- first, so its allocation is taken to succeed.
unfoldable pub init_blockmap : SbInfo → ℕ → SbInfo
init_blockmap sbi init_used_size =
    let used = sub64 (add64 init_used_size 4096) 1 / 4096 in
    record sbi {
      block_inuse_head =
          node sbi.block_start (sub64 (add64 sbi.block_start used) 1) ∷ sbi.block_inuse_head;
      num_free_blocks = sub64 (sub64 sbi.num_free_blocks used) (25 * 1024 * 1024);
      num_blocknode_allocated = add64 sbi.num_blocknode_allocated 1;
    }
