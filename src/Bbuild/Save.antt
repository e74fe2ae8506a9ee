-- ===== src/Bbuild/Save.antt =====
-- The saved in-use list of bbuild.c: pmfs_save_blocknode_mappings at unmount writes it to the blocks of
-- a reserved inode, and pmfs_can_skip_full_scan reads it back at mount.
use pmfs.Base.{
  ℕ, zero, suc, ◌+◌, ◌*◌, ◌/◌, ◌%◌, ◌^◌, List, [], ◌∷◌, ◌++◌, ◌&&◌, ◌==◌, if◌then◌else◌,
}
use pmfs.Base.Words.{add64, sub64}
use pmfs.Balloc.{BlockNode, SbInfo}
use pmfs.Bbuild.Scan.{MountState}

-- Data blocks of 256 `struct pmfs_blocknode_lowhigh`, by their offset and index.
abbrev pub Pages : Type 0
Pages = ℕ → ℕ → BlockNode

unfoldable pub write_node : Pages → (p j : ℕ) → BlockNode → Pages
write_node pages p j i p' j' = if p' == p && j' == j then i else pages p' j'

-- the number of blocks that `num_blocknode_allocated` nodes of 16 bytes take
unfoldable pub num_blocks : ℕ → ℕ
num_blocks num_blocknode_allocated = sub64 (num_blocknode_allocated * 16 % 2 ^ 64) 1 / 4096 + 1

-- The loop of `pmfs_save_blocknode_mappings` over the nodes; `find blocknr` is what
-- `__pmfs_find_data_block` returns.
unfoldable pub save_nodes : (find : ℕ → ℕ) → (j k p : ℕ) → List BlockNode → Pages → Pages
unfolding write_node
save_nodes find j k p [] pages = pages
save_nodes find j k p (i ∷ rest) pages =
    let p' = if j == 0 then find (k / 256) else p in
    let j' = if j + 1 == 256 then 0 else j + 1 in
    save_nodes find j' (k + 1) p' rest (write_node pages p' j i)

-- the fields of the super block for a fast mount
pub record FastMount : Type 0 where
  pub s_num_blocknode_allocated : ℕ
  pub s_num_free_blocks : ℕ
  pub s_inodes_count : ℕ
  pub s_free_inodes_count : ℕ
  pub s_inodes_used_count : ℕ
  pub s_free_inode_hint : ℕ

unfoldable pub save_counters : MountState → FastMount
save_counters s = record {
  s_num_blocknode_allocated = s.sbi.num_blocknode_allocated;
  s_num_free_blocks = s.sbi.num_free_blocks;
  s_inodes_count = s.s_inodes_count;
  s_free_inodes_count = s.s_free_inodes_count;
  s_inodes_used_count = s.s_inodes_used_count;
  s_free_inode_hint = s.s_free_inode_hint;
}

pub record Saved : Type 0 where
  pub pages : Pages
  pub super : FastMount

-- `pmfs_save_blocknode_mappings` from the state in which the blocks for the nodes are allocated on
unfoldable pub save_blocknode_mappings : (find : ℕ → ℕ) → MountState → Pages → Saved
unfolding save_nodes save_counters
save_blocknode_mappings find s pages = record {
  pages = save_nodes find 0 0 0 s.sbi.block_inuse_head pages;
  super = save_counters s;
}

-- The loop of `pmfs_init_blockmap_from_inode` for the `n` nodes from number `i` on. A node's
-- allocation is taken to succeed, and `find` to return an offset that is not 0, as the two assertions of
-- the code ask for.
unfoldable pub load_nodes : (find : ℕ → ℕ) → Pages → (n i p : ℕ) → SbInfo → SbInfo
load_nodes find pages zero i p sbi = sbi
load_nodes find pages (suc n) i p sbi =
    let index = i % 256 in
    let p' = if index == 0 then find (i / 256) else p in
    load_nodes find pages n (i + 1) p' (record sbi {
      block_inuse_head = sbi.block_inuse_head ++ pages p' index ∷ [];
      num_blocknode_allocated = add64 sbi.num_blocknode_allocated 1;
    })

unfoldable pub init_blockmap_from_inode : (find : ℕ → ℕ) → Pages → SbInfo → SbInfo
unfolding load_nodes
init_blockmap_from_inode find pages sbi =
    load_nodes find pages sbi.num_blocknode_allocated 0 0
      (record sbi { num_blocknode_allocated = 0 })

unfoldable pub load_counters : FastMount → SbInfo → MountState
load_counters super sbi = record {
  sbi = record sbi {
    num_blocknode_allocated = super.s_num_blocknode_allocated;
    num_free_blocks = super.s_num_free_blocks;
  };
  s_inodes_count = super.s_inodes_count;
  s_free_inodes_count = super.s_free_inodes_count;
  s_inodes_used_count = super.s_inodes_used_count;
  s_free_inode_hint = super.s_free_inode_hint;
}

-- The state of `pmfs_can_skip_full_scan` when it begins to free the blocks of the saved list.
unfoldable pub load_blocknode_mappings : (find : ℕ → ℕ) → Saved → SbInfo → MountState
unfolding init_blockmap_from_inode load_counters
load_blocknode_mappings find saved sbi =
    let s = load_counters saved.super sbi in
    record s { sbi = init_blockmap_from_inode find saved.pages s.sbi }
