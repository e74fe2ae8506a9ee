-- ===== src/Sync/Tests.antt =====
-- Runs of alloc_addr_info, and its theorems at a concrete state.
use pmfs.Base.{◌+◌, ◌*◌, ◌^◌, ◌≤◌, ◌<◌, ◌≡◌, refl, true, ◌∷◌, some, arith}
use pmfs.Base.Words.{add64}
use pmfs.Inodes.{Table, is_free, blank_inodes, successful, created, take_inode, new_inode}
use pmfs.Inodes.Search.{free_at}
use pmfs.Sync.{
  AddrInfo, State, grow_table, set_inode_base, advance, Handed, hand_out, alloc_addr_info,
}
use pmfs.Sync.Addr.{
  no_calls, Ahead, IsSmall, alloc_addr_info_enough, alloc_addr_info-new_inode,
  alloc_addr_info-Ahead,
}

-- 4 inodes in use and 12 free ones, and a super block as pmfs_init leaves it
abbrev fresh : State
fresh = record {
  super = record {
    nvm_block_addr = 0;
    ssd1_block_addr = 1;
    ssd2_block_addr = 1;
    ssd3_block_addr = 1;
    u_free_inode_base = 0;
  };
  table = record {
    inodes =
        record { i_links_count = 1; i_mode = 1; i_dtime = 0 }
        ∷ record { i_links_count = 1; i_mode = 1; i_dtime = 0 }
        ∷ record { i_links_count = 1; i_mode = 1; i_dtime = 0 }
        ∷ record { i_links_count = 1; i_mode = 1; i_dtime = 0 }
        ∷ blank_inodes 12;
    s_free_inodes_count = 12;
    s_free_inode_hint = 4;
  };
}

alloc_addr_info_enough_example : (h : Handed) × (alloc_addr_info 32 true 101 100 fresh ≡ some h)
alloc_addr_info_enough_example = alloc_addr_info_enough 32 100 fresh (omega arith) (omega arith)

alloc_addr_info-new_inode_example :
    (h : Handed) × (alloc_addr_info 32 true 1 10 fresh ≡ some h)
    × (new_inode 1 32 (successful true) h.state.table ≡ created (take_inode 1 h.state.table 11) 11)
    × (h.info.u_free_inode_base ≤ 11 * 2 ^ 7)
    × (11 * 2 ^ 7 < h.info.u_free_inode_base + 10 * 2 ^ 7)
alloc_addr_info-new_inode_example =
    alloc_addr_info-new_inode 1 32 10 true true fresh refl (omega arith) (omega arith) (omega arith)
      (omega arith) (unfold blank_inodes in omega arith)
      (unfold blank_inodes free_at is_free in refl)

abbrev first_info : AddrInfo
first_info = record {
  nvm_block_addr = 1048576;
  ssd1_block_addr = 1;
  ssd2_block_addr = 1;
  ssd3_block_addr = 1;
  u_free_inode_base = 512;
}

abbrev second_info : AddrInfo
second_info = record {
  nvm_block_addr = 1572864;
  ssd1_block_addr = 1048577;
  ssd2_block_addr = 1048577;
  ssd3_block_addr = 1048577;
  u_free_inode_base = 612;
}

abbrev third_info : AddrInfo
third_info = record {
  nvm_block_addr = 2097152;
  ssd1_block_addr = 2097153;
  ssd2_block_addr = 2097153;
  ssd3_block_addr = 2097153;
  u_free_inode_base = 712;
}

abbrev given : Table
given = record fresh.table { s_free_inode_hint = 11 }

abbrev first : Handed
first = record { info = first_info; state = record { super = second_info; table = given } }

abbrev second : Handed
second = record { info = second_info; state = record { super = third_info; table = given } }

first_run : alloc_addr_info 32 true 1 10 fresh ≡ some first
unfolding alloc_addr_info hand_out advance add64 set_inode_base grow_table
first_run = refl

second_run : alloc_addr_info 32 true 1 10 first.state ≡ some second
unfolding alloc_addr_info hand_out advance add64 set_inode_base grow_table
second_run = refl

first_info-IsSmall : IsSmall 1 first_info
first_info-IsSmall = record {
  nvm = omega arith;
  ssd1 = omega arith;
  ssd2 = omega arith;
  ssd3 = omega arith;
  base = omega arith;
}

alloc_addr_info-Ahead_example : Ahead 1 first_info second_info
alloc_addr_info-Ahead_example =
    alloc_addr_info-Ahead 32 true 0 1 1 10 10 fresh first.state first second first_run
      (no_calls first.state) second_run first_info-IsSmall
