-- ===== src/Sync.antt =====
-- sync_meta.c: what the kernel hands to user space, which writes to the device by itself.
pub mod Addr
mod Tests
use pmfs.Base.{
  ℕ, zero, suc, ◌+◌, ◌-◌, ◌*◌, ◌/◌, ◌%◌, ◌^◌, Bool, true, false, Option, none, some, ltb, ◌==◌,
  if◌then◌else◌,
}
use pmfs.Base.Words.{add64}
use pmfs.Inodes.{Table, increase_table}

-- `struct kernelfs_addr_info`, and the fields of the super block that it comes from
pub record AddrInfo : Type 0 where
  pub nvm_block_addr : ℕ
  pub ssd1_block_addr : ℕ
  pub ssd2_block_addr : ℕ
  pub ssd3_block_addr : ℕ
  pub u_free_inode_base : ℕ

-- the super block, and the inode table
pub record State : Type 0 where
  pub super : AddrInfo
  pub table : Table

-- `while (sbi->s_free_inodes_count < num_inodes) pmfs_increase_inode_table_size(sb)`; `none` when the
-- fuel ends first. `room` says whether the table can grow.
unfoldable pub grow_table :
    (per_block : ℕ) (room : Bool) (fuel num_inodes : ℕ) → Table → Option Table
unfolding increase_table
grow_table per_block room zero num_inodes s = none
grow_table per_block room (suc fuel) num_inodes s =
    let s' = if room then increase_table per_block s else s in
    let rest = grow_table per_block room fuel num_inodes s' in
    if ltb s.s_free_inodes_count num_inodes then rest else some s

-- the first call finds no base for the inodes of user space
unfoldable pub set_inode_base : (num_inodes : ℕ) → AddrInfo → Option Table → Option State
set_inode_base num_inodes super none = none
set_inode_base num_inodes super (some s) = some (record {
  super = record super { u_free_inode_base = s.s_free_inode_hint * 2 ^ 7 % 2 ^ 32 };
  table = record s { s_free_inode_hint = (num_inodes + 1) % 2 ^ 32 };
})

-- what the second half of `alloc_addr_info` leaves in the super block
unfoldable pub advance : AddrInfo → AddrInfo
unfolding add64
advance super = record {
  nvm_block_addr = add64 super.nvm_block_addr 524288;
  ssd1_block_addr = add64 super.ssd1_block_addr 1048576;
  ssd2_block_addr = add64 super.ssd2_block_addr 1048576;
  ssd3_block_addr = add64 super.ssd3_block_addr 1048576;
  u_free_inode_base = add64 super.u_free_inode_base 100;
}

pub record Handed : Type 0 where
  pub info : AddrInfo
  pub state : State

unfoldable pub hand_out : Option State → Option Handed
unfolding advance
hand_out none = none
hand_out (some s) = some (record { info = s.super; state = record s { super = advance s.super } })

-- `alloc_addr_info`
unfoldable pub alloc_addr_info :
    (per_block : ℕ) (room : Bool) (fuel num_inodes : ℕ) → State → Option Handed
unfolding hand_out set_inode_base grow_table
alloc_addr_info per_block room fuel num_inodes s =
    let nvm = if s.super.nvm_block_addr == 0 then 1024 * 1024 else s.super.nvm_block_addr in
    let super = record s.super { nvm_block_addr = nvm } in
    let first =
      set_inode_base num_inodes super (grow_table per_block room fuel num_inodes s.table) in
    hand_out (if super.u_free_inode_base == 0 then first else some (record s { super = super }))
