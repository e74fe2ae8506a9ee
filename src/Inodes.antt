-- ===== src/Inodes.antt =====
-- The inode table in inode.c: pmfs_new_inode, pmfs_free_inode and the growth of the table. The table
-- is the list of its inodes by number, as far as their allocation reads them; the free-inode hint and
-- the counter are 32 bits wide. `now` is the time, and how the calls out of this part end is an argument.
pub mod Search
mod Hint
pub mod Alloc
mod Tests
use pmfs.Base.{
  ℕ, zero, suc, ◌+◌, ◌-◌, ◌%◌, ◌^◌, Bool, true, false, ◌&&◌, ◌||◌, not, Option, none, some, List,
  [], ◌∷◌, ◌++◌, ltb, ◌==◌, if◌then◌else◌, length, drop, get_elem?, set,
}

pub record Inode : Type 0 where
  pub i_links_count : ℕ
  pub i_mode : ℕ
  pub i_dtime : ℕ

abbrev pub hint_start : ℕ
hint_start = 3

-- The table of `struct pmfs_sb_info`; `s_inodes_count` is the length of the list.
pub record Table : Type 0 where
  pub inodes : List Inode
  pub s_free_inodes_count : ℕ
  pub s_free_inode_hint : ℕ

unfoldable pub is_free : Inode → Bool
is_free pi = pi.i_links_count == 0 && (pi.i_mode == 0 || not (pi.i_dtime == 0))

-- The scan of `pmfs_new_inode` from the number `i` of the first of the inodes on.
unfoldable pub scan_free : ℕ → List Inode → Option ℕ
unfolding is_free
scan_free i [] = none
scan_free i (pi ∷ rest) = if is_free pi then some i else scan_free (suc i) rest

abbrev pub blank_inode : Inode
blank_inode = record { i_links_count = 0; i_mode = 0; i_dtime = 0 }

unfoldable pub blank_inodes : ℕ → List Inode
blank_inodes zero = []
blank_inodes (suc n) = blank_inode ∷ blank_inodes n

-- `pmfs_increase_inode_table_size` by a zeroed block of `per_block` inodes
unfoldable pub increase_table : (per_block : ℕ) → Table → Table
unfolding blank_inodes
increase_table per_block s = record {
  inodes = s.inodes ++ blank_inodes per_block;
  s_free_inodes_count = (s.s_free_inodes_count + per_block) % 2 ^ 32;
  s_free_inode_hint = length s.inodes % 2 ^ 32;
}

-- Whether the calls of `pmfs_new_inode` succeed: the kernel's `new_inode`, `pmfs_get_inode` for the
-- directory, `pmfs_increase_inode_table_size`, and the kernel's `insert_inode_locked`.
pub record Callees : Type 0 where
  pub has_inode : Bool
  pub has_diri : Bool
  pub room : Bool
  pub inserted : Bool

-- All succeed, but the growth only if there is room.
abbrev pub successful : (room : Bool) → Callees
successful room = record { has_inode = true; has_diri = true; room = room; inserted = true }

pub data NewInode : Type 0 where
  created : Table → (inode_nr : ℕ) → NewInode
  -- the last has the error of `pmfs_increase_inode_table_size`
  enomem eacces increase_failed : NewInode
  -- the inode is not given back
  einval : Table → (inode_nr : ℕ) → NewInode

-- The inode taken gets one link and its mode.
unfoldable pub take_inode : (mode : ℕ) → Table → (i : ℕ) → Table
take_inode mode s i = record {
  inodes = set s.inodes i (record { i_links_count = 1; i_mode = mode; i_dtime = 0 });
  s_free_inodes_count = (s.s_free_inodes_count + 2 ^ 32 - 1) % 2 ^ 32;
  s_free_inode_hint = if ltb i (length s.inodes - 1) then i + 1 else hint_start;
}

-- The end of `pmfs_new_inode`
unfoldable pub insert_inode : (inserted : Bool) → Table → (i : ℕ) → NewInode
insert_inode inserted s i = if inserted then created s i else einval s i

-- What the scan leads to. When it has come to the end of the table, where the hint can be at most, it
-- goes on in the block by which the table has grown, and takes the first inode there.
unfoldable pub found_free : (mode per_block : ℕ) → Callees → Table → Option ℕ → NewInode
unfolding take_inode increase_table insert_inode
found_free mode per_block calls s (some i) = insert_inode calls.inserted (take_inode mode s i) i
found_free mode per_block calls s none =
    let i = length s.inodes in
    if calls.room
    then insert_inode calls.inserted (take_inode mode (increase_table per_block s) i) i
    else increase_failed

-- `pmfs_new_inode`
unfoldable pub new_inode : (mode per_block : ℕ) → Callees → Table → NewInode
unfolding found_free scan_free
new_inode mode per_block calls s =
    let hint = s.s_free_inode_hint in
    if not calls.has_inode
    then enomem
    else if not calls.has_diri
    then eacces
    else found_free mode per_block calls s (scan_free hint (drop hint s.inodes))

-- `pmfs_free_inode` behind its transaction; `pi` is the table's inode of the number.
unfoldable pub free_inode : (now inode_nr : ℕ) → Inode → Table → Table
free_inode now inode_nr pi s =
    let free = (s.s_free_inodes_count + 1) % 2 ^ 32 in
    let lower = if ltb inode_nr s.s_free_inode_hint then inode_nr else s.s_free_inode_hint in
    record {
      inodes = set s.inodes inode_nr (record pi { i_dtime = now });
      s_free_inodes_count = free;
      s_free_inode_hint =
          if free == (length s.inodes + 2 ^ 32 - hint_start) % 2 ^ 32 then hint_start else lower;
    }
