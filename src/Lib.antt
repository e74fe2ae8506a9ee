-- ===== src/Lib.antt =====
-- PMFS is a file system in persistent memory: the device is mapped into the kernel's address space
-- and every structure is read and written in place. This library models the parts of it below, as
-- the files say at their top, and proves what the entries at the end of this comment state.
--
-- Conventions. A number is a native natural number; unsigned machine arithmetic is written out with
-- its modulus (Base/Words). A doubly linked kernel list is a list, a pointer into it a position.
-- Whether the kernel's allocators have memory left is an argument, `mem`. A walk over a list or
-- an array is structural recursion. The loops of the journal are recursion on fuel, and the theorems
-- give the fuel that is enough: one step for each entry of the journal, and one for the test that
-- ends the loop. Code that runs under a lock is one step; flushes, barriers, statistics and
-- debug output are left out.
--
-- The parts:
--
-- - balloc.c, with the block nodes of super.c and the structures of pmfs.h: Balloc. The in-use
--   list of block ranges with pmfs_new_block, pmfs_free_block and its hint, pmfs_init_blockmap.
--   Balloc/Spec has the invariant and the abstract view, the set of blocks in use. Zeroing a new
--   block is not modelled.
-- - journal.c and journal.h: Journal. The log as a ring of entries, in Journal the loops over
--   one transaction, in Journal/Clean the cleaner, in Journal/Trans the transactions, in
--   Journal/Recover the recovery. pmfs_add_logentry is modelled as it stands, with the early
--   return that leaves the rest of its body dead. The cleaner's thread is not modelled.
-- - dir.c and the directory half of namei.c: Dir. A block is the chain of its entries; Dir/Links
--   has the abstract view, a list of links from names to inode numbers, Dir/Block the invariant.
--   Dir/Insert, Dir/Add and Dir/Delete, Dir/Remove follow pmfs_add_entry and pmfs_remove_entry,
--   Dir/Lookup pmfs_inode_by_name, Dir/Read pmfs_readdir and pmfs_empty_dir. Whether
--   pmfs_alloc_blocks finds a block is an argument, and a block it gives is taken to be found
--   again.
-- - the b-tree of an inode's blocks in inode.c, with the lookup of pmfs.h: Tree. Meta-data
--   blocks are a function from offset and index to the stored offset; the allocator is Balloc's.
--   Tree/Frame has the invariant, Tree/Grow the growth by levels. Tree/Blocks follows
--   recursive_alloc_blocks and Tree/Whole __pmfs_alloc_blocks; Tree/Own has the invariant that
--   no two places share a meta-data block, Tree/Extend what an allocation comes to, Tree/Alloc
--   and Tree/Fill that the two do that. A file is its tree, its count of blocks and the flag
--   EOFBLOCKS; journal, locks and the zeroing of data blocks are left out, and the levels of a
--   tree are counted on fuel 8, which 64 bits do not use up. Tree/Shrink is the loop of
--   pmfs_decrease_btree_height and Tree/Lower the whole of it, with the height that it takes
--   from the new size. Tree/Truncate follows recursive_truncate_blocks, with its loop variables
--   as a record; Tree/Progress is the invariant of its loop and Tree/Truncation what the release
--   of a range comes to for lookups. Which blocks that release marks free in the allocator is
--   not shown, and __pmfs_truncate_blocks is not modelled.
-- - the inode table of inode.c: Inodes. The table is the list of its inodes as far as their
--   allocation reads them; Inodes/Search has the scan, Inodes/Alloc the invariant of the free-
--   inode hint. The transactions round the operations, the inode's other fields are left out;
--   whether the calls of pmfs_new_inode out of this part succeed, the growth of the table's file
--   among them, is an argument, and each failure an outcome.
-- - bbuild.c: Bbuild. Bbuild/Insert follows pmfs_alloc_insert_blocknode_map over the walk of
--   Balloc, Bbuild/Loop and Bbuild/Build the loop over runs of set bits and the three bitmaps,
--   Bbuild/Scan the walk over the inode table and the b-trees (Bbuild/Noted, Bbuild/Table say
--   what it notes), Bbuild/Layout says what the bitmaps have seen, Bbuild/Recover composes them
--   as pmfs_setup_blocknode_map does, Bbuild/Save and Bbuild/Kept are the saved list. The
--   kernel's find_next_bit and find_next_zero_bit are arguments; the loop over a bitmap has as
--   much fuel as the bitmap has bits, and each turn goes past one at least.
-- - sync_meta.c: Sync. Sync/Addr is alloc_addr_info, which hands ranges of blocks and of inodes
--   to user space; its loop has a turn of fuel for every inode asked for and one more, which is
--   enough when the table can grow. The replay of the log that user space writes is not
--   modelled.
pub mod Base
pub mod Balloc
pub mod Bbuild
pub mod Dir
pub mod Inodes
pub mod Journal
pub mod Sync
pub mod Tree
