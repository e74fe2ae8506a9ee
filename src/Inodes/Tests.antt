-- ===== src/Inodes/Tests.antt =====
-- Runs of the inode table, and its theorems at a concrete table.
use pmfs.Base.{ℕ, ◌≡◌, refl, true, false, [], ◌∷◌, arith, ◌==◌, if◌then◌else◌}
use pmfs.Inodes.{
  Inode, Table, blank_inode, is_free, successful, created, enomem, increase_failed, einval,
  new_inode, scan_free, take_inode, free_inode,
}
use pmfs.Inodes.Search.{free_at}
use pmfs.Inodes.Hint.{IsTable}
use pmfs.Inodes.Alloc.{free_inode-IsTable}

abbrev in_use : Inode
in_use = record { i_links_count = 1; i_mode = 33188; i_dtime = 0 }

-- the last of five inodes is free
abbrev five : Table
five = record {
  inodes = in_use ∷ in_use ∷ in_use ∷ in_use ∷ blank_inode ∷ [];
  s_free_inodes_count = 1;
  s_free_inode_hint = 3;
}

-- none is free, and inode 3 has lost its last link
abbrev full : Table
full = record five {
  inodes = in_use ∷ in_use ∷ in_use ∷ record in_use { i_links_count = 0 } ∷ in_use ∷ [];
  s_free_inodes_count = 0;
}

full-IsTable : IsTable full
full-IsTable = record {
  low = omega arith;
  bound = omega arith;
  below = λ j p q. absurd (omega (arith, p, q));
}

new_inode-last :
    new_inode 33188 32 (successful false) five
    ≡ created
        (record five {
          inodes = in_use ∷ in_use ∷ in_use ∷ in_use ∷ in_use ∷ [];
          s_free_inodes_count = 0;
        })
        4
unfolding new_inode scan_free is_free take_inode
new_inode-last = refl

new_inode_no_memory :
    new_inode 33188 32 (record (successful true) { has_inode = false }) five ≡ enomem
unfolding new_inode
new_inode_no_memory = refl

-- inode 4 is taken all the same
new_inode_not_inserted :
    new_inode 33188 32 (record (successful true) { inserted = false }) five
    ≡ einval
        (record five {
          inodes = in_use ∷ in_use ∷ in_use ∷ in_use ∷ in_use ∷ [];
          s_free_inodes_count = 0;
        })
        4
unfolding new_inode scan_free is_free take_inode
new_inode_not_inserted = refl

new_inode_no_room :
    new_inode 33188 32
      (successful false)
      (record five { inodes = in_use ∷ in_use ∷ in_use ∷ in_use ∷ [] })
    ≡ increase_failed
unfolding new_inode scan_free is_free
new_inode_no_room = refl

free_inode-IsTable_example :
    IsTable (free_inode 9 3 (record in_use { i_links_count = 0 }) full)
    × ((j : ℕ)
        → free_at (free_inode 9 3 (record in_use { i_links_count = 0 }) full).inodes j
          ≡ (if j == 3 then true else free_at full.inodes j))
free_inode-IsTable_example =
    free_inode-IsTable 9 3 (record in_use { i_links_count = 0 }) full full-IsTable (omega arith)
      (omega arith) refl (omega arith)
