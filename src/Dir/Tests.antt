-- ===== src/Dir/Tests.antt =====
-- Runs of the directory operations, and their theorems at a concrete directory.
use pmfs.Base.{◌≤◌, ◌<◌, ◌^◌, ◌≡◌, refl, false, some, [], ◌∷◌, arith, length}
use pmfs.Dir.{
  Name, dir_rec_len, same_name, match_name, check_dir_entry, search_dirblock, write_dirent,
  add_dirent_to_buf, Dir, success, add_entry, unlink_at, remove_entry, inode_by_name, dot_block,
  search_from, add_blocks, remove_blocks, scan,
}
use pmfs.Dir.Links.{links, all_links, count, lookup}
use pmfs.Dir.Block.{AreBlocks, IsBlocksize}
use pmfs.Dir.Add.{AddEntryBy, add_entry-AddEntryBy}
use pmfs.Dir.Remove.{RemoveEntryBy, remove_entry-RemoveEntryBy}
use pmfs.Dir.Lookup.{IsDir, inode_by_name-lookup}
use pmfs.Dir.Names.{add_entry-inode_by_name, remove_entry-inode_by_name, remove_entry-add_entry}
use pmfs.Dir.Read.{
  emitted, readdir, readdir-all_links, empty_dir, empty_dir-all_links, dot_block-IsChain,
}

-- directory 5 in directory 2, empty
abbrev empty : Dir
empty = record {
  blocks = some (dot_block 4096 5 2) ∷ [];
  i_mtime = 1;
  i_ctime = 1;
  i_dir_start_lookup = 0;
}

-- "ab"
abbrev ab : Name
ab = 97 ∷ 98 ∷ []

-- "ab" linked to inode 9
abbrev with_ab : Dir
with_ab = record {
  blocks =
      some (
        record { ino = 5; de_len = 16; name_len = 1; name = 46 ∷ [] }
        ∷ record { ino = 2; de_len = 16; name_len = 2; name = 46 ∷ 46 ∷ [] }
        ∷ record { ino = 9; de_len = 4064; name_len = 2; name = ab }
        ∷ [])
      ∷ [];
  i_mtime = 7;
  i_ctime = 7;
  i_dir_start_lookup = 0;
}

page : IsBlocksize 4096
page = record { whole = refl; large = omega arith; word = omega arith }

add_ab : add_entry 4096 false 7 ab 9 empty ≡ success with_ab
unfolding add_entry add_blocks add_dirent_to_buf write_dirent dir_rec_len dot_block
add_ab = refl

lookup_ab : (inode_by_name 4096 ab with_ab).ino ≡ 9
unfolding inode_by_name scan search_dirblock search_from match_name check_dir_entry same_name
    dir_rec_len
lookup_ab = refl

lookup_new : (inode_by_name 4096 ab empty).ino ≡ 0
unfolding inode_by_name scan search_dirblock search_from match_name check_dir_entry same_name
    dir_rec_len dot_block
lookup_new = refl

empty-AreBlocks : AreBlocks 4096 empty.blocks
unfolding AreBlocks
empty-AreBlocks = ((dot_block-IsChain 4096 5 2 page (omega arith) (omega arith)).0, tt)

dots_unique : (n : Name) → count n (all_links empty.blocks) ≤ 1
unfolding count all_links links same_name dot_block
dots_unique [] = omega arith
dots_unique (x ∷ []) = ground arith
dots_unique (x ∷ y ∷ []) = ground arith
dots_unique (x ∷ y ∷ z ∷ n) = ground arith

empty-IsDir : IsDir 4096 empty
empty-IsDir = record { blocks = empty-AreBlocks; unique = dots_unique }

with_ab-IsDir : IsDir 4096 with_ab
with_ab-IsDir =
    (add_entry-inode_by_name 4096 false 7 ab ab 9 empty page empty-IsDir (omega arith) (omega arith)
      (omega arith) lookup_new add_ab).0

add_entry-AddEntryBy_example :
    AddEntryBy 4096 false 7 ab 9 empty (add_entry 4096 false 7 ab 9 empty)
add_entry-AddEntryBy_example =
    add_entry-AddEntryBy 4096 false 7 ab 9 empty page (omega arith) (omega arith) empty-AreBlocks

remove_entry-RemoveEntryBy_example :
    RemoveEntryBy 4096 8 ab with_ab (remove_entry 4096 8 ab with_ab)
remove_entry-RemoveEntryBy_example =
    remove_entry-RemoveEntryBy 4096 8 ab with_ab (omega arith) with_ab-IsDir.blocks

inode_by_name-lookup_example :
    (inode_by_name 4096 ab with_ab).ino ≡ lookup ab (all_links with_ab.blocks)
inode_by_name-lookup_example = inode_by_name-lookup 4096 ab with_ab with_ab-IsDir (omega arith)

add_entry-inode_by_name_example :
    IsDir 4096 with_ab
    × ((inode_by_name 4096 (46 ∷ []) with_ab).ino ≡ (inode_by_name 4096 (46 ∷ []) empty).ino)
unfolding same_name
add_entry-inode_by_name_example =
    add_entry-inode_by_name 4096 false 7 ab (46 ∷ []) 9 empty page empty-IsDir (omega arith)
      (omega arith) (omega arith) lookup_new add_ab

-- the room of the removed entry goes to ".."
abbrev without_ab : Dir
without_ab = record empty { i_mtime = 8; i_ctime = 8 }

remove_ab : remove_entry 4096 8 ab with_ab ≡ success without_ab
unfolding remove_entry remove_blocks search_dirblock search_from match_name check_dir_entry
    same_name dir_rec_len dot_block unlink_at
remove_ab = refl

remove_entry-inode_by_name_example :
    IsDir 4096 without_ab × ((inode_by_name 4096 ab without_ab).ino ≡ 0)
unfolding same_name
remove_entry-inode_by_name_example =
    remove_entry-inode_by_name 4096 8 ab ab with_ab page with_ab-IsDir (omega arith) remove_ab

remove_entry-add_entry_example :
    (dir'' : Dir) × (remove_entry 4096 8 ab with_ab ≡ success dir'')
    × ((other : Name)
        → length other < 2 ^ 8
        → (inode_by_name 4096 other dir'').ino ≡ (inode_by_name 4096 other empty).ino)
remove_entry-add_entry_example =
    remove_entry-add_entry 4096 false 7 8 ab 9 empty page empty-IsDir (omega arith) (omega arith)
      (omega arith) lookup_new add_ab

readdir-all_links_example : readdir 4096 with_ab.blocks ≡ emitted (all_links with_ab.blocks)
readdir-all_links_example = readdir-all_links 4096 with_ab.blocks with_ab-IsDir.blocks

empty_dir-all_links_example : empty_dir 4096 5 with_ab.blocks ≡ false
unfolding links
empty_dir-all_links_example =
    empty_dir-all_links 4096 5 (record { ino = 5; de_len = 16; name_len = 1; name = 46 ∷ [] })
      (record { ino = 2; de_len = 16; name_len = 2; name = 46 ∷ 46 ∷ [] })
      (record { ino = 9; de_len = 4064; name_len = 2; name = ab } ∷ []) [] with_ab-IsDir.blocks
      (omega arith) refl (omega arith) refl refl
