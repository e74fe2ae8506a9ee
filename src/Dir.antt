-- ===== src/Dir.antt =====
-- dir.c and the first part of namei.c: directory blocks and the operations on a directory.
-- A block is the list of the entries that its `de_len` chain visits, the first at offset 0: the walks
-- of the source keep the offset of the entry, and so do these. An entry carries the bytes of its name
-- that `name_len` counts. A hole of the directory's file is `none`.
pub mod Links
mod Block
mod Insert
pub mod Add
pub mod Delete
pub mod Remove
pub mod Lookup
pub mod Names
pub mod Read
mod Tests
use pmfs.Base.{
  ℕ, zero, suc, ◌+◌, ◌-◌, ◌*◌, ◌/◌, ◌%◌, ◌^◌, Bool, true, false, ◌&&◌, ◌||◌, not, Option, none,
  some, List, [], ◌∷◌, ltb, leb, ◌==◌, if◌then◌else◌, length, take, drop, ◌++◌,
}

abbrev pub Name : Type 0
Name = List ℕ

-- `struct pmfs_direntry` without the file type, which nothing reads
pub record DirEntry : Type 0 where
  pub ino : ℕ
  pub de_len : ℕ
  pub name_len : ℕ
  pub name : Name

abbrev pub Block : Type 0
Block = List DirEntry

-- `PMFS_DIR_REC_LEN`
unfoldable pub dir_rec_len : ℕ → ℕ
dir_rec_len name_len = (name_len + 12 + 3) / 4 * 4

-- `memcmp` on names of one length
unfoldable pub same_name : Name → Name → Bool
same_name [] [] = true
same_name [] (y ∷ ys) = false
same_name (x ∷ xs) [] = false
same_name (x ∷ xs) (y ∷ ys) = x == y && same_name xs ys

-- `pmfs_match`
unfoldable pub match_name : Name → DirEntry → Bool
unfolding same_name
match_name name de = length name == de.name_len && not (de.ino == 0) && same_name de.name name

-- `pmfs_check_dir_entry` for the entry at `offset` in its block
unfoldable pub check_dir_entry : (blocksize offset : ℕ) → DirEntry → Bool
unfolding dir_rec_len
check_dir_entry blocksize offset de = not (
    ltb de.de_len (dir_rec_len 1)
    || not (de.de_len % 4 == 0)
    || ltb de.de_len (dir_rec_len de.name_len)
    || ltb blocksize (offset + de.de_len))

-- What `pmfs_search_dirblock` finds: the entry, and the position of the one in front of it.
pub data Search : Type 0 where
  found : DirEntry → (position : ℕ) → Search
  absent failure : Search

unfoldable pub search_from : (blocksize : ℕ) → Name → (offset position : ℕ) → Block → Search
unfolding match_name check_dir_entry
search_from blocksize name offset k [] = absent
search_from blocksize name offset k (de ∷ rest) =
    let later = search_from blocksize name (offset + de.de_len) (suc k) rest in
    if not (ltb offset blocksize)
    then absent
    else if leb (offset + length name) blocksize && match_name name de
    then (if check_dir_entry blocksize offset de then found de k else failure)
    else if de.de_len == 0
    then failure
    else later

unfoldable pub search_dirblock : (blocksize : ℕ) → Name → Block → Search
unfolding search_from
search_dirblock blocksize name block = search_from blocksize name 0 0 block

-- The end of `pmfs_add_dirent_to_buf` on the entry that has the room.
unfoldable pub write_dirent : Name → (ino : ℕ) → DirEntry → Block → Block
unfolding dir_rec_len
write_dirent name ino de rest =
    let nlen = dir_rec_len de.name_len in
    if not (de.ino == 0)
    then record de { de_len = nlen }
      ∷ record {
        ino = ino;
        de_len = (de.de_len - nlen) % 2 ^ 16;
        name_len = length name % 2 ^ 8;
        name = name;
      }
      ∷ rest
    else record de { ino = ino; name_len = length name % 2 ^ 8; name = name } ∷ rest

pub data AddDirent : Type 0 where
  added : Block → AddDirent
  enospc : AddDirent
  -- an entry of length 0: the walk stays on it
  endless : AddDirent

unfoldable pub keep : DirEntry → AddDirent → AddDirent
keep de (added block) = added (de ∷ block)
keep de enospc = enospc
keep de endless = endless

-- The walk of `pmfs_add_dirent_to_buf`, without the entry that a new block comes with.
unfoldable pub add_from : (blocksize : ℕ) → Name → (ino offset : ℕ) → Block → AddDirent
unfolding write_dirent keep
add_from blocksize name ino offset [] = enospc
add_from blocksize name ino offset (de ∷ rest) =
    let reclen = dir_rec_len (length name) in
    let later = add_from blocksize name ino (offset + de.de_len) rest in
    let used = if de.ino == 0 then 0 else dir_rec_len de.name_len in
    if ltb blocksize (offset + reclen)
    then enospc
    else if leb (used + reclen) de.de_len
    then added (write_dirent name ino de rest)
    else if de.de_len == 0
    then endless
    else keep de later

unfoldable pub add_dirent_to_buf : (blocksize : ℕ) → Name → (ino : ℕ) → Block → AddDirent
unfolding add_from
add_dirent_to_buf blocksize name ino block = add_from blocksize name ino 0 block

-- A directory: the blocks of its file, its two times in seconds, and `i_dir_start_lookup`.
pub record Dir : Type 0 where
  pub blocks : List (Option Block)
  pub i_mtime : ℕ
  pub i_ctime : ℕ
  pub i_dir_start_lookup : ℕ

-- `alloc_failed` is the error of `pmfs_alloc_blocks`.
pub data Entry : Type 0 where
  success : Dir → Entry
  einval eio alloc_failed stuck : Entry

abbrev pub touch : Dir → (now : ℕ) → List (Option Block) → Dir
touch dir now blocks = record dir { blocks = blocks; i_mtime = now; i_ctime = now }

-- What the loop of `pmfs_add_entry` over the blocks comes to: the blocks with the entry, or the
-- blocks are all full.
pub data AddBlocks : Type 0 where
  put : List (Option Block) → AddBlocks
  all_full hole spins : AddBlocks

unfoldable pub put_behind : Option Block → AddBlocks → AddBlocks
put_behind b (put blocks) = put (b ∷ blocks)
put_behind b all_full = all_full
put_behind b hole = hole
put_behind b spins = spins

unfoldable pub in_block : List (Option Block) → Block → AddBlocks → AddDirent → AddBlocks
unfolding put_behind
in_block rest block later (added block') = put (some block' ∷ rest)
in_block rest block later enospc = put_behind (some block) later
in_block rest block later endless = spins

unfoldable pub add_blocks : (blocksize : ℕ) → Name → (ino : ℕ) → List (Option Block) → AddBlocks
unfolding in_block add_dirent_to_buf
add_blocks blocksize name ino [] = all_full
add_blocks blocksize name ino (none ∷ rest) = hole
add_blocks blocksize name ino (some block ∷ rest) =
    in_block rest block (add_blocks blocksize name ino rest)
      (add_dirent_to_buf blocksize name ino block)

-- the single free entry of a new block
abbrev pub blank_entry : (blocksize : ℕ) → DirEntry
blank_entry blocksize = record { ino = 0; de_len = blocksize % 2 ^ 16; name_len = 0; name = [] }

unfoldable pub finish_add :
    (blocksize : ℕ) → (alloc : Bool) → (now : ℕ) → Name → (ino : ℕ) → Dir → AddBlocks → Entry
unfolding write_dirent
finish_add blocksize alloc now name ino dir (put blocks) = success (touch dir now blocks)
finish_add blocksize alloc now name ino dir hole = eio
finish_add blocksize alloc now name ino dir spins = stuck
finish_add blocksize alloc now name ino dir all_full =
    if alloc
    then success
        (touch dir now (dir.blocks ++ some (write_dirent name ino (blank_entry blocksize) []) ∷ []))
    else alloc_failed

-- `pmfs_add_entry`; `alloc` says whether `pmfs_alloc_blocks` finds a block.
unfoldable pub add_entry :
    (blocksize : ℕ) → (alloc : Bool) → (now : ℕ) → Name → (ino : ℕ) → Dir → Entry
unfolding finish_add add_blocks
add_entry blocksize alloc now [] ino dir = einval
add_entry blocksize alloc now (c ∷ name) ino dir =
    finish_add blocksize alloc now (c ∷ name) ino dir
      (add_blocks blocksize (c ∷ name) ino dir.blocks)

-- The end of `pmfs_remove_entry`: the entry at the position is merged into the one in front of it, or
-- marked free if it is the first.
unfoldable pub unlink_at : (position : ℕ) → Block → Block
unlink_at k [] = []
unlink_at zero (de ∷ rest) = record de { ino = 0 } ∷ rest
unlink_at (suc zero) (de ∷ []) = de ∷ []
unlink_at (suc zero) (de ∷ res ∷ rest) =
    record de { de_len = (de.de_len + res.de_len) % 2 ^ 16 } ∷ rest
unlink_at (suc (suc k)) (de ∷ rest) = de ∷ unlink_at (suc k) rest

unfoldable pub still : Block → Option (List (Option Block)) → Option (List (Option Block))
still block none = none
still block (some blocks) = some (some block ∷ blocks)

unfoldable pub drop_in :
    List (Option Block)
    → Block
    → Option (List (Option Block))
    → Search
    → Option (List (Option Block))
unfolding unlink_at still
drop_in rest block later (found de k) = some (some (unlink_at k block) ∷ rest)
drop_in rest block later absent = still block later
drop_in rest block later failure = still block later

-- The loop of `pmfs_remove_entry`; `none` if no block has the name, or a hole is met first.
unfoldable pub remove_blocks :
    (blocksize : ℕ) → Name → List (Option Block) → Option (List (Option Block))
unfolding drop_in search_dirblock
remove_blocks blocksize name [] = none
remove_blocks blocksize name (none ∷ rest) = none
remove_blocks blocksize name (some block ∷ rest) =
    drop_in rest block (remove_blocks blocksize name rest) (search_dirblock blocksize name block)

unfoldable pub finish_remove : (now : ℕ) → Dir → Option (List (Option Block)) → Entry
finish_remove now dir none = einval
finish_remove now dir (some blocks) = success (touch dir now blocks)

unfoldable pub remove_entry : (blocksize now : ℕ) → Name → Dir → Entry
unfolding finish_remove remove_blocks
remove_entry blocksize now [] dir = einval
remove_entry blocksize now (c ∷ name) dir =
    finish_remove now dir (remove_blocks blocksize (c ∷ name) dir.blocks)

-- What a stretch of the search of `pmfs_inode_by_name` comes to: an inode number and the block it
-- stands in, the end of the search, or nothing yet.
pub data Scan : Type 0 where
  hit : (ino block : ℕ) → Scan
  stop go_on : Scan

unfoldable pub scan_next : Scan → (block : ℕ) → Search → Scan
scan_next later block (found de k) = hit de.ino block
scan_next later block failure = stop
scan_next later block absent = later

unfoldable pub scan : (blocksize : ℕ) → Name → (block : ℕ) → List (Option Block) → Scan
unfolding scan_next search_dirblock
scan blocksize name block [] = go_on
scan blocksize name block (none ∷ rest) = stop
scan blocksize name block (some b ∷ rest) =
    scan_next (scan blocksize name (suc block) rest) block (search_dirblock blocksize name b)

unfoldable pub scan_then : Scan → Scan → Scan
scan_then (hit ino block) next = hit ino block
scan_then stop next = stop
scan_then go_on next = next

-- The names "." and "..": the source tests two characters of names of at most two.
unfoldable pub is_dots : Name → Bool
is_dots (a ∷ []) = a == 46
is_dots (a ∷ b ∷ []) = a == 46 && b == 46
is_dots name = false

pub record Found : Type 0 where
  pub ino : ℕ
  pub dir : Dir

unfoldable pub finish_scan : Dir → Scan → Found
finish_scan dir (hit ino block) = record {
  ino = ino;
  dir = record dir { i_dir_start_lookup = block };
}
finish_scan dir stop = record { ino = 0; dir = dir }
finish_scan dir go_on = record { ino = 0; dir = dir }

-- `pmfs_inode_by_name`: from the block of the last hit round to it again. The search for "." or ".."
-- begins at block 0 with a range of one block, and goes on behind it as in a directory that grew.
unfoldable pub inode_by_name : (blocksize : ℕ) → Name → Dir → Found
unfolding finish_scan scan_then scan is_dots
inode_by_name blocksize name dir =
    let hint = dir.i_dir_start_lookup in
    let start = if is_dots name || leb (length dir.blocks) hint then 0 else hint in
    if ltb 255 (length name)
    then record { ino = 0; dir = dir }
    else finish_scan dir (
        scan_then (scan blocksize name start (drop start dir.blocks))
          (scan blocksize name 0 (take start dir.blocks)))

-- The first block of a directory, as `pmfs_mkdir` and `pmfs_init` write it: "." and "..".
unfoldable pub dot_block : (blocksize self parent : ℕ) → Block
unfolding dir_rec_len
dot_block blocksize self parent =
    record { ino = self; de_len = dir_rec_len 1; name_len = 1; name = 46 ∷ [] }
    ∷ record {
      ino = parent;
      de_len = (blocksize - dir_rec_len 1) % 2 ^ 16;
      name_len = 2;
      name = 46 ∷ 46 ∷ [];
    }
    ∷ []
