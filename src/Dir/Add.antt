-- ===== src/Dir/Add.antt =====
-- pmfs_add_entry on a directory: what it does on every outcome.
use pmfs.Base.{
  ℕ, ◌^◌, ◌<◌, ◌≡◌, refl, sym, ◌∙◌, Bool, true, false, Option, none, some, List, [], ◌∷◌, ◌++◌,
  append_assoc, append-nil, arith, length,
}
use pmfs.Dir.{
  Name, Block, dir_rec_len, write_dirent, blank_entry, AddBlocks, put, all_full, hole, spins, Dir,
  Entry, success, einval, eio, alloc_failed, stuck, finish_add, add_entry,
}
use pmfs.Dir.Links.{Link, link, links, all_links, Inserted, Inserted-left}
use pmfs.Dir.Block.{IsChain, AreBlocks, AllBlocksFull, IsBlocksize}
use pmfs.Dir.Insert.{write_dirent-IsChain, BlocksBy, add_blocks-BlocksBy}

-- What `add_entry` may come to: the blocks stay well formed and get exactly the one link, both times
-- are now and the hint stays; or no block has room for the name and no new one can be had; or the
-- name is empty.
abbrev pub AddEntryBy :
    (blocksize : ℕ) → (alloc : Bool) → (now : ℕ) → Name → (ino : ℕ) → Dir → Entry → Type 0
AddEntryBy blocksize alloc now name ino dir (success dir') =
    AreBlocks blocksize dir'.blocks
    × Inserted (all_links dir.blocks) (link name ino) (all_links dir'.blocks)
    × (dir'.i_mtime ≡ now)
    × (dir'.i_ctime ≡ now)
    × (dir'.i_dir_start_lookup ≡ dir.i_dir_start_lookup)
AddEntryBy blocksize alloc now name ino dir alloc_failed =
    (alloc ≡ false) × AllBlocksFull (dir_rec_len (length name)) dir.blocks
AddEntryBy blocksize alloc now name ino dir einval = length name ≡ 0
AddEntryBy blocksize alloc now name ino dir eio = ⊥
AddEntryBy blocksize alloc now name ino dir stuck = ⊥

pub all_links-append :
    (xs ys : List (Option Block)) → all_links (xs ++ ys) ≡ all_links xs ++ all_links ys
unfolding all_links
all_links-append [] ys = refl
all_links-append (none ∷ xs) ys = all_links-append xs ys
all_links-append (some block ∷ xs) ys =
    rw (all_links-append xs ys) (sym (append_assoc (links block) (all_links xs) (all_links ys)))

AreBlocks-append :
    (blocksize : ℕ) (xs : List (Option Block)) (block : Block)
    → AreBlocks blocksize xs
    → IsChain blocksize 0 block
    → AreBlocks blocksize (xs ++ some block ∷ [])
unfolding AreBlocks
AreBlocks-append blocksize [] block a c = (c, tt)
AreBlocks-append blocksize (none ∷ xs) block a c = elim a [ ]
AreBlocks-append blocksize (some b ∷ xs) block (c', a) c =
    (c', AreBlocks-append blocksize xs block a c)

append-Inserted :
    (blocks : List (Option Block)) (block : Block) (l : Link)
    → Inserted [] l (links block)
    → Inserted (all_links blocks) l (all_links (blocks ++ some block ∷ []))
unfolding all_links
append-Inserted blocks block l i =
    let (before, behind, e, f) = Inserted-left (all_links blocks) i in
    (
      before,
      behind,
      sym (append-nil (all_links blocks)) ∙ e,
      rw (all_links-append blocks (some block ∷ []), append-nil (links block)) f,
    )

module _ (blocksize : ℕ) (size : IsBlocksize blocksize) (name : Name) (ino : ℕ) where
  blank-IsChain : IsChain blocksize 0 (blank_entry blocksize ∷ [])
  unfolding IsChain dir_rec_len
  blank-IsChain = (
    record {
      minimal = omega (arith, size.large, size.word);
      whole = omega (arith, size.whole, size.word);
      has_room = omega (arith, size.large, size.word);
      counted = refl;
      named = λ p. absurd (omega (arith, p));
    },
    omega (arith, size.word),
  )

  -- A new block has room for every name.
  new_block-IsChain :
      0 < length name
      → length name < 2 ^ 8
      → 0 < ino
      → IsChain blocksize 0 (write_dirent name ino (blank_entry blocksize) [])
        × Inserted
            (links (blank_entry blocksize ∷ []))
            (link name ino)
            (links (write_dirent name ino (blank_entry blocksize) []))
  new_block-IsChain named short live =
      write_dirent-IsChain name ino named short live blocksize 0 (blank_entry blocksize) []
        size.word blank-IsChain (unfold dir_rec_len in omega (arith, size.large, size.word))

  finish_add-AddEntryBy :
      (alloc : Bool) (now : ℕ) (dir : Dir)
      → 0 < length name
      → length name < 2 ^ 8
      → 0 < ino
      → AreBlocks blocksize dir.blocks
      → (b : AddBlocks) → BlocksBy name ino blocksize dir.blocks b
      → AddEntryBy blocksize alloc now name ino dir (finish_add blocksize alloc now name ino dir b)
  unfolding finish_add
  finish_add-AddEntryBy alloc now dir named short live a (put blocks) (a', i) =
      (a', i, refl, refl, refl)
  finish_add-AddEntryBy false now dir named short live a all_full b = (refl, b)
  finish_add-AddEntryBy true now dir named short live a all_full b =
      let new = new_block-IsChain named short live in
      let block = write_dirent name ino (blank_entry blocksize) [] in
      (
        AreBlocks-append blocksize dir.blocks block a new.0,
        append-Inserted dir.blocks block (link name ino) (unfold links in new.1),
        refl,
        refl,
        refl,
      )
  finish_add-AddEntryBy alloc now dir named short live a hole b = elim b [ ]
  finish_add-AddEntryBy alloc now dir named short live a spins b = elim b [ ]

-- Adding a name of at most 255 bytes for an inode number above 0 to a directory of well-formed blocks
-- of an admitted size, by the outcome: on success the blocks are well formed and have exactly one link more, the name's; an
-- error says that the name is empty, or that all blocks are full and no new one was to be had. The
-- walk always ends, and never meets a hole.
pub add_entry-AddEntryBy :
    (blocksize : ℕ) (alloc : Bool) (now : ℕ) (name : Name) (ino : ℕ) (dir : Dir)
    → IsBlocksize blocksize
    → length name < 2 ^ 8
    → 0 < ino
    → AreBlocks blocksize dir.blocks
    → AddEntryBy blocksize alloc now name ino dir (add_entry blocksize alloc now name ino dir)
unfolding add_entry
add_entry-AddEntryBy blocksize alloc now [] ino dir size short live a = refl
add_entry-AddEntryBy blocksize alloc now (c ∷ name) ino dir size short live a =
    finish_add-AddEntryBy blocksize size (c ∷ name) ino alloc now dir (omega arith) short live a _
      (add_blocks-BlocksBy (c ∷ name) ino (omega arith) short live blocksize dir.blocks size.word a)
