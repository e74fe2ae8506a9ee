-- ===== src/Dir/Remove.antt =====
-- pmfs_remove_entry on a directory: what it does on every outcome.
use pmfs.Base.{
  ℕ, ◌^◌, ◌<◌, ◌≡◌, ◌⊎◌, inl, inr, refl, subst, Option, none, some, List, [], ◌∷◌, ◌++◌, arith,
  length,
}
use pmfs.Dir.{
  Name, DirEntry, Block, Search, found, absent, failure, search_dirblock, unlink_at, still, drop_in,
  remove_blocks, finish_remove, remove_entry, Dir, Entry, success, einval, eio, alloc_failed, stuck,
}
use pmfs.Dir.Links.{
  link, links, all_links, count, count-append, Inserted, Inserted-left, Inserted-right,
}
use pmfs.Dir.Block.{IsChain, AreBlocks}
use pmfs.Dir.Delete.{SearchBy, search_from-SearchBy, unlink_at-IsChain}

-- A removal takes out one link with the name; otherwise the name is not there.
abbrev pub RemovedBy :
    (blocksize : ℕ) → Name → List (Option Block) → Option (List (Option Block)) → Type 0
RemovedBy blocksize name blocks (some blocks') =
    AreBlocks blocksize blocks'
    × (ino : ℕ) × (0 < ino)
    × Inserted (all_links blocks') (link name ino) (all_links blocks)
RemovedBy blocksize name blocks none = count name (all_links blocks) ≡ 0

module _ (blocksize : ℕ) (word : blocksize < 2 ^ 16) (name : Name) where
  unlink_found :
      (block : Block) (de : DirEntry) (k : ℕ)
      → IsChain blocksize 0 block
      → SearchBy name block 0 (found de k)
      → IsChain blocksize 0 (unlink_at k block)
        × (0 < de.ino)
        × Inserted (links (unlink_at k block)) (link name de.ino) (links block)
  unlink_found block de k c (before, behind, e, f, g, h, live) =
      let p : k ≡ length before = omega (arith, f) in
      let u =
        unlink_at-IsChain blocksize 0 before de behind word live
          (subst (IsChain blocksize 0) e c) in
      rw (p, e)
        (
          u.0,
          live,
          (subst
              (λ n.
                Inserted (links (unlink_at (length before) (before ++ de ∷ behind))) (link n de.ino)
                  (links (before ++ de ∷ behind)))
              h u.1),
        )

  still-RemovedBy :
      (block : Block) (rest : List (Option Block))
      → IsChain blocksize 0 block
      → count name (links block) ≡ 0
      → (later : Option (List (Option Block))) → RemovedBy blocksize name rest later
      → RemovedBy blocksize name (some block ∷ rest) (still block later)
  unfolding still AreBlocks all_links
  still-RemovedBy block rest c z none e =
      rw (count-append name (links block) (all_links rest)) (omega (arith, z, e))
  still-RemovedBy block rest c z (some blocks) (a, ino, live, i) =
      ((c, a), ino, live, Inserted-left (links block) i)

  drop_in-RemovedBy :
      (block : Block) (rest : List (Option Block)) (later : Option (List (Option Block)))
      → IsChain blocksize 0 block
      → AreBlocks blocksize rest
      → RemovedBy blocksize name rest later
      → (s : Search) → SearchBy name block 0 s
      → RemovedBy blocksize name (some block ∷ rest) (drop_in rest block later s)
  unfolding drop_in AreBlocks all_links
  drop_in-RemovedBy block rest later c cs r (found de k) s =
      let (c', live, i) = unlink_found block de k c s in
      ((c', cs), de.ino, live, Inserted-right (all_links rest) i)
  drop_in-RemovedBy block rest later c cs r absent s = still-RemovedBy block rest c s later r
  drop_in-RemovedBy block rest later c cs r failure s = elim s [ ]

  remove_blocks-RemovedBy :
      (blocks : List (Option Block))
      → AreBlocks blocksize blocks
      → RemovedBy blocksize name blocks (remove_blocks blocksize name blocks)
  unfolding remove_blocks AreBlocks search_dirblock count all_links
  remove_blocks-RemovedBy [] cs = refl
  remove_blocks-RemovedBy (none ∷ rest) cs = elim cs [ ]
  remove_blocks-RemovedBy (some block ∷ rest) (c, cs) =
      drop_in-RemovedBy block rest _ c cs (remove_blocks-RemovedBy rest cs) _
        (search_from-SearchBy blocksize 0 0 name block c)

-- What `remove_entry` may come to: the blocks stay well formed and lose exactly one link, which has
-- the name, both times are now and the hint stays; or the name is empty or not in the directory.
abbrev pub RemoveEntryBy : (blocksize now : ℕ) → Name → Dir → Entry → Type 0
RemoveEntryBy blocksize now name dir (success dir') =
    AreBlocks blocksize dir'.blocks
    × ((ino : ℕ) × (0 < ino)
        × Inserted (all_links dir'.blocks) (link name ino) (all_links dir.blocks))
    × (dir'.i_mtime ≡ now)
    × (dir'.i_ctime ≡ now)
    × (dir'.i_dir_start_lookup ≡ dir.i_dir_start_lookup)
RemoveEntryBy blocksize now name dir einval =
    (length name ≡ 0) ⊎ (count name (all_links dir.blocks) ≡ 0)
RemoveEntryBy blocksize now name dir eio = ⊥
RemoveEntryBy blocksize now name dir alloc_failed = ⊥
RemoveEntryBy blocksize now name dir stuck = ⊥

finish_remove-RemoveEntryBy :
    (blocksize now : ℕ) (name : Name) (dir : Dir) (o : Option (List (Option Block)))
    → RemovedBy blocksize name dir.blocks o
    → RemoveEntryBy blocksize now name dir (finish_remove now dir o)
unfolding finish_remove
finish_remove-RemoveEntryBy blocksize now name dir none e = inr e
finish_remove-RemoveEntryBy blocksize now name dir (some blocks) (a, ino, live, i) =
    (a, (ino, live, i), refl, refl, refl)

-- Removing a name from a directory of well-formed blocks of less than 64 KiB, by the outcome: on success the blocks are
-- well formed and have lost exactly one link, which has the name; EINVAL says that the name is empty
-- or that no link has it.
pub remove_entry-RemoveEntryBy :
    (blocksize now : ℕ) (name : Name) (dir : Dir)
    → blocksize < 2 ^ 16
    → AreBlocks blocksize dir.blocks
    → RemoveEntryBy blocksize now name dir (remove_entry blocksize now name dir)
unfolding remove_entry
remove_entry-RemoveEntryBy blocksize now [] dir word a = inl refl
remove_entry-RemoveEntryBy blocksize now (c ∷ name) dir word a =
    finish_remove-RemoveEntryBy blocksize now (c ∷ name) dir _
      (remove_blocks-RemovedBy blocksize word (c ∷ name) dir.blocks a)
