-- ===== src/Dir/Insert.antt =====
-- Adding an entry: pmfs_add_dirent_to_buf on a block and pmfs_add_entry on a directory.
use pmfs.Base.{
  ℕ, ◌+◌, ◌-◌, ◌%◌, ◌^◌, ◌≤◌, ◌<◌, ◌≡◌, refl, true, false, Option, none, some, List, [], ◌∷◌, arith,
  length, ◌==◌, ltb, leb, if◌then◌else◌, Bool-cases, inl, inr, dec_le, dec_lt,
}
use pmfs.Dir.{
  Name, DirEntry, Block, dir_rec_len, write_dirent, AddDirent, added, enospc, endless, keep,
  add_from, add_dirent_to_buf, AddBlocks, put, all_full, hole, spins, put_behind, in_block,
  add_blocks,
}
use pmfs.Dir.Links.{link, links, all_links, Inserted, Inserted-left, Inserted-right, links-behind}
use pmfs.Dir.Block.{
  IsDirEntry, IsChain, IsChain-end, IsFull, AllFull, AllFull-end, AreBlocks, AllBlocksFull,
}

-- What the walk comes to on a well-formed block, by its outcome.
abbrev pub AddedBy : Name → (ino : ℕ) → (blocksize offset : ℕ) → Block → AddDirent → Type 0
AddedBy name ino blocksize offset block (added block') =
    IsChain blocksize offset block' × Inserted (links block) (link name ino) (links block')
AddedBy name ino blocksize offset block enospc = AllFull (dir_rec_len (length name)) block
AddedBy name ino blocksize offset block endless = ⊥

abbrev pub BlocksBy : Name → (ino : ℕ) → (blocksize : ℕ) → List (Option Block) → AddBlocks → Type 0
BlocksBy name ino blocksize blocks (put blocks') =
    AreBlocks blocksize blocks' × Inserted (all_links blocks) (link name ino) (all_links blocks')
BlocksBy name ino blocksize blocks all_full = AllBlocksFull (dir_rec_len (length name)) blocks
BlocksBy name ino blocksize blocks hole = ⊥
BlocksBy name ino blocksize blocks spins = ⊥

module _ (name : Name) (ino : ℕ) (named : 0 < length name) (short : length name < 2 ^ 8)
    (live : 0 < ino) where
  -- The entry with the room holds both the old name and the new one.
  pub write_dirent-IsChain :
      (blocksize offset : ℕ) (de : DirEntry) (rest : Block)
      → blocksize < 2 ^ 16
      → IsChain blocksize offset (de ∷ rest)
      → (if de.ino == 0 then 0 else dir_rec_len de.name_len) + dir_rec_len (length name) ≤ de.de_len
      → IsChain blocksize offset (write_dirent name ino de rest)
        × Inserted (links (de ∷ rest)) (link name ino) (links (write_dirent name ino de rest))
  unfolding IsChain write_dirent links dir_rec_len
  write_dirent-IsChain blocksize offset de rest word (d, c) fits =
      let in_use : (ino == 0) ≡ false = ground arith in
      elim (Bool-cases (de.ino == 0)) [
        | inl e ↦
            let room : dir_rec_len (length name) ≤ de.de_len = ground arith in
            rw (e, in_use)
              (
                (
                  record {
                    minimal = d.minimal;
                    whole = d.whole;
                    has_room = omega arith;
                    counted = omega arith;
                    named = λ p. omega arith;
                  },
                  c,
                ),
                ([], links rest, refl, refl),
              )
        | inr e ↦
            let end = IsChain-end blocksize (offset + de.de_len) rest c in
            let room : dir_rec_len de.name_len + dir_rec_len (length name) ≤ de.de_len =
              ground arith in
            let old : 0 < de.name_len = d.named (ground arith) in
            let same : offset
                  + dir_rec_len de.name_len
                  + (de.de_len - dir_rec_len de.name_len) % 65536
                ≡ offset + de.de_len =
              omega arith in
            rw (e, in_use)
              (
                (
                  record {
                    minimal = omega arith;
                    whole = omega arith;
                    has_room = omega arith;
                    counted = d.counted;
                    named = d.named;
                  },
                  (
                    record {
                      minimal = omega arith;
                      whole = omega (arith, d.whole);
                      has_room = omega arith;
                      counted = omega arith;
                      named = λ p. omega arith;
                    },
                    rw same c,
                  ),
                ),
                (link de.name de.ino ∷ [], links rest, refl, rw e refl),
              )
      ]

  keep-AddedBy :
      (blocksize offset : ℕ) (de : DirEntry) (rest : Block)
      → IsDirEntry de
      → IsFull (dir_rec_len (length name)) de
      → (later : AddDirent) → AddedBy name ino blocksize (offset + de.de_len) rest later
      → AddedBy name ino blocksize offset (de ∷ rest) (keep de later)
  unfolding keep IsChain AllFull
  keep-AddedBy blocksize offset de rest d full (added block) (c, i) =
      ((d, c), links-behind de rest block (link name ino) i)
  keep-AddedBy blocksize offset de rest d full enospc a = (full, a)
  keep-AddedBy blocksize offset de rest d full endless a = elim a [ ]

  add_from-AddedBy :
      (blocksize offset : ℕ) (block : Block)
      → blocksize < 2 ^ 16
      → IsChain blocksize offset block
      → AddedBy name ino blocksize offset block (add_from blocksize name ino offset block)
  unfolding add_from IsChain
  add_from-AddedBy blocksize offset [] word c = unfold AllFull in tt
  add_from-AddedBy blocksize offset (de ∷ rest) word (d, c) =
      let reclen = dir_rec_len (length name) in
      let used = if de.ino == 0 then 0 else dir_rec_len de.name_len in
      elim (dec_lt blocksize (offset + reclen)) [
        | yes lt ↦
            let e : ltb blocksize (offset + reclen) ≡ true = ground arith in
            rw e (AllFull-end blocksize reclen offset (de ∷ rest) (d, c) lt)
        | no ge ↦
            let e : ltb blocksize (offset + reclen) ≡ false = ground arith in
            elim (dec_le (used + reclen) de.de_len) [
              | yes le ↦
                  let f : leb (used + reclen) de.de_len ≡ true = ground arith in
                  rw (e, f) (write_dirent-IsChain blocksize offset de rest word (d, c) le)
              | no gt ↦
                  let f : leb (used + reclen) de.de_len ≡ false = ground arith in
                  let g : (de.de_len == 0) ≡ false = ground (arith, d.minimal) in
                  rw (e, f, g)
                    (keep-AddedBy blocksize offset de rest d (omega arith) _
                      (add_from-AddedBy blocksize (offset + de.de_len) rest word c))
            ]
      ]

  put_behind-BlocksBy :
      (blocksize : ℕ) (block : Block) (rest : List (Option Block))
      → IsChain blocksize 0 block
      → AllFull (dir_rec_len (length name)) block
      → (later : AddBlocks) → BlocksBy name ino blocksize rest later
      → BlocksBy name ino blocksize (some block ∷ rest) (put_behind (some block) later)
  unfolding put_behind AreBlocks AllBlocksFull all_links
  put_behind-BlocksBy blocksize block rest c full (put blocks) (a, i) =
      ((c, a), Inserted-left (links block) i)
  put_behind-BlocksBy blocksize block rest c full all_full a = (full, a)
  put_behind-BlocksBy blocksize block rest c full hole a = elim a [ ]
  put_behind-BlocksBy blocksize block rest c full spins a = elim a [ ]

  in_block-BlocksBy :
      (blocksize : ℕ) (block : Block) (rest : List (Option Block)) (later : AddBlocks)
      → IsChain blocksize 0 block
      → AreBlocks blocksize rest
      → BlocksBy name ino blocksize rest later
      → (a : AddDirent) → AddedBy name ino blocksize 0 block a
      → BlocksBy name ino blocksize (some block ∷ rest) (in_block rest block later a)
  unfolding in_block AreBlocks all_links
  in_block-BlocksBy blocksize block rest later c cs b (added block') (c', i) =
      ((c', cs), Inserted-right (all_links rest) i)
  in_block-BlocksBy blocksize block rest later c cs b enospc full =
      put_behind-BlocksBy blocksize block rest c full later b
  in_block-BlocksBy blocksize block rest later c cs b endless a = elim a [ ]

  pub add_blocks-BlocksBy :
      (blocksize : ℕ) (blocks : List (Option Block))
      → blocksize < 2 ^ 16
      → AreBlocks blocksize blocks
      → BlocksBy name ino blocksize blocks (add_blocks blocksize name ino blocks)
  unfolding add_blocks AreBlocks AllBlocksFull
  add_blocks-BlocksBy blocksize [] word cs = tt
  add_blocks-BlocksBy blocksize (none ∷ rest) word cs = elim cs [ ]
  add_blocks-BlocksBy blocksize (some block ∷ rest) word (c, cs) =
      in_block-BlocksBy blocksize block rest _ c cs (add_blocks-BlocksBy blocksize rest word cs) _
        (unfold add_dirent_to_buf in add_from-AddedBy blocksize 0 block word c)
