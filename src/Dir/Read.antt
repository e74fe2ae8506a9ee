-- ===== src/Dir/Read.antt =====
-- Reading a whole directory: pmfs_readdir from position 0, for a reader that takes every entry, and
-- pmfs_empty_dir.
use pmfs.Base.{
  ℕ, ◌+◌, ◌<◌, ◌≡◌, refl, subst, Bool, true, false, ◌||◌, not, Option, none, some, List, [], ◌∷◌,
  ◌++◌, arith, ◌==◌, ltb, if◌then◌else◌, Bool-cases, inl, inr,
}
use pmfs.Dir.{DirEntry, Block, dir_rec_len, check_dir_entry, same_name, dot_block}
use pmfs.Dir.Links.{Link, link, links, all_links}
use pmfs.Dir.Block.{IsChain, IsChain-end, AreBlocks, IsBlocksize}
use pmfs.Dir.Delete.{check_dir_entry-IsDirEntry}

-- `endless`: a bad entry at the beginning of a block is the one that the walk comes to again.
pub data Emitted : Type 0 where
  emitted : List Link → Emitted
  endless : Emitted

unfoldable pub emit : List Link → Emitted → Emitted
emit ls (emitted ms) = emitted (ls ++ ms)
emit ls endless = endless

-- The inner loop of `pmfs_readdir` on the rest of a block, and `later` for the blocks behind it.
unfoldable pub emit_block : (blocksize offset : ℕ) → Block → Emitted → Emitted
unfolding check_dir_entry emit
emit_block blocksize offset [] later = later
emit_block blocksize offset (de ∷ rest) later =
    let next = emit_block blocksize (offset + de.de_len) rest later in
    if not (ltb offset blocksize)
    then later
    else if not (check_dir_entry blocksize offset de)
    then (if offset == 0 then endless else later)
    else if de.ino == 0
    then next
    else emit (link de.name de.ino ∷ []) next

unfoldable pub readdir : (blocksize : ℕ) → List (Option Block) → Emitted
unfolding emit_block
readdir blocksize [] = emitted []
readdir blocksize (none ∷ rest) = readdir blocksize rest
readdir blocksize (some block ∷ rest) = emit_block blocksize 0 block (readdir blocksize rest)

-- The loop of `pmfs_empty_dir` over the entries of a block: no entry is in use. A bad entry ends the
-- block.
unfoldable pub empty_from : (blocksize offset : ℕ) → Block → Bool → Bool
unfolding check_dir_entry
empty_from blocksize offset [] later = later
empty_from blocksize offset (de ∷ rest) later =
    let next = empty_from blocksize (offset + de.de_len) rest later in
    if not (ltb offset blocksize) || not (check_dir_entry blocksize offset de)
    then later
    else if de.ino == 0
    then next
    else false

unfoldable pub empty_blocks : (blocksize : ℕ) → List (Option Block) → Bool
unfolding empty_from
empty_blocks blocksize [] = true
empty_blocks blocksize (none ∷ rest) = empty_blocks blocksize rest
empty_blocks blocksize (some block ∷ rest) =
    empty_from blocksize 0 block (empty_blocks blocksize rest)

-- `pmfs_empty_dir` on the directory with the inode number `ino`. A directory without a first block
-- of at least two entries counts as empty, as one whose first entries are not "." and "..".
unfoldable pub empty_dir : (blocksize ino : ℕ) → List (Option Block) → Bool
unfolding empty_blocks empty_from same_name
empty_dir blocksize ino [] = true
empty_dir blocksize ino (none ∷ rest) = true
empty_dir blocksize ino (some [] ∷ rest) = true
empty_dir blocksize ino (some (de ∷ []) ∷ rest) = true
empty_dir blocksize ino (some (de ∷ de1 ∷ behind) ∷ rest) =
    if not (de.ino == ino)
      || de1.ino == 0
      || not (same_name de.name (46 ∷ []))
      || not (same_name de1.name (46 ∷ 46 ∷ []))
    then true
    else empty_from blocksize (de.de_len + de1.de_len) behind (empty_blocks blocksize rest)

emit_block-IsChain :
    (blocksize offset : ℕ) (block : Block) (ls : List Link)
    → IsChain blocksize offset block
    → emit_block blocksize offset block (emitted ls) ≡ emitted (links block ++ ls)
unfolding emit_block links IsChain emit
emit_block-IsChain blocksize offset [] ls c = refl
emit_block-IsChain blocksize offset (de ∷ rest) ls (d, c) =
    let fits = IsChain-end blocksize (offset + de.de_len) rest c in
    let e : ltb offset blocksize ≡ true = ground (arith, d.minimal) in
    let f = check_dir_entry-IsDirEntry blocksize offset de d fits in
    let ih = emit_block-IsChain blocksize (offset + de.de_len) rest ls c in
    elim (Bool-cases (de.ino == 0)) [ inl z ↦ rw (e, f, z) ih | inr z ↦ rw (e, f, z, ih) refl ]

-- On a directory of well-formed blocks `pmfs_readdir` ends, and emits exactly the links of the
-- entries in use, in order.
pub readdir-all_links :
    (blocksize : ℕ) (blocks : List (Option Block))
    → AreBlocks blocksize blocks
    → readdir blocksize blocks ≡ emitted (all_links blocks)
unfolding readdir AreBlocks all_links
readdir-all_links blocksize [] a = refl
readdir-all_links blocksize (none ∷ rest) a = elim a [ ]
readdir-all_links blocksize (some block ∷ rest) (c, a) =
    rw (readdir-all_links blocksize rest a)
      (emit_block-IsChain blocksize 0 block (all_links rest) c)

abbrev pub no_links : List Link → Bool
no_links [] = true
no_links (l ∷ ls) = false

empty_from-IsChain :
    (blocksize offset : ℕ) (block : Block) (ls : List Link)
    → IsChain blocksize offset block
    → empty_from blocksize offset block (no_links ls) ≡ no_links (links block ++ ls)
unfolding empty_from links IsChain
empty_from-IsChain blocksize offset [] ls c = refl
empty_from-IsChain blocksize offset (de ∷ rest) ls (d, c) =
    let fits = IsChain-end blocksize (offset + de.de_len) rest c in
    let e : ltb offset blocksize ≡ true = ground (arith, d.minimal) in
    let f = check_dir_entry-IsDirEntry blocksize offset de d fits in
    let ih = empty_from-IsChain blocksize (offset + de.de_len) rest ls c in
    elim (Bool-cases (de.ino == 0)) [ inl z ↦ rw (e, f, z) ih | inr z ↦ rw (e, f, z) refl ]

empty_blocks-all_links :
    (blocksize : ℕ) (blocks : List (Option Block))
    → AreBlocks blocksize blocks
    → empty_blocks blocksize blocks ≡ no_links (all_links blocks)
unfolding empty_blocks AreBlocks all_links
empty_blocks-all_links blocksize [] a = refl
empty_blocks-all_links blocksize (none ∷ rest) a = elim a [ ]
empty_blocks-all_links blocksize (some block ∷ rest) (c, a) =
    rw (empty_blocks-all_links blocksize rest a)
      (empty_from-IsChain blocksize 0 block (all_links rest) c)

-- On a directory of well-formed blocks whose first entries are "." for itself and ".." for an inode,
-- `pmfs_empty_dir` says whether these two are all its links.
pub empty_dir-all_links :
    (blocksize ino : ℕ) (de de1 : DirEntry) (behind : Block) (rest : List (Option Block))
    → AreBlocks blocksize (some (de ∷ de1 ∷ behind) ∷ rest)
    → 0 < ino
    → de.ino ≡ ino
    → 0 < de1.ino
    → de.name ≡ 46 ∷ []
    → de1.name ≡ 46 ∷ 46 ∷ []
    → empty_dir blocksize ino (some (de ∷ de1 ∷ behind) ∷ rest)
      ≡ no_links (links behind ++ all_links rest)
unfolding empty_dir AreBlocks IsChain same_name
empty_dir-all_links blocksize ino de de1 behind rest ((d, (d1, c)), a) pos self live e e1 =
    let same : (de.ino == ino) ≡ true = ground arith in
    let live1 : (de1.ino == 0) ≡ false = ground arith in
    let z : 0 + de.de_len + de1.de_len ≡ de.de_len + de1.de_len = omega arith in
    rw (same, live1, e, e1, empty_blocks-all_links blocksize rest a)
      (empty_from-IsChain blocksize (de.de_len + de1.de_len) behind (all_links rest)
        (subst (λ (o : ℕ). IsChain blocksize o behind) z c))

-- A new directory is well formed, and its links are "." to itself and ".." to its parent.
pub dot_block-IsChain :
    (blocksize self parent : ℕ)
    → IsBlocksize blocksize
    → 0 < self
    → 0 < parent
    → IsChain blocksize 0 (dot_block blocksize self parent)
      × (links (dot_block blocksize self parent)
          ≡ link (46 ∷ []) self ∷ link (46 ∷ 46 ∷ []) parent ∷ [])
unfolding dot_block IsChain links dir_rec_len
dot_block-IsChain blocksize self parent size live live' =
    let e : (self == 0) ≡ false = ground arith in
    let f : (parent == 0) ≡ false = ground arith in
    (
      (
        record {
          minimal = omega arith;
          whole = refl;
          has_room = omega arith;
          counted = refl;
          named = λ p. omega arith;
        },
        (
          record {
            minimal = omega (arith, size.large, size.word);
            whole = omega (arith, size.whole, size.large, size.word);
            has_room = omega (arith, size.large, size.word);
            counted = refl;
            named = λ p. omega arith;
          },
          omega (arith, size.large, size.word),
        ),
      ),
      rw (e, f) refl,
    )
