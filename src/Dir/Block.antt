-- ===== src/Dir/Block.antt =====
-- When a block is well formed: its entries tile it, each with room for its name.
use pmfs.Base.{
  ℕ, ◌+◌, ◌%◌, ◌^◌, ◌≤◌, ◌<◌, ◌≡◌, Option, none, some, List, [], ◌∷◌, arith, length, ◌==◌,
  if◌then◌else◌,
}
use pmfs.Dir.{DirEntry, Block, dir_rec_len}

pub record IsDirEntry (de : DirEntry) : Type 0 where
  pub minimal : 16 ≤ de.de_len
  pub whole : de.de_len % 4 ≡ 0
  pub has_room : dir_rec_len de.name_len ≤ de.de_len
  pub counted : length de.name ≡ de.name_len
  pub named : 0 < de.ino → 0 < de.name_len

-- The entries of a well-formed block from the offset on end with the block.
unfoldable pub IsChain : (blocksize offset : ℕ) → Block → Type 0
IsChain blocksize offset [] = offset ≡ blocksize
IsChain blocksize offset (de ∷ rest) = IsDirEntry de × IsChain blocksize (offset + de.de_len) rest

pub IsChain-end :
    (blocksize offset : ℕ) (block : Block) → IsChain blocksize offset block → offset ≤ blocksize
unfolding IsChain
IsChain-end blocksize offset [] e = omega (arith, e)
IsChain-end blocksize offset (de ∷ rest) (d, c) =
    omega (arith, IsChain-end blocksize (offset + de.de_len) rest c)

-- an entry that no name of the record length fits behind
abbrev pub IsFull : (reclen : ℕ) → DirEntry → Type 0
IsFull reclen de = de.de_len < (if de.ino == 0 then 0 else dir_rec_len de.name_len) + reclen

unfoldable pub AllFull : (reclen : ℕ) → Block → Type 0
AllFull reclen [] = Unit
AllFull reclen (de ∷ rest) = IsFull reclen de × AllFull reclen rest

pub AllFull-end :
    (blocksize reclen offset : ℕ) (block : Block)
    → IsChain blocksize offset block
    → blocksize < offset + reclen
    → AllFull reclen block
unfolding IsChain AllFull
AllFull-end blocksize reclen offset [] c lt = tt
AllFull-end blocksize reclen offset (de ∷ rest) (d, c) lt =
    let fits = IsChain-end blocksize (offset + de.de_len) rest c in
    (omega arith, AllFull-end blocksize reclen (offset + de.de_len) rest c (omega arith))

-- Every block of the directory is there and well formed.
unfoldable pub AreBlocks : (blocksize : ℕ) → List (Option Block) → Type 0
AreBlocks blocksize [] = Unit
AreBlocks blocksize (none ∷ rest) = ⊥
AreBlocks blocksize (some block ∷ rest) = IsChain blocksize 0 block × AreBlocks blocksize rest

unfoldable pub AllBlocksFull : (reclen : ℕ) → List (Option Block) → Type 0
unfolding AllFull
AllBlocksFull reclen [] = Unit
AllBlocksFull reclen (none ∷ rest) = AllBlocksFull reclen rest
AllBlocksFull reclen (some block ∷ rest) = AllFull reclen block × AllBlocksFull reclen rest

-- The block sizes that the operations need: 4096 is one.
pub record IsBlocksize (blocksize : ℕ) : Type 0 where
  pub whole : blocksize % 4 ≡ 0
  pub large : 268 ≤ blocksize
  pub word : blocksize < 2 ^ 16
