-- ===== src/Balloc/Alloc.antt =====
-- pmfs_new_block: what it hands out, and when it refuses.
use pmfs.Base.{
  ℕ, ◌+◌, ◌≤◌, ◌<◌, ◌^◌, ◌≡◌, refl, ◌⊎◌, inl, inr, Bool, true, ◌||◌, List, ◌∷◌, arith, subst,
  length,
}
use pmfs.Base.Words.{sub64}
use pmfs.Balloc.{
  BlockNode, SbInfo, BlockType, type_4k, type_2m, type_1g, get_numblocks, Walk, placed, no_memory,
  no_room, NewBlock, allocated, enospc, take_blocks, new_block,
}
use pmfs.Balloc.Spec.{used, total, in_run, length-chain, IsValid}
use pmfs.Balloc.Place.{PlacedBy, count_nodes-Resized}
use pmfs.Balloc.Search.{AlignedBy, NoHole, Hole, RoomBy, walk-PlacedBy, walk-AlignedBy, walk-RoomBy}

pub numblocks_bounds : (t : BlockType) → (0 < get_numblocks t) × (get_numblocks t ≤ 2 ^ 32)
unfolding get_numblocks
numblocks_bounds type_4k = omega arith
numblocks_bounds type_2m = omega arith
numblocks_bounds type_1g = omega arith

-- What a successful allocation of `n` blocks at `blocknr` means.
pub record NewRun (sbi sbi' : SbInfo) (n blocknr : ℕ) : Type 0 where
  pub valid : IsValid sbi'
  pub same_end : sbi'.block_end ≡ sbi.block_end
  pub hole : Hole sbi.block_end n sbi.block_inuse_head blocknr
  pub used_after :
      (b : ℕ) → used sbi'.block_inuse_head b ≡ (used sbi.block_inuse_head b || in_run blocknr n b)
  pub total_after : total sbi'.block_inuse_head ≡ total sbi.block_inuse_head + n
  pub free_after : sbi'.num_free_blocks ≡ sub64 sbi.num_free_blocks n

abbrev NewRunBy : SbInfo → ℕ → NewBlock → Type 0
NewRunBy sbi n (allocated sbi' blocknr) = NewRun sbi sbi' n blocknr
NewRunBy sbi n enospc = Unit

take_blocks-NewRun :
    (mem : Bool) (sbi : SbInfo) (n : ℕ) (w : Walk)
    → IsValid sbi
    → PlacedBy mem 0 sbi.block_end n sbi.block_inuse_head w
    → AlignedBy n w
    → NewRunBy sbi n (take_blocks sbi n w)
unfolding take_blocks
take_blocks-NewRun mem sbi n (placed l' change low) v p a = record {
  valid = record {
    chain = p.chain;
    small = v.small;
    counted = rw v.counted (
        count_nodes-Resized change (length sbi.block_inuse_head) (length l')
          (omega (arith, v.small, length-chain 0 sbi.block_end sbi.block_inuse_head v.chain))
          (omega (arith, v.small, length-chain 0 sbi.block_end l' p.chain)) p.resized);
  };
  same_end = refl;
  hole = record { aligned = a; fits = p.fits; is_free = p.was_free };
  used_after = p.used_after;
  total_after = p.total_after;
  free_after = refl;
}
take_blocks-NewRun mem sbi n no_memory v p a = tt
take_blocks-NewRun mem sbi n no_room v p a = tt

module _ (mem : Bool) (sbi : SbInfo) (t : BlockType) (v : IsValid sbi) where
  new_block-NewRunBy : NewRunBy sbi (get_numblocks t) (new_block mem sbi t)
  unfolding new_block
  new_block-NewRunBy =
      let (pos, few) = numblocks_bounds t in
      take_blocks-NewRun mem sbi (get_numblocks t) _ v
        (walk-PlacedBy mem sbi.block_end (get_numblocks t) v.small pos few 0 _ v.chain)
        (walk-AlignedBy mem sbi.block_end (get_numblocks t) v.small pos few 0 _ v.chain)

-- In a valid state, a block number that `new_block` returns is the start of a run of as many blocks
-- as the block type has, at a multiple of that number, below the end of the device and free before.
-- Afterwards the blocks in use are those of before and the run, the count of blocks in use has grown
-- and the free counter fallen by the size of the run, and the state is valid.
pub new_block-NewRun :
    (mem : Bool) (sbi : SbInfo) (t : BlockType) {sbi' : SbInfo} {blocknr : ℕ}
    → IsValid sbi
    → new_block mem sbi t ≡ allocated sbi' blocknr
    → NewRun sbi sbi' (get_numblocks t) blocknr
new_block-NewRun mem sbi t v e =
    subst (NewRunBy sbi (get_numblocks t)) e (new_block-NewRunBy mem sbi t v)

abbrev NoRoomBy : Bool → ℕ → ℕ → List BlockNode → NewBlock → Type 0
NoRoomBy mem high n l (allocated sbi' blocknr) = Unit
NoRoomBy mem high n l enospc = (mem ≡ true) → NoHole high n l

take_blocks-NoRoom :
    (mem : Bool) (sbi : SbInfo) (high n : ℕ) (l : List BlockNode) (w : Walk)
    → PlacedBy mem 0 high n l w
    → RoomBy high n l w
    → NoRoomBy mem high n l (take_blocks sbi n w)
unfolding take_blocks
take_blocks-NoRoom mem sbi high n l (placed l' change low) p r = tt
take_blocks-NoRoom mem sbi high n l no_memory p r = λ m. cc
take_blocks-NoRoom mem sbi high n l no_room p r = λ m. r

-- A state whose list begins with the node `i`.
abbrev pub BeginsWith : SbInfo → BlockNode → Type 0
BeginsWith sbi i = (rest : List BlockNode) × (sbi.block_inuse_head ≡ i ∷ rest)

NewBlock-cases :
    (r : NewBlock) → (r ≡ enospc) ⊎ ((sbi' : SbInfo) × (blocknr : ℕ) × (r ≡ allocated sbi' blocknr))
NewBlock-cases (allocated sbi' blocknr) = inr (sbi', blocknr, refl)
NewBlock-cases enospc = inl refl

-- In a valid state with memory for a node, `new_block` succeeds whenever an aligned free run of the
-- requested size lies behind the first node of the in-use list and below the end of the device.
pub new_block_complete :
    (sbi : SbInfo) (t : BlockType) (i : BlockNode) (a : ℕ)
    → IsValid sbi
    → BeginsWith sbi i
    → i.block_high < a
    → Hole sbi.block_end (get_numblocks t) sbi.block_inuse_head a
    → (sbi' : SbInfo) × (blocknr : ℕ) × (new_block true sbi t ≡ allocated sbi' blocknr)
new_block_complete sbi t i a v (rest, e) lt hole = elim (NewBlock-cases (new_block true sbi t)) [
  | inr found ↦ found
  | inl full ↦ absurd (
      subst (λ (l : List BlockNode). NoHole sbi.block_end n l) e (no_room_left full) a lt
        (subst (λ (l : List BlockNode). Hole sbi.block_end n l a) e hole))
]
  where
    n : ℕ
    n = get_numblocks t

    no_room_left : new_block true sbi t ≡ enospc → NoHole sbi.block_end n sbi.block_inuse_head
    no_room_left full =
        let (pos, few) = numblocks_bounds t in
        subst (NoRoomBy true sbi.block_end n sbi.block_inuse_head) full
          (unfold new_block in
            take_blocks-NoRoom true sbi sbi.block_end n sbi.block_inuse_head _
              (walk-PlacedBy true sbi.block_end n v.small pos few 0 _ v.chain)
              (walk-RoomBy true sbi.block_end n v.small pos few 0 _ v.chain))
          refl
