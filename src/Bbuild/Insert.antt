-- ===== src/Bbuild/Insert.antt =====
-- pmfs_alloc_insert_blocknode_map: it takes exactly the runs that are free.
use pmfs.Base.{
  ℕ, ◌+◌, ◌-◌, ◌≤◌, ◌<◌, ◌^◌, ◌≡◌, ◌≢◌, sym, ◌∙◌, refl, ◌⊎◌, inl, inr, Bool, true, false, ◌||◌,
  List, [], ◌∷◌, arith, subst, ap, length, dec_lt, max,
}
use pmfs.Base.Words.{add64, sub64, add64-eq-add}
use pmfs.Balloc.{
  BlockNode, SbInfo, Fit, skip, fill, left, right, middle, fit, Walk, placed, no_memory, no_room,
  behind, place, next_block_low, NewBlock, allocated, enospc, take_blocks,
}
use pmfs.Balloc.Spec.{used, total, in_run, IsChain, used-below, length-chain, IsValid}
use pmfs.Balloc.Place.{
  PlacedBy, behind-PlacedBy, place-PlacedBy, Fits, fit-Fits, next-le, count_nodes-Resized,
}
use pmfs.Bbuild.{insert_walk, insert_blocknode_map}

-- A run that begins inside or in front of a node is passed over at that node.
fit-skip :
    (high next low' high' : ℕ) → high < 2 ^ 63 → low' ≤ high → fit high next low' high' ≡ skip
unfolding fit
fit-skip high next low' high' h le = ground (arith, add64-eq-add high 1)

module _ (mem : Bool) (high low n : ℕ) (small : high < 2 ^ 63) (pos : 0 < n) where
  pub insert_walk-PlacedBy :
      (k : ℕ) (l : List BlockNode)
      → IsChain k high l
      → PlacedBy mem k high n l (insert_walk mem high low (low + n - 1) l)
  unfolding insert_walk place
  insert_walk-PlacedBy k [] c = tt
  insert_walk-PlacedBy k (i ∷ rest) c =
      let next = next-le (i.block_high + 2) high rest c.2 in
      let later = insert_walk-PlacedBy (i.block_high + 2) rest c.2 in
      elim (dec_lt i.block_high low) [
        | yes p ↦
            place-PlacedBy mem i rest low _ _ c pos next.1
              (fit-Fits i.block_high (next_block_low high rest) low (low + n - 1) (omega arith)
                (omega arith) p)
              later
        | no p ↦
            rw
              (fit-skip i.block_high (next_block_low high rest) low (low + n - 1) (omega arith)
                (omega arith))
              (behind-PlacedBy mem k high n i rest _ c later)
      ]

-- a run that is placed begins at `low`, and `P` holds if none is
abbrev FoundAt : Type 0 → ℕ → Walk → Type 0
FoundAt P low (placed l change low') = low' ≡ low
FoundAt P low no_memory = P
FoundAt P low no_room = P

behind-FoundAt :
    (P : Type 0) (low : ℕ) (i : BlockNode) (w : Walk) → FoundAt P low w → FoundAt P low (behind i w)
unfolding behind
behind-FoundAt P low i (placed l change low') h = h
behind-FoundAt P low i no_memory h = h
behind-FoundAt P low i no_room h = h

-- With memory, the body of the loop takes the run unless it goes on.
place-FoundAt :
    (P : Type 0) (low high' : ℕ) (i : BlockNode) (rest : List BlockNode) (f : Fit) (later : Walk)
    → ((f ≡ skip) → FoundAt P low later)
    → FoundAt P low (place true i rest low high' f later)
unfolding place
place-FoundAt P low high' i rest skip later h = behind-FoundAt P low i later (h refl)
place-FoundAt P low high' i [] fill later h = refl
place-FoundAt P low high' i (j ∷ rest) fill later h = refl
place-FoundAt P low high' i rest left later h = refl
place-FoundAt P low high' i [] right later h = refl
place-FoundAt P low high' i (j ∷ rest) right later h = refl
place-FoundAt P low high' i rest middle later h = refl

insert_walk-low :
    (high low high' : ℕ) (l : List BlockNode) → FoundAt Unit low (insert_walk true high low high' l)
unfolding insert_walk
insert_walk-low high low high' [] = tt
insert_walk-low high low high' (i ∷ rest) =
    place-FoundAt _ low high' i rest _ _ λ e. insert_walk-low high low high' rest

abbrev pub IsFree : List BlockNode → ℕ → ℕ → Type 0
IsFree l low n = (b : ℕ) → in_run low n b ≡ true → used l b ≡ false

module _ (high low n : ℕ) (small : high < 2 ^ 63) (pos : 0 < n) (fits : low + n ≤ high) where
  -- Behind a node in front of the run, the tests go on only if the next node reaches up to it.
  skip-next :
      (h next : ℕ)
      → h < low
      → next < 2 ^ 63
      → fit h next low (low + n - 1) ≡ skip
      → next ≤ low + n - 1
  skip-next h next lt le e =
      subst (Fits h next low (low + n - 1)) e
        (fit-Fits h next low (low + n - 1) (omega arith) (omega arith) lt)

  insert_walk-FoundAt :
      (k : ℕ) (i : BlockNode) (rest : List BlockNode)
      → IsChain k high (i ∷ rest)
      → i.block_high < low
      → IsFree (i ∷ rest) low n
      → FoundAt ⊥ low (insert_walk true high low (low + n - 1) (i ∷ rest))
  unfolding insert_walk next_block_low
  insert_walk-FoundAt k i [] c lt free =
      place-FoundAt _ low (low + n - 1) i [] _ _
        λ e. absurd (omega (arith, skip-next i.block_high high lt small e))
  insert_walk-FoundAt k i (j ∷ rest) c lt free =
      let next = next-le (i.block_high + 2) high (j ∷ rest) c.2 in
      place-FoundAt _ low (low + n - 1) i (j ∷ rest) _ _ λ e.
        let reach = skip-next i.block_high j.block_low lt (omega arith) e in
        insert_walk-FoundAt (i.block_high + 2) j rest c.2
          (ground (arith, free (max low j.block_low))) λ b r. ground (arith, free b r)

-- The list of `sbi'` is that of `sbi` with the `n` blocks from `low` on.
pub record Extended (sbi sbi' : SbInfo) (low n : ℕ) : Type 0 where
  pub valid : IsValid sbi'
  pub same_end : sbi'.block_end ≡ sbi.block_end
  pub was_free : IsFree sbi.block_inuse_head low n
  pub fits : low + n ≤ sbi.block_end
  pub used_after :
      (b : ℕ) → used sbi'.block_inuse_head b ≡ (used sbi.block_inuse_head b || in_run low n b)
  pub total_after : total sbi'.block_inuse_head ≡ total sbi.block_inuse_head + n
  pub free_after : sbi'.num_free_blocks ≡ sub64 sbi.num_free_blocks n

-- What an insertion of `n` blocks from `low` on says about the two states.
abbrev pub ExtendedBy : SbInfo → ℕ → NewBlock → Type 0
ExtendedBy sbi n (allocated sbi' low) = Extended sbi sbi' low n
ExtendedBy sbi n enospc = Unit

take_blocks-ExtendedBy :
    (mem : Bool) (sbi : SbInfo) (n : ℕ) (w : Walk)
    → IsValid sbi
    → PlacedBy mem 0 sbi.block_end n sbi.block_inuse_head w
    → ExtendedBy sbi n (take_blocks sbi n w)
unfolding take_blocks
take_blocks-ExtendedBy mem sbi n (placed l' change low) v p = record {
  valid = record {
    chain = p.chain;
    small = v.small;
    counted = rw v.counted (
        count_nodes-Resized change (length sbi.block_inuse_head) (length l')
          (omega (arith, v.small, length-chain 0 sbi.block_end sbi.block_inuse_head v.chain))
          (omega (arith, v.small, length-chain 0 sbi.block_end l' p.chain)) p.resized);
  };
  same_end = refl;
  was_free = p.was_free;
  fits = p.fits;
  used_after = p.used_after;
  total_after = p.total_after;
  free_after = refl;
}
take_blocks-ExtendedBy mem sbi n no_memory v p = tt
take_blocks-ExtendedBy mem sbi n no_room v p = tt

take_blocks-FoundAt :
    (sbi : SbInfo) (n low : ℕ) (w : Walk)
    → FoundAt ⊥ low w
    → (sbi' : SbInfo) × (take_blocks sbi n w ≡ allocated sbi' low)
unfolding take_blocks
take_blocks-FoundAt sbi n low (placed l' change low') h = rw h (_, refl)
take_blocks-FoundAt sbi n low no_memory h = elim h [ ]
take_blocks-FoundAt sbi n low no_room h = elim h [ ]

abbrev LowBy : ℕ → NewBlock → Type 0
LowBy low (allocated sbi' low') = low' ≡ low
LowBy low enospc = Unit

take_blocks-LowBy :
    (sbi : SbInfo) (n low : ℕ) (w : Walk) → FoundAt Unit low w → LowBy low (take_blocks sbi n w)
unfolding take_blocks
take_blocks-LowBy sbi n low (placed l' change low') h = h
take_blocks-LowBy sbi n low no_memory h = tt
take_blocks-LowBy sbi n low no_room h = tt

not_enospc : {sbi : SbInfo} {low : ℕ} → enospc ≢ allocated sbi low
not_enospc e = cc

module _ (sbi : SbInfo) (low n : ℕ) (v : IsValid sbi) (pos : 0 < n) (small : low + n < 2 ^ 64) where
  size-eq : add64 (sub64 (low + n - 1) low) 1 ≡ n
  unfolding add64 sub64
  size-eq = omega arith

  insert_blocknode_map-ExtendedBy :
      (mem : Bool) → ExtendedBy sbi n (insert_blocknode_map mem sbi low (low + n - 1))
  unfolding insert_blocknode_map
  insert_blocknode_map-ExtendedBy mem = rw size-eq (
      take_blocks-ExtendedBy mem sbi n _ v
        (insert_walk-PlacedBy mem sbi.block_end low n v.small pos 0 _ v.chain))

  first_node-below :
      (l : List BlockNode)
      → IsChain 0 sbi.block_end l
      → used l 0 ≡ true
      → IsFree l low n
      → low + n ≤ sbi.block_end
      → FoundAt ⊥ low (insert_walk true sbi.block_end low (low + n - 1) l)
  first_node-below [] c h free fits = absurd (ground arith)
  first_node-below (i ∷ rest) c h free fits =
      insert_walk-FoundAt sbi.block_end low n v.small pos fits 0 i rest c
        (ground (arith, free low, used-below (i.block_high + 2) sbi.block_end rest 0 c.2)) free

  insert_blocknode_map-found :
      used sbi.block_inuse_head 0 ≡ true
      → IsFree sbi.block_inuse_head low n
      → low + n ≤ sbi.block_end
      → (sbi' : SbInfo) × (insert_blocknode_map true sbi low (low + n - 1) ≡ allocated sbi' low)
  unfolding insert_blocknode_map
  insert_blocknode_map-found h free fits =
      rw size-eq (take_blocks-FoundAt sbi n low _ (first_node-below _ v.chain h free fits))

  insert_blocknode_map-low : LowBy low (insert_blocknode_map true sbi low (low + n - 1))
  unfolding insert_blocknode_map
  insert_blocknode_map-low = take_blocks-LowBy sbi _ low _ (insert_walk-low _ low _ _)

  -- In a valid state with block 0 in use and memory for a node, `insert_blocknode_map` of a run of at
  -- least one block that ends below block 2 ^ 64 either succeeds or returns `enospc`, and then some
  -- block of the run is in use or not below the end of the device. If it succeeds, all of the run was
  -- free and below the end of the device; afterwards the state is valid, the blocks in use are those
  -- of before and the run, and the count of blocks in use has grown and the free counter fallen by
  -- the size of the run.
  pub insert_blocknode_map-Extended :
      used sbi.block_inuse_head 0 ≡ true
      → ((sbi' : SbInfo) × (insert_blocknode_map true sbi low (low + n - 1) ≡ allocated sbi' low)
          × Extended sbi sbi' low n)
        ⊎ ((insert_blocknode_map true sbi low (low + n - 1) ≡ enospc)
            × ¬ (IsFree sbi.block_inuse_head low n × (low + n ≤ sbi.block_end)))
  insert_blocknode_map-Extended h = by_outcome _ refl
    where
      by_outcome :
          (r : NewBlock)
          → insert_blocknode_map true sbi low (low + n - 1) ≡ r
          → ((sbi' : SbInfo) × (r ≡ allocated sbi' low) × Extended sbi sbi' low n)
            ⊎ ((r ≡ enospc) × ¬ (IsFree sbi.block_inuse_head low n × (low + n ≤ sbi.block_end)))
      by_outcome (allocated sbi' low') e =
          let same_low = subst (LowBy low) e insert_blocknode_map-low in
          inl (
            sbi',
            ap (allocated sbi') same_low,
            subst (λ (a : ℕ). Extended sbi sbi' a n) same_low
                (subst (ExtendedBy sbi n) e (insert_blocknode_map-ExtendedBy true)),
          )
      by_outcome enospc e =
          inr (refl, λ all. not_enospc (sym e ∙ (insert_blocknode_map-found h all.0 all.1).1))
