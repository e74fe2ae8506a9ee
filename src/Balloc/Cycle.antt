-- ===== src/Balloc/Cycle.antt =====
-- pmfs_new_block and pmfs_free_block together: a run can be given back, and no block is lost.
use pmfs.Base.{
  ℕ, ◌+◌, ◌-◌, ◌%◌, ◌≤◌, ◌<◌, ◌^◌, ◌≡◌, refl, ◌∙◌, inl, inr, Bool, true, false, List, [], ◌∷◌,
  arith, Bool-cases, dec_le,
}
use pmfs.Base.Words.{add64, sub64}
use pmfs.Balloc.{
  BlockNode, SbInfo, BlockType, get_numblocks, Hint, Release, released, kept, not_found, FreeBlock,
  freed, assertion_failed, error_mng, bug, give_back, is_empty, free_block, allocated, new_block,
}
use pmfs.Balloc.Spec.{used, total, in_run, used-above, IsValid}
use pmfs.Balloc.Loop.{ReleasedBy, release-ReleasedBy}
use pmfs.Balloc.Alloc.{numblocks_bounds, NewRun, new_block-NewRun}
use pmfs.Balloc.Free.{FreedRun, free_block-FreedRun, free_block_lem}

-- all `n` blocks from `blocknr` on are in use
abbrev pub InUse : SbInfo → ℕ → ℕ → Type 0
InUse sbi n blocknr = (b : ℕ) → in_run blocknr n b ≡ true → used sbi.block_inuse_head b ≡ true

abbrev FailsBy : SbInfo → ℕ → ℕ → FreeBlock → Type 0
FailsBy sbi n blocknr (freed sbi' hint) = Unit
FailsBy sbi n blocknr assertion_failed = ⊥
FailsBy sbi n blocknr error_mng = ¬ InUse sbi n blocknr
FailsBy sbi n blocknr bug = sbi.block_inuse_head ≡ []

give_back-FailsBy :
    (sbi : SbInfo) (n blocknr : ℕ) (r : Release)
    → ReleasedBy true 0 sbi.block_end n blocknr sbi.block_inuse_head r
    → FailsBy sbi n blocknr (give_back sbi n r)
unfolding give_back
give_back-FailsBy sbi n blocknr (released l' change hint) p = tt
give_back-FailsBy sbi n blocknr kept p = cc
give_back-FailsBy sbi n blocknr not_found p = p

is_empty-eq-nil : (l : List BlockNode) → is_empty l ≡ true → l ≡ []
unfolding is_empty
is_empty-eq-nil [] e = refl
is_empty-eq-nil (i ∷ rest) e = cc

free_block-FailsBy :
    (sbi : SbInfo) (blocknr : ℕ) (t : BlockType)
    → IsValid sbi
    → blocknr + get_numblocks t < 2 ^ 63
    → FailsBy sbi (get_numblocks t) blocknr (free_block true sbi blocknr t)
free_block-FailsBy sbi blocknr t v small =
    rw (free_block_lem true sbi blocknr t small)
      (elim (Bool-cases (is_empty sbi.block_inuse_head)) [
        | inl e ↦ rw e (is_empty-eq-nil sbi.block_inuse_head e)
        | inr e ↦ rw e (
            give_back-FailsBy sbi (get_numblocks t) blocknr _ (
              release-ReleasedBy true 0 sbi.block_end (get_numblocks t) blocknr _ v.chain
                (numblocks_bounds t).0 small))
      ])

-- A run in use ends at or below the end of the device, since its last block does.
InUse-le :
    (sbi : SbInfo) (n blocknr : ℕ)
    → IsValid sbi
    → 0 < n
    → InUse sbi n blocknr
    → blocknr + n ≤ sbi.block_end
InUse-le sbi n blocknr v pos all = elim (dec_le (blocknr + n) sbi.block_end) [
  | yes le ↦ le
  | no gt ↦ absurd (
      ground (
        arith,
        all (blocknr + n - 1),
        used-above 0 sbi.block_end sbi.block_inuse_head (blocknr + n - 1) v.chain,
      ))
]

FreeBlock-found :
    (sbi : SbInfo) (n blocknr : ℕ) (r : FreeBlock)
    → 0 < n
    → InUse sbi n blocknr
    → FailsBy sbi n blocknr r
    → (sbi' : SbInfo) × (hint : Hint) × (r ≡ freed sbi' hint)
FreeBlock-found sbi n blocknr (freed sbi' hint) pos all f = (sbi', hint, refl)
FreeBlock-found sbi n blocknr assertion_failed pos all f = absurd f
FreeBlock-found sbi n blocknr error_mng pos all f = absurd (f all)
FreeBlock-found sbi n blocknr bug pos all f =
    let none_used : used sbi.block_inuse_head blocknr ≡ false = rw f in
    absurd (ground (arith, all blocknr))

-- In a valid state with memory for a node, `free_block` succeeds on every run that is wholly in use,
-- whichever allocations made it.
pub free_block_complete :
    (sbi : SbInfo) (blocknr : ℕ) (t : BlockType)
    → IsValid sbi
    → InUse sbi (get_numblocks t) blocknr
    → (sbi' : SbInfo) × (hint : Hint) × (free_block true sbi blocknr t ≡ freed sbi' hint)
free_block_complete sbi blocknr t v all =
    let pos = (numblocks_bounds t).0 in
    let le = InUse-le sbi (get_numblocks t) blocknr v pos all in
    FreeBlock-found sbi (get_numblocks t) blocknr _ pos all
      (free_block-FailsBy sbi blocknr t v (omega (arith, v.small)))

-- The blocks in use and the free counter are as in `sbi`.
pub record SameBlocks (sbi sbi' : SbInfo) : Type 0 where
  pub used_same : (b : ℕ) → used sbi'.block_inuse_head b ≡ used sbi.block_inuse_head b
  pub free_same : sbi'.num_free_blocks ≡ sbi.num_free_blocks

SameBlocks-freed :
    (sbi sbi' sbi'' : SbInfo) (n blocknr : ℕ)
    → sbi.num_free_blocks < 2 ^ 64
    → n ≤ 2 ^ 32
    → NewRun sbi sbi' n blocknr
    → FreedRun sbi' sbi'' n blocknr
    → SameBlocks sbi sbi''
unfolding add64 sub64
SameBlocks-freed sbi sbi' sbi'' n blocknr word few new old = record {
  used_same = λ b. ground (arith, new.used_after b, old.used_after b, new.hole.is_free b);
  free_same = omega (arith, new.free_after, old.free_after);
}

-- In a valid state, a run that `new_block` has handed out can be given back at once (with memory
-- for a node), and then the blocks in use and the free counter are those of before.
pub free_block-new_block :
    (mem : Bool) (sbi : SbInfo) (t : BlockType) {sbi' : SbInfo} {blocknr : ℕ}
    → IsValid sbi
    → sbi.num_free_blocks < 2 ^ 64
    → new_block mem sbi t ≡ allocated sbi' blocknr
    → (sbi'' : SbInfo) × (hint : Hint) × (free_block true sbi' blocknr t ≡ freed sbi'' hint)
      × SameBlocks sbi sbi''
free_block-new_block mem sbi t {sbi'} {blocknr} v word e =
    let new = new_block-NewRun mem sbi t v e in
    let all : InUse sbi' (get_numblocks t) blocknr = λ b h. ground (arith, new.used_after b) in
    let (sbi'', hint, found) = free_block_complete sbi' blocknr t new.valid all in
    let small : blocknr + get_numblocks t < 2 ^ 63 = omega (arith, new.hole.fits, v.small) in
    (
      sbi'',
      hint,
      found,
      SameBlocks-freed sbi sbi' sbi'' (get_numblocks t) blocknr word (numblocks_bounds t).1 new
          (free_block-FreedRun true sbi' blocknr t new.valid small found),
    )

-- One operation that changes the state: a successful allocation or release of a run in bounds.
pub data Step (sbi sbi' : SbInfo) : Type 0 where
  alloc :
      (mem : Bool) (t : BlockType) (blocknr : ℕ)
      → new_block mem sbi t ≡ allocated sbi' blocknr
      → Step sbi sbi'
  free :
      (mem : Bool) (t : BlockType) (blocknr : ℕ) (hint : Hint)
      → blocknr + get_numblocks t < 2 ^ 63
      → free_block mem sbi blocknr t ≡ freed sbi' hint
      → Step sbi sbi'

pub data Steps (sbi : SbInfo) : SbInfo → Type 0 where
  here : Steps sbi sbi
  next : {sbi' sbi'' : SbInfo} → Steps sbi sbi' → Step sbi' sbi'' → Steps sbi sbi''

-- The blocks that are free by the counter or in use by the list, modulo the counter's word.
pub balance : SbInfo → ℕ
balance sbi = (sbi.num_free_blocks + total sbi.block_inuse_head) % 2 ^ 64

Step-balance :
    {sbi sbi' : SbInfo} → Step sbi sbi' → IsValid sbi → IsValid sbi' × (balance sbi' ≡ balance sbi)
unfolding balance add64 sub64
Step-balance {sbi} (alloc mem t blocknr e) v =
    let new = new_block-NewRun mem sbi t v e in
    (new.valid, omega (arith, new.total_after, new.free_after, numblocks_bounds t))
Step-balance {sbi} (free mem t blocknr hint small e) v =
    let old = free_block-FreedRun mem sbi blocknr t v small e in
    (old.valid, omega (arith, old.total_after, old.free_after, numblocks_bounds t))

-- Whatever sequence of allocations and releases is made from a valid state, the state stays valid,
-- and the free counter and the number of blocks in use keep their sum (modulo 2 ^ 64).
pub Steps-balance :
    {sbi sbi' : SbInfo} → Steps sbi sbi' → IsValid sbi → IsValid sbi' × (balance sbi' ≡ balance sbi)
Steps-balance here v = (v, refl)
Steps-balance (next steps step) v =
    let (v', e') = Steps-balance steps v in let (v'', e'') = Step-balance step v' in (v'', e'' ∙ e')
