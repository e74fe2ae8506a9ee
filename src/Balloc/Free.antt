-- ===== src/Balloc/Free.antt =====
-- __pmfs_free_block and pmfs_free_block: what they give back, when they fail, and the start hint.
use pmfs.Base.{
  ℕ, zero, suc, ◌+◌, ◌-◌, ◌≤◌, ◌<◌, ◌^◌, ◌≡◌, refl, subst, Bool, true, ◌&&◌, not, none, some,
  Option, if◌then◌else◌, leb, leb→le, List, [], ◌∷◌, arith, length, get_elem?, take, drop,
  Bool-cases, inl, inr,
}
use pmfs.Base.Words.{add64, add64-eq-add, sub64-eq-sub}
use pmfs.Balloc.{
  BlockNode, SbInfo, BlockType, get_numblocks, Hint, skip, cut, carve, past_all, start_at,
  start_node, Release, released, kept, not_found, release, FreeBlock, freed, assertion_failed,
  error_mng, bug, give_back, is_empty, free_block_from, free_block,
}
use pmfs.Balloc.Spec.{used, total, in_run, IsChain, length-chain, IsValid}
use pmfs.Balloc.Place.{count_nodes-Resized}
use pmfs.Balloc.Loop.{ReleasedBy, release-ReleasedBy}
use pmfs.Balloc.Alloc.{numblocks_bounds}

-- What a successful release of `n` blocks at `blocknr` means.
pub record FreedRun (sbi sbi' : SbInfo) (n blocknr : ℕ) : Type 0 where
  pub valid : IsValid sbi'
  pub same_end : sbi'.block_end ≡ sbi.block_end
  pub was_used : (b : ℕ) → in_run blocknr n b ≡ true → used sbi.block_inuse_head b ≡ true
  pub used_after :
      (b : ℕ)
      → used sbi'.block_inuse_head b ≡ (used sbi.block_inuse_head b && not (in_run blocknr n b))
  pub total_after : total sbi'.block_inuse_head + n ≡ total sbi.block_inuse_head
  pub free_after : sbi'.num_free_blocks ≡ add64 sbi.num_free_blocks n

abbrev FreedRunBy : SbInfo → ℕ → ℕ → FreeBlock → Type 0
FreedRunBy sbi n blocknr (freed sbi' hint) = FreedRun sbi sbi' n blocknr
FreedRunBy sbi n blocknr assertion_failed = Unit
FreedRunBy sbi n blocknr error_mng = Unit
FreedRunBy sbi n blocknr bug = Unit

give_back-FreedRun :
    (mem : Bool) (sbi : SbInfo) (n blocknr : ℕ) (r : Release)
    → IsValid sbi
    → ReleasedBy mem 0 sbi.block_end n blocknr sbi.block_inuse_head r
    → FreedRunBy sbi n blocknr (give_back sbi n r)
unfolding give_back
give_back-FreedRun mem sbi n blocknr (released l' change hint) v p = record {
  valid = record {
    chain = p.chain;
    small = v.small;
    counted = rw v.counted (
        count_nodes-Resized change (length sbi.block_inuse_head) (length l')
          (omega (arith, v.small, length-chain 0 sbi.block_end sbi.block_inuse_head v.chain))
          (omega (arith, v.small, length-chain 0 sbi.block_end l' p.chain)) p.resized);
  };
  same_end = refl;
  was_used = p.was_used;
  used_after = p.used_after;
  total_after = p.total_after;
  free_after = refl;
}
give_back-FreedRun mem sbi n blocknr kept v p = tt
give_back-FreedRun mem sbi n blocknr not_found v p = tt

-- A node that begins at or below `low'` lies behind nodes that end below `low'`.
get-chain :
    (m high : ℕ) (l : List BlockNode) (k : ℕ) (i : BlockNode)
    → IsChain m high l
    → get_elem? l k ≡ some i
    → m ≤ i.block_low
get-chain m high [] k i c e = cc
get-chain m high (x ∷ xs) zero i c e = ground arith
get-chain m high (x ∷ xs) (suc k) i c e =
    omega (arith, get-chain (x.block_high + 2) high xs k i c.2 e)

cut-skip : (x : BlockNode) (low' high' : ℕ) → x.block_high < low' → cut x low' high' ≡ skip
unfolding cut
cut-skip x low' high' h = ground arith

past_all-release :
    (mem : Bool) (m high low' high' : ℕ) (l : List BlockNode) (k : ℕ) (i : BlockNode)
    → IsChain m high l
    → get_elem? l k ≡ some i
    → i.block_low ≤ low'
    → past_all (take k l) (release mem low' high' (drop k l)) ≡ release mem low' high' l
unfolding past_all
past_all-release mem m high low' high' [] k i c e le = cc
past_all-release mem m high low' high' (x ∷ xs) zero i c e le = refl
past_all-release mem m high low' high' (x ∷ xs) (suc k) i c e le =
    let below = get-chain (x.block_high + 2) high xs k i c.2 e in
    let skipped = cut-skip x low' high' (omega arith) in
    let rest = past_all-release mem (x.block_high + 2) high low' high' xs k i c.2 e le in
    rw rest (unfold release carve in rw skipped)

from_node :
    (mem : Bool) (m high low' high' : ℕ) (l : List BlockNode) (k : ℕ) (o : Option BlockNode)
    → IsChain m high l
    → get_elem? l k ≡ o
    → let j = start_node low' k o in
      past_all (take j l) (release mem low' high' (drop j l)) ≡ release mem low' high' l
unfolding start_node past_all
from_node mem m high low' high' l k none c e = refl
from_node mem m high low' high' l k (some i) c e = elim (Bool-cases (leb i.block_low low')) [
  | inl le ↦ rw le (past_all-release mem m high low' high' l k i c e (leb→le _ _ le))
  | inr gt ↦ rw gt
]

from_start :
    (mem : Bool) (m high low' high' : ℕ) (l : List BlockNode) (hint : Hint)
    → IsChain m high l
    → let k = start_at low' hint l in
      past_all (take k l) (release mem low' high' (drop k l)) ≡ release mem low' high' l
unfolding start_at past_all
from_start mem m high low' high' l none c = refl
from_start mem m high low' high' l (some k) c = from_node mem m high low' high' l k _ c refl

-- In a valid state the start hint, whatever node it names, only saves steps: `__pmfs_free_block`
-- has the outcome, the new hint included, that it has with no hint.
pub free_block_from-hint :
    (mem : Bool) (sbi : SbInfo) (blocknr : ℕ) (t : BlockType) (hint : Hint)
    → IsValid sbi
    → free_block_from mem sbi blocknr t hint ≡ free_block mem sbi blocknr t
unfolding free_block
free_block_from-hint mem sbi blocknr t hint v =
    rw (from_start mem 0 sbi.block_end blocknr _ sbi.block_inuse_head hint v.chain)

-- `free_block` with its loop written as one walk from the first node.
pub free_block_lem :
    (mem : Bool) (sbi : SbInfo) (blocknr : ℕ) (t : BlockType)
    → blocknr + get_numblocks t < 2 ^ 63
    → free_block mem sbi blocknr t ≡ (
        if is_empty sbi.block_inuse_head
        then bug
        else give_back sbi
            (get_numblocks t)
            (release mem blocknr (blocknr + get_numblocks t - 1) sbi.block_inuse_head))
unfolding free_block past_all start_at
free_block_lem mem sbi blocknr t small = rw (add64-eq-add blocknr (get_numblocks t) (omega arith)) (
    rw (
      sub64-eq-sub (blocknr + get_numblocks t) 1 (omega (arith, numblocks_bounds t)) (omega arith)))

free_block-FreedRunBy :
    (mem : Bool) (sbi : SbInfo) (blocknr : ℕ) (t : BlockType)
    → IsValid sbi
    → blocknr + get_numblocks t < 2 ^ 63
    → FreedRunBy sbi (get_numblocks t) blocknr (free_block mem sbi blocknr t)
free_block-FreedRunBy mem sbi blocknr t v small =
    rw (free_block_lem mem sbi blocknr t small) (elim (Bool-cases (is_empty sbi.block_inuse_head)) [
      | inl e ↦ rw e tt
      | inr e ↦ rw e (
          give_back-FreedRun mem sbi (get_numblocks t) blocknr _ v (
            release-ReleasedBy mem 0 sbi.block_end (get_numblocks t) blocknr _ v.chain
              (numblocks_bounds t).0 small))
    ])

-- In a valid state, a run of blocks below 2 ^ 63 that `free_block` gives back was wholly in use. Afterwards the
-- blocks in use are those of before without the run, the free counter has grown by its size, and
-- the state is valid.
pub free_block-FreedRun :
    (mem : Bool) (sbi : SbInfo) (blocknr : ℕ) (t : BlockType) {sbi' : SbInfo} {hint : Hint}
    → IsValid sbi
    → blocknr + get_numblocks t < 2 ^ 63
    → free_block mem sbi blocknr t ≡ freed sbi' hint
    → FreedRun sbi sbi' (get_numblocks t) blocknr
free_block-FreedRun mem sbi blocknr t v small e =
    subst (FreedRunBy sbi (get_numblocks t) blocknr) e
      (free_block-FreedRunBy mem sbi blocknr t v small)
