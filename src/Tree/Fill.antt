-- ===== src/Tree/Fill.antt =====
-- __pmfs_alloc_blocks: after success the file has a block at every place of the range.
use pmfs.Base.{
  ℕ, ◌+◌, ◌-◌, ◌/◌, ◌^◌, ◌≤◌, ◌<◌, ◌≡◌, ◌≢◌, refl, sym, ◌∙◌, ◌⊎◌, inl, inr, Bool, false, not, ◌&&◌,
  ◌==◌, ltb, arith, Bool-cases, subst, ℕ_discrete, dec_lt,
}
use pmfs.Base.Words.{add64, sub64, add64-eq-add, sub64-eq-sub}
use native.Mathlib.Nat.{div-le_self}
use pmfs.Balloc.{SbInfo, BlockType, get_numblocks, NewBlock, allocated, enospc}
use pmfs.Balloc.Alloc.{NewRun, new_block-NewRun, numblocks_bounds}
use pmfs.Tree.{Tree, span, find_data_block, Increased}
use pmfs.Tree.Own.{IsSound}
use pmfs.Tree.Taken.{NewRun-Taken}
use pmfs.Tree.File.{IsFile, RaisedBy, increase_btree_height-RaisedBy}
use pmfs.Tree.Whole.{
  File, find_block, needed_height, alloc_grown, put_root, alloc_range, alloc_blocks,
}
use pmfs.Tree.Height.{needed_height_enough, needed_height_le}
use pmfs.Tree.Range.{div_le}
use pmfs.Tree.Filled.{
  FilledBy, FilledBy-failed, find_block_inside, find_block_outside, FilledBy-same, one_block,
  alloc_at-FilledBy,
}

module _ (first last : ℕ) where
  alloc_grown-FilledBy :
      (mem : Bool) (btype : BlockType) (height : ℕ) (f : File) (r : Increased)
      → f.tree.height ≤ height
      → (0 < height) ⊎ (f.tree.root ≢ 0)
      → IsFile f.tree
      → RaisedBy (height - f.tree.height) f.tree r
      → first ≤ last
      → last < span height
      → FilledBy f.tree first last (alloc_grown mem btype first last height f r)
  unfolding alloc_grown
  alloc_grown-FilledBy mem btype height f r up some w x le lt = elim (Bool-cases r.success) [
    | inr e ↦ rw e (FilledBy-failed f.tree first last (record f { tree = r.tree }) x.file x.same)
    | inl e ↦ rw e (
        FilledBy-same first last f.tree r.tree _ x.same (
          alloc_at-FilledBy first last mem btype height (record f { tree = r.tree }) x.file
            (x.height e ∙ omega (arith, up)) (x.root e (some_root some)) le lt))
  ]
    where
      some_root :
          (0 < height) ⊎ (f.tree.root ≢ 0) → (0 < height - f.tree.height) ⊎ (f.tree.root ≢ 0)
      some_root (inr ne) = inr ne
      some_root (inl pos) = elim (ℕ_discrete f.tree.root 0) [
        | no ne ↦ inr ne
        | yes z ↦ let no_levels = w.no_root z in inl (omega arith)
      ]

  no_blocks : (t : Tree) (b : ℕ) → IsFile t → t.root ≡ 0 → find_block t b ≡ 0
  no_blocks t b w z = elim (dec_lt b (span t.height)) [
    | yes lt ↦ find_block_inside t b lt ∙ rw (w.no_root z) (unfold find_data_block in z)
    | no ge ↦ find_block_outside t b ge
  ]

  put_root-FilledBy :
      (btype : BlockType) (f : File) (n : ℕ) (r : NewBlock)
      → IsFile f.tree
      → f.tree.root ≡ 0
      → 0 < n
      → ((sbi' : SbInfo) (b : ℕ) → r ≡ allocated sbi' b → NewRun f.tree.sbi sbi' n b)
      → first ≤ last
      → last < span 0
      → FilledBy f.tree first last (put_root btype f r)
  unfolding put_root span IsSound
  put_root-FilledBy btype f n enospc w z pos run le lt =
      FilledBy-failed f.tree first last f w (λ b. refl)
  put_root-FilledBy btype f n (allocated sbi' b) w z pos run le lt =
      let taken = NewRun-Taken f.tree.sbi sbi' n b w.device pos (run sbi' b refl) in
      record {
        file = record { device = taken.device; sound = λ ne. tt; no_root = λ q. refl };
        kept = λ c ne. absurd (ne (no_blocks f.tree c w z));
        others = λ c e.
            find_block_outside _ c (λ h. absurd (ground (arith, e, h)))
            ∙ sym (no_blocks f.tree c w z);
        found = λ ok c e. one_block first last _ c refl taken.not_zero lt e;
      }

-- Blocks for places `first` to `last` of a file whose tree is sound, over a valid device with block 0 in
-- use and less than 2 ^ 64 bytes, with `first` not behind `last` and `last` below 2 ^ 64: after
-- `alloc_range` the tree is sound and the device valid, every place that had a block has the same, no place
-- outside the range has changed, and if no error is returned every place of the range has a block.
pub alloc_range-FilledBy :
    (mem : Bool) (btype : BlockType) (first last : ℕ) (f : File)
    → IsFile f.tree
    → first ≤ last
    → last < 2 ^ 64
    → FilledBy f.tree first last (alloc_range mem btype first last f)
unfolding alloc_range
alloc_range-FilledBy mem btype first last f w le word =
    let height : ℕ = needed_height f.tree.height last in
    let enough = needed_height_enough f.tree.height last word in
    let up = needed_height_le f.tree.height last in
    elim (Bool-cases (not (ltb last (span f.tree.height)) && ltb 3 height)) [
      | inl e ↦ rw e (FilledBy-failed f.tree first last f w (λ b. refl))
      | inr e ↦ elim (Bool-cases (f.tree.root == 0 && height == 0)) [
        | inl z ↦
            let flat : height ≡ 0 = ground arith in
            rw (e, z)
              (put_root-FilledBy first last btype f (get_numblocks btype) _ w (ground (arith, z))
                (numblocks_bounds btype).0
                (λ sbi' b q. new_block-NewRun mem f.tree.sbi btype w.device.valid q) le
                (subst (λ (k : ℕ). last < span k) flat enough))
        | inr z ↦
            rw (e, z)
              (alloc_grown-FilledBy first last mem btype height f _ up (some_place height z) w
                (increase_btree_height-RaisedBy mem (height - f.tree.height) f.tree w) le enough)
      ]
    ]
  where
    some_place :
        (height : ℕ) → (f.tree.root == 0 && height == 0) ≡ false → (0 < height) ⊎ (f.tree.root ≢ 0)
    some_place height z = elim (ℕ_discrete f.tree.root 0) [
      | yes e ↦ inl (ground (arith, z, e))
      | no ne ↦ inr ne
    ]

-- For the `num` blocks of 4 KiB from `file_blocknr` on, at least one and all below 2 ^ 64, of a file whose
-- tree is sound, and has no levels without a root, over a valid device with block 0 in use and less than
-- 2 ^ 64 bytes: after `alloc_blocks` the tree is sound and the device valid, every place that had a block
-- has the same, the places outside those of these blocks are unchanged, and if no error is returned there
-- is a block at every one of these places.
pub alloc_blocks-FilledBy :
    (mem : Bool) (btype : BlockType) (file_blocknr num : ℕ) (f : File)
    → IsFile f.tree
    → 0 < num
    → file_blocknr + num < 2 ^ 64
    → FilledBy f.tree
        (file_blocknr / get_numblocks btype)
        ((file_blocknr + num - 1) / get_numblocks btype)
        (alloc_blocks mem btype file_blocknr num f)
unfolding alloc_blocks
alloc_blocks-FilledBy mem btype file_blocknr num f w pos word =
    let n : ℕ = get_numblocks btype in
    let e : sub64 (add64 file_blocknr num) 1 ≡ file_blocknr + num - 1 =
      rw (add64-eq-add file_blocknr num word)
        (sub64-eq-sub (file_blocknr + num) 1 (omega arith) word) in
    rw e (
      alloc_range-FilledBy mem btype (file_blocknr / n) ((file_blocknr + num - 1) / n) f w
        (div_le n file_blocknr (file_blocknr + num - 1) (numblocks_bounds btype).0 (omega arith))
        (omega (arith, div-le_self (file_blocknr + num - 1) n)))
