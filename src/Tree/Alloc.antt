-- ===== src/Tree/Alloc.antt =====
-- recursive_alloc_blocks: after success every place of the range has a block.
use pmfs.Base.{
  ℕ, zero, suc, ◌+◌, ◌-◌, ◌/◌, ◌%◌, ◌≤◌, ◌<◌, ◌≡◌, refl, sym, ◌∙◌, inl, Bool, true, false, ◌||◌,
  ◌&&◌, ◌==◌, leb, ltb, arith, ℕ_discrete, if◌then◌else◌,
}
use native.Mathlib.Nat.{mod-lt}
use pmfs.Balloc.{BlockType}
use pmfs.Tree.{span}
use pmfs.Tree.Grow.{span-pos}
use pmfs.Tree.Blocks.{
  Blocks, AllocBlocks, and_then, alloc_data, alloc_node, alloc_loop, recursive_alloc_blocks,
}
use pmfs.Tree.Own.{IsSound}
use pmfs.Tree.Extend.{IsDevice, ExtendsBy, Extends-nothing, Extends-wanted, and_then-ExtendsBy}
use pmfs.Tree.Replace.{under}
use pmfs.Tree.Range.{index_lt, in_range, in_range_parts, part}
use pmfs.Tree.Child.{Extends-child}
use pmfs.Tree.Entry.{alloc_data-ExtendsBy, alloc_node-ExtendsBy}

-- the places under `n` entries from `i` on, `wanted k` of those under entry `k`
abbrev rows : (height n i : ℕ) → (wanted : ℕ → ℕ → Bool) → ℕ → Bool
rows height n i wanted b =
    leb i (b / span height)
    && ltb (b / span height) (i + n)
    && wanted (b / span height) (b % span height)

first_row :
    (height n i : ℕ) (wanted : ℕ → ℕ → Bool) (b : ℕ)
    → rows height (suc n) i wanted b
      ≡ (under height i (wanted i) b || rows height n (i + 1) wanted b)
first_row height n i wanted b = elim (ℕ_discrete (b / span height) i) [
  | yes e ↦ rw e (ground arith)
  | no ne ↦ ground arith
]

module _ (height bp : ℕ) (wanted : ℕ → ℕ → Bool) (body : ℕ → Blocks → AllocBlocks)
    (step : (k : ℕ) (s : Blocks)
      → k < 512
      → IsDevice s.sbi
      → IsSound s.sbi s.nodes (suc height) bp
      → ExtendsBy s (suc height) bp (under height k (wanted k)) (body k s)) where
  alloc_loop-ExtendsBy :
      (n i : ℕ) (s : Blocks)
      → i + n ≤ 512
      → IsDevice s.sbi
      → IsSound s.sbi s.nodes (suc height) bp
      → ExtendsBy s (suc height) bp (rows height n i wanted) (alloc_loop body n i s)
  unfolding alloc_loop
  alloc_loop-ExtendsBy zero i s le d w =
      Extends-wanted s s (suc height) bp (λ b. false) (rows height zero i wanted) true
        (λ b lt z. refl) (λ ok b lt z. absurd (ground (arith, z)))
        (Extends-nothing s (suc height) bp true d w)
  alloc_loop-ExtendsBy (suc n) i s le d w =
      let x = step i s (omega arith) d w in
      Extends-wanted s _ (suc height) bp
        (λ b. under height i (wanted i) b || rows height n (i + 1) wanted b)
        (rows height (suc n) i wanted) _ (λ b lt z. sym (first_row height n i wanted b) ∙ z)
        (λ ok b lt z. inl (sym (first_row height n i wanted b) ∙ z))
        (and_then-ExtendsBy s (suc height) bp (under height i (wanted i))
          (rows height n (i + 1) wanted) (alloc_loop body n (i + 1)) (body i s) x
          λ ok. alloc_loop-ExtendsBy n (i + 1) (body i s).blocks (omega arith) x.device x.sound)

-- one turn of the loop for a node of height `h + 2`
abbrev alloc_entry :
    (alloc : (bp first_blk last_blk : ℕ) → Blocks → AllocBlocks) (mem : Bool)
    (h bp first_blocknr last_blocknr i : ℕ)
    → Blocks
    → AllocBlocks
alloc_entry alloc mem h bp first_blocknr last_blocknr i s =
    let first_blk = if i == first_blocknr / span (suc h) then first_blocknr % span (suc h) else 0 in
    let last_blk =
      if i == last_blocknr / span (suc h) then last_blocknr % span (suc h) else span (suc h) - 1 in
    and_then (λ (s : Blocks). alloc (s.nodes bp i) first_blk last_blk s) (alloc_node mem bp i s)

-- The allocation of ranges under a node of the height.
abbrev AllocRange : (height : ℕ) → ((bp first_blk last_blk : ℕ) → Blocks → AllocBlocks) → Type 0
AllocRange height alloc =
    (bp first last : ℕ) (s : Blocks)
    → first < span height
    → last < span height
    → IsDevice s.sbi
    → IsSound s.sbi s.nodes height bp
    → ExtendsBy s height bp (in_range first last) (alloc bp first last s)

module _ (alloc : (bp first_blk last_blk : ℕ) → Blocks → AllocBlocks) (mem : Bool)
    (h bp first last : ℕ) (below : AllocRange (suc h) alloc) where
  alloc_entry-ExtendsBy :
      (i : ℕ) (s : Blocks)
      → i < 512
      → IsDevice s.sbi
      → IsSound s.sbi s.nodes (suc (suc h)) bp
      → ExtendsBy s
          (suc (suc h))
          bp
          (under (suc h) i (part (span (suc h)) first last i))
          (alloc_entry alloc mem h bp first last i s)
  unfolding IsSound
  alloc_entry-ExtendsBy i s lt d w =
      let n : ℕ = span (suc h) in
      let pos = span-pos (suc h) in
      let first_blk : ℕ = if i == first / n then first % n else 0 in
      let last_blk : ℕ = if i == last / n then last % n else n - 1 in
      let first_lt : first_blk < n = ground (arith, mod-lt first pos) in
      let last_lt : last_blk < n = ground (arith, mod-lt last pos) in
      let want = under (suc h) i (part n first last i) in
      let none = under (suc h) i (λ (b : ℕ). false) in
      let (x, entry) = alloc_node-ExtendsBy mem s h bp i d w lt in
      let s' = (alloc_node mem bp i s).blocks in
      Extends-wanted s _ (suc (suc h)) bp (λ b. none b || want b) want _
        (λ b q z. ground (arith, z)) (λ ok b q z. inl (ground (arith, z)))
        (and_then-ExtendsBy s (suc (suc h)) bp none want _ (alloc_node mem bp i s) x λ ok.
          Extends-child s' _ (suc h) bp i (part n first last i) _ x.sound lt (entry ok) (
            below (s'.nodes bp i) first_blk last_blk s' first_lt last_lt x.device
              (x.sound.1 i lt (entry ok))))

-- Under a node of height 1 the entries are the places.
leaf_rows :
    (first last b : ℕ) → in_range first last b ≡ rows 0 (last + 1 - first) first (λ k c. true) b
unfolding span
leaf_rows first last b = ground arith

recursive_alloc_blocks-ExtendsBy :
    (mem : Bool) (btype : BlockType) (h : ℕ)
    → AllocRange (suc h) (recursive_alloc_blocks mem btype h)
unfolding recursive_alloc_blocks
recursive_alloc_blocks-ExtendsBy mem btype zero bp first last s lt lt' d w =
    let first_lt : first < 512 = unfold span in lt in
    let last_lt : last < 512 = unfold span in lt' in
    Extends-wanted s _ 1 bp (rows 0 (last + 1 - first) first (λ k b. true)) (in_range first last) _
      (λ b q z. sym (leaf_rows first last b) ∙ z)
      (λ ok b q z. inl (sym (leaf_rows first last b) ∙ z))
      (alloc_loop-ExtendsBy 0 bp (λ k b. true) (alloc_data mem btype bp)
        (λ k s lt d w. alloc_data-ExtendsBy mem btype s bp k d w lt) (last + 1 - first) first s
        (omega arith) d w)
recursive_alloc_blocks-ExtendsBy mem btype (suc h) bp first last s lt lt' d w =
    let n : ℕ = span (suc h) in
    let pos = span-pos (suc h) in
    let first_lt : first / n < 512 = index_lt (suc h) first lt in
    let last_lt : last / n < 512 = index_lt (suc h) last lt' in
    Extends-wanted s _ (suc (suc h)) bp
      (rows (suc h) (last / n + 1 - first / n) (first / n) (part n first last))
      (in_range first last) _ (λ b q z. sym (in_range_parts n first last b pos) ∙ z)
      (λ ok b q z. inl (sym (in_range_parts n first last b pos) ∙ z))
      (alloc_loop-ExtendsBy (suc h) bp (part n first last)
        (alloc_entry (recursive_alloc_blocks mem btype h) mem h bp first last)
        (alloc_entry-ExtendsBy (recursive_alloc_blocks mem btype h) mem h bp first last
          (recursive_alloc_blocks-ExtendsBy mem btype h))
        (last / n + 1 - first / n) (first / n) s (omega arith) d w)

-- Blocks for a range of places, under a sound node of height `h + 1` of a valid device with block 0 in
-- use and less than 2 ^ 64 bytes, both ends of the range being places that the node maps: after
-- `recursive_alloc_blocks`, the tree is sound and the device valid; every place that had a block has
-- the same, no place outside the range has changed, and if no error is returned every place of the range
-- has a block. No meta-data block in use that is not the tree's has changed, and no block in use has
-- become free.
pub recursive_alloc_blocks-Extends :
    (mem : Bool) (btype : BlockType) (h bp first last : ℕ) (s : Blocks)
    → first < span (suc h)
    → last < span (suc h)
    → IsDevice s.sbi
    → IsSound s.sbi s.nodes (suc h) bp
    → ExtendsBy s
        (suc h)
        bp
        (in_range first last)
        (recursive_alloc_blocks mem btype h bp first last s)
recursive_alloc_blocks-Extends mem btype h bp first last s lt lt' d w =
    recursive_alloc_blocks-ExtendsBy mem btype h bp first last s lt lt' d w
