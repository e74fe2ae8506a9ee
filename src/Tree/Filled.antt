-- ===== src/Tree/Filled.antt =====
-- What an allocation for a range of a file comes to, and the allocation in a tree that is high enough.
use pmfs.Base.{
  ℕ, zero, suc, ◌≤◌, ◌<◌, ◌≡◌, ◌≢◌, refl, sym, ◌∙◌, Bool, true, false, ltb, arith, subst, dec_lt,
}
use pmfs.Balloc.{BlockType}
use pmfs.Tree.{Tree, span, find_data_block}
use pmfs.Tree.Blocks.{Blocks, AllocBlocks}
use pmfs.Tree.Own.{IsSound}
use pmfs.Tree.Extend.{Extends}
use pmfs.Tree.Range.{in_range}
use pmfs.Tree.Alloc.{recursive_alloc_blocks-Extends}
use pmfs.Tree.File.{IsFile}
use pmfs.Tree.Whole.{File, find_block, AllocFile, from_blocks, alloc_at}

-- The file has kept its blocks, has got others only from `first` to `last`, and all of these if no error is
-- returned.
pub record FilledBy (t : Tree) (first last : ℕ) (r : AllocFile) : Type 0 where
  pub file : IsFile r.file.tree
  pub kept : (b : ℕ) → find_block t b ≢ 0 → find_block r.file.tree b ≡ find_block t b
  pub others : (b : ℕ) → in_range first last b ≡ false → find_block r.file.tree b ≡ find_block t b
  pub found :
      r.success ≡ true → (b : ℕ) → in_range first last b ≡ true → find_block r.file.tree b ≢ 0

-- A failure that leaves the blocks of the file as they are.
pub FilledBy-failed :
    (t : Tree) (first last : ℕ) (f : File)
    → IsFile f.tree
    → ((b : ℕ) → find_block f.tree b ≡ find_block t b)
    → FilledBy t first last (record { file = f; success = false })
FilledBy-failed t first last f w same = record {
  file = w;
  kept = λ b ne. same b;
  others = λ b e. same b;
  found = λ ok. absurd (ground (arith, ok));
}

pub find_block_inside :
    (t : Tree) (b : ℕ)
    → b < span t.height
    → find_block t b ≡ find_data_block t.nodes t.height t.root b
unfolding find_block
find_block_inside t b lt = let e : ltb b (span t.height) ≡ true = ground arith in rw e refl

pub find_block_outside : (t : Tree) (b : ℕ) → ¬ (b < span t.height) → find_block t b ≡ 0
unfolding find_block
find_block_outside t b ge = let e : ltb b (span t.height) ≡ false = ground arith in rw e refl

abbrev tree_before : ℕ → File → Tree
tree_before h f = record f.tree { height = suc h }

abbrev tree_after : ℕ → File → AllocBlocks → Tree
tree_after h f r = record f.tree { sbi = r.blocks.sbi; nodes = r.blocks.nodes; height = suc h }

module _ (first last : ℕ) where
  abbrev blocks_in : File → Blocks
  blocks_in f = record {
    sbi = f.tree.sbi;
    nodes = f.tree.nodes;
    i_blocks = f.i_blocks;
    eof_blocks = f.eof_blocks;
  }

  from_blocks-FilledBy :
      (h : ℕ) (f : File) (r : AllocBlocks)
      → f.tree.height ≡ suc h
      → f.tree.root ≢ 0
      → Extends (blocks_in f) r.blocks (suc h) f.tree.root (in_range first last) r.success
      → last < span (suc h)
      → FilledBy f.tree first last (from_blocks f r)
  unfolding from_blocks
  from_blocks-FilledBy h f r e ne x lt = rw e (record {
    file = record { device = x.device; sound = λ z. x.sound; no_root = λ z. absurd (ne z) };
    kept = λ b z. elim (dec_lt b (span (suc h))) [
      | yes p ↦ at_place b p (x.kept b p λ q. z (find_block_inside (tree_before h f) b p ∙ q))
      | no p ↦
          find_block_outside (tree_after h f r) b p ∙ sym (find_block_outside (tree_before h f) b p)
    ];
    others = λ b z. elim (dec_lt b (span (suc h))) [
      | yes p ↦ at_place b p (x.others b p z)
      | no p ↦
          find_block_outside (tree_after h f r) b p ∙ sym (find_block_outside (tree_before h f) b p)
    ];
    found = λ ok b z.
        let p : b < span (suc h) = ground (arith, lt, z) in
        λ q. x.found ok b p z (sym (find_block_inside (tree_after h f r) b p) ∙ q);
  })
    where
      at_place :
          (b : ℕ)
          → b < span (suc h)
          → find_data_block r.blocks.nodes (suc h) f.tree.root b
            ≡ find_data_block f.tree.nodes (suc h) f.tree.root b
          → find_block (tree_after h f r) b ≡ find_block (tree_before h f) b
      at_place b p same =
          find_block_inside (tree_after h f r) b p
          ∙ same
          ∙ sym (find_block_inside (tree_before h f) b p)

  pub FilledBy-same :
      (t t' : Tree) (r : AllocFile)
      → ((b : ℕ) → find_block t' b ≡ find_block t b)
      → FilledBy t' first last r
      → FilledBy t first last r
  FilledBy-same t t' r same x = record {
    file = x.file;
    kept = λ b ne. x.kept b (λ z. ne (sym (same b) ∙ z)) ∙ same b;
    others = λ b e. x.others b e ∙ same b;
    found = x.found;
  }

  -- A file of one block without levels has it already.
  pub one_block :
      (t : Tree) (b : ℕ)
      → t.height ≡ 0
      → t.root ≢ 0
      → last < span 0
      → in_range first last b ≡ true
      → find_block t b ≢ 0
  unfolding span find_data_block find_block
  one_block t b e ne lt z q =
      let zero_b : b ≡ 0 = ground (arith, lt, z) in
      let found : find_block t b ≡ t.root = rw (e, zero_b) refl in ne (sym found ∙ q)

  pub alloc_at-FilledBy :
      (mem : Bool) (btype : BlockType) (height : ℕ) (f : File)
      → IsFile f.tree
      → f.tree.height ≡ height
      → f.tree.root ≢ 0
      → first ≤ last
      → last < span height
      → FilledBy f.tree first last (alloc_at mem btype first last height f)
  unfolding alloc_at
  alloc_at-FilledBy mem btype zero f w e ne le lt = record {
    file = w;
    kept = λ b z. refl;
    others = λ b z. refl;
    found = λ ok b z. one_block f.tree b e ne lt z;
  }
  alloc_at-FilledBy mem btype (suc h) f w e ne le lt =
      from_blocks-FilledBy h f _ e ne
        (recursive_alloc_blocks-Extends mem btype h f.tree.root first last (blocks_in f)
          (omega (arith, le, lt)) lt w.device
          (subst (λ (k : ℕ). IsSound f.tree.sbi f.tree.nodes k f.tree.root) e (w.sound ne)))
        lt
