-- ===== src/Tree/Shrink.antt =====
-- pmfs_decrease_btree_height keeps the blocks of the range that is left.
use pmfs.Base.{
  ℕ, zero, suc, ◌+◌, ◌-◌, ◌≤◌, ◌<◌, ◌≡◌, ◌≢◌, refl, sym, ◌∙◌, Bool, arith, ◌==◌, Bool-cases, inl,
  inr,
}
use pmfs.Balloc.{type_4k, free_block}
use pmfs.Tree.{Tree, span, find_data_block, get_blocknr, freed_state, decrease_btree_height}
use pmfs.Tree.Grow.{find_in, find_data_block-first}

-- the tree without its root
abbrev lowered : Bool → Tree → Tree
lowered mem t = record t {
  sbi = freed_state t.sbi (free_block mem t.sbi (get_blocknr t.root) type_4k);
  root = t.nodes t.root 0;
  height = t.height - 1;
}

span_mono : (a b : ℕ) → span a ≤ span (b + a)
unfolding span
span_mono a zero = let z : 0 + a ≡ a = omega arith in rw z (omega arith)
span_mono a (suc b) =
    let z : suc b + a ≡ suc (b + a) = omega arith in rw z (omega (arith, span_mono a b))

-- The root passes lookups in the range of its first child on to it, if one of them finds a block.
first-find :
    (t : Tree) (h kept blocknr : ℕ)
    → t.height ≡ suc h
    → kept < span h
    → find_in t kept ≢ 0
    → blocknr < span h
    → find_data_block t.nodes h (t.nodes t.root 0) blocknr ≡ find_in t blocknr
first-find t h kept blocknr e lk nz lt = elim (Bool-cases (t.nodes t.root 0 == 0)) [
  | inl z ↦ absurd (nz (rw e (find_data_block-first t.nodes h t.root kept lk ∙ rw z refl)))
  | inr z ↦ rw e (sym (find_data_block-first t.nodes h t.root blocknr lt ∙ rw z refl))
]

lowered-find :
    (mem : Bool) (t : Tree) (h kept blocknr : ℕ)
    → t.height ≡ suc h
    → kept < span h
    → find_in t kept ≢ 0
    → blocknr < span h
    → find_in (lowered mem t) blocknr ≡ find_in t blocknr
lowered-find mem t h kept blocknr e lk nz lt =
    let less : t.height - 1 ≡ h = omega (arith, e) in
    rw less (first-find t h kept blocknr e lk nz lt)

-- Lowering a tree by some levels, when a block is kept in the range that is left, gives a tree of the
-- height that is left in which every place of that range has the block that it had.
pub decrease_btree_height-find :
    (mem : Bool) (levels h : ℕ) (t : Tree) (kept blocknr : ℕ)
    → t.height ≡ levels + h
    → kept < span h
    → find_in t kept ≢ 0
    → blocknr < span h
    → ((decrease_btree_height mem levels t).height ≡ h)
      × (find_in (decrease_btree_height mem levels t) blocknr ≡ find_in t blocknr)
unfolding decrease_btree_height
decrease_btree_height-find mem zero h t kept blocknr e lk nz lt = (omega (arith, e), refl)
decrease_btree_height-find mem (suc levels) h t kept blocknr e lk nz lt =
    let e' : t.height ≡ suc (levels + h) = omega (arith, e) in
    let wide = span_mono h levels in
    let same = lowered-find mem t (levels + h) kept kept e' (omega arith) nz (omega arith) in
    let (f, g) =
      decrease_btree_height-find mem levels h (lowered mem t) kept blocknr (omega (arith, e')) lk
        (λ z. nz (sym same ∙ z)) lt in
    (f, g ∙ lowered-find mem t (levels + h) kept blocknr e' (omega arith) nz (omega arith))
