-- ===== src/Tree/Grow.antt =====
-- pmfs_increase_btree_height keeps the blocks that a file has and adds none.
use pmfs.Base.{
  ℕ, zero, suc, ◌+◌, ◌*◌, ◌/◌, ◌≤◌, ◌<◌, ◌≡◌, ◌≢◌, refl, sym, subst, ◌∙◌, Bool, true, false, arith,
  ltb, ◌==◌, if◌then◌else◌, Bool-cases, inl, inr, dec_lt,
}
use native.Mathlib.Nat.{div-eq_of_lt, mod-eq_of_lt, div-add-mod, mod-lt}
use pmfs.Balloc.{SbInfo, type_4k, get_numblocks, NewBlock, allocated, enospc, new_block}
use pmfs.Balloc.Spec.{used, in_run}
use pmfs.Balloc.Alloc.{NewRun, new_block-NewRun}
use pmfs.Tree.{
  Nodes, Tree, span, find_data_block, get_block_off, new_node, Increased, add_level,
  increase_btree_height,
}
use pmfs.Tree.Frame.{IsOwned, IsTree, find_data_block-new_node, IsOwned-new_node}

-- the block that the tree has at a place in the file
abbrev pub find_in : Tree → ℕ → ℕ
find_in t blocknr = find_data_block t.nodes t.height t.root blocknr

pub span-pos : (h : ℕ) → 0 < span h
unfolding span
span-pos zero = omega arith
span-pos (suc h) = omega (arith, span-pos h)

-- A tree over a smaller one finds in the range of the smaller what that finds.
pub find_data_block-first :
    (nodes : Nodes) (h bp blocknr : ℕ)
    → blocknr < span h
    → find_data_block nodes (suc h) bp blocknr
      ≡ (if nodes bp 0 == 0 then 0 else find_data_block nodes h (nodes bp 0) blocknr)
unfolding find_data_block
find_data_block-first nodes h bp blocknr lt = rw (div-eq_of_lt lt, mod-eq_of_lt lt) refl

module _ (t : Tree) (w : IsTree t) {sbi' : SbInfo} {b : ℕ} (r : NewRun t.sbi sbi' 1 b) where
  abbrev grown : Tree
  grown = record {
    sbi = sbi';
    nodes = new_node t.nodes (get_block_off b) t.root;
    root = get_block_off b;
    height = suc t.height;
  }

  fresh : used t.sbi.block_inuse_head b ≡ false
  fresh = r.hole.is_free b (ground arith)

  offset : get_block_off b ≡ b * 4096
  unfolding get_block_off
  offset = omega (arith, r.hole.fits, w.small)

  more : (x : ℕ) → used t.sbi.block_inuse_head x ≡ true → used sbi'.block_inuse_head x ≡ true
  more x u = rw (r.used_after x, u) refl

  taken : used sbi'.block_inuse_head (b * 4096 / 4096) ≡ true
  taken =
      let same : b * 4096 / 4096 ≡ b = omega arith in
      let inside : in_run b 1 b ≡ true = ground arith in
      rw (same, r.used_after b, fresh, inside) refl

  positive : 0 < b
  positive = elim (dec_lt 0 b) [
    | yes p ↦ p
    | no np ↦
        let zero_b : b ≡ 0 = omega arith in
        let clash : true ≡ false =
          sym w.super_used
          ∙ subst (λ (x : ℕ). used t.sbi.block_inuse_head x ≡ false) zero_b fresh in
        absurd (ground (arith, clash))
  ]

  child : (i : ℕ) → new_node t.nodes (b * 4096) t.root (b * 4096) i ≡ (if i == 0 then t.root else 0)
  unfolding new_node
  child i = let e : (b * 4096 == b * 4096) ≡ true = ground arith in rw e refl

  below :
      (i : ℕ)
      → new_node t.nodes (b * 4096) t.root (b * 4096) i ≢ 0
      → IsOwned sbi'
          (new_node t.nodes (b * 4096) t.root)
          t.height
          (new_node t.nodes (b * 4096) t.root (b * 4096) i)
  below i ne = elim (Bool-cases (i == 0)) [
    | inl e ↦
        rw (child i, e)
          (IsOwned-new_node t.sbi t.nodes b t.root fresh sbi' more t.height t.root w.owned)
    | inr e ↦ absurd (ne (child i ∙ rw e refl))
  ]

  owns : IsOwned sbi' (new_node t.nodes (b * 4096) t.root) (suc t.height) (b * 4096)
  owns = unfold IsOwned in (taken, below)

  grown-IsTree : IsTree grown
  grown-IsTree = record {
    valid = r.valid;
    small = omega (arith, w.small, r.same_end);
    super_used = more 0 w.super_used;
    owned = rw offset owns;
    no_root = λ z. absurd (omega (arith, z, offset, positive));
  }

  inside :
      (blocknr : ℕ)
      → (if t.root == 0
          then 0
          else find_data_block (new_node t.nodes (b * 4096) t.root) t.height t.root blocknr)
        ≡ find_in t blocknr
  inside blocknr = elim (Bool-cases (t.root == 0)) [
    | inl e ↦ let z : t.root ≡ 0 = ground arith in rw e (sym (no_blocks z))
    | inr e ↦
        rw e (find_data_block-new_node t.sbi t.nodes b t.root fresh t.height t.root blocknr w.owned)
  ]
    where
      no_blocks : t.root ≡ 0 → find_in t blocknr ≡ 0
      no_blocks z = rw (w.no_root z) (unfold find_data_block in z)

  outside :
      (blocknr : ℕ)
      → ¬ (blocknr < span t.height)
      → find_data_block (new_node t.nodes (b * 4096) t.root) (suc t.height) (b * 4096) blocknr ≡ 0
  unfolding find_data_block
  outside blocknr ge =
      let far : (blocknr / span t.height == 0) ≡ false =
        ground (arith, div-add-mod blocknr (span t.height), mod-lt blocknr (span-pos t.height)) in
      rw (child (blocknr / span t.height), far) refl

  find_in-grown :
      (blocknr : ℕ)
      → find_in grown blocknr ≡ (if ltb blocknr (span t.height) then find_in t blocknr else 0)
  find_in-grown blocknr = rw offset (go blocknr)
    where
      go :
          (blocknr : ℕ)
          → find_data_block (new_node t.nodes (b * 4096) t.root) (suc t.height) (b * 4096) blocknr
            ≡ (if ltb blocknr (span t.height) then find_in t blocknr else 0)
      go blocknr = elim (dec_lt blocknr (span t.height)) [
        | yes lt ↦
            let e : ltb blocknr (span t.height) ≡ true = ground arith in
            rw e (
              find_data_block-first (new_node t.nodes (b * 4096) t.root) t.height (b * 4096) blocknr
                lt
              ∙ rw (child 0) (inside blocknr))
        | no ge ↦
            let e : ltb blocknr (span t.height) ≡ false = ground arith in rw e (outside blocknr ge)
      ]

-- What growing by some levels may come to.
abbrev pub IncreasedBy : (mem : Bool) → (levels : ℕ) → Tree → Increased → Type 0
IncreasedBy mem levels t r =
    IsTree r.tree
    × (t.height ≤ r.tree.height)
    × ((blocknr : ℕ)
        → blocknr < span r.tree.height
        → find_in r.tree blocknr ≡ (if ltb blocknr (span t.height) then find_in t blocknr else 0))
    × (r.success ≡ true → r.tree.height ≡ t.height + levels)
    × (r.success ≡ false → new_block mem r.tree.sbi type_4k ≡ enospc)

zero_either : (c : Bool) → ◌≡◌ {A = ℕ} (if c then 0 else 0) 0
zero_either true = refl
zero_either false = refl

grown-IncreasedBy :
    (mem : Bool) (levels : ℕ) (t : Tree) (w : IsTree t) {sbi' : SbInfo} {b : ℕ}
    (n : NewRun t.sbi sbi' 1 b) (r : Increased)
    → IncreasedBy mem levels (grown t w n) r
    → IncreasedBy mem (suc levels) t r
grown-IncreasedBy mem levels t w n r (w', h, f, s, e) =
    (w', omega (arith, h), found, λ y. omega (arith, s y), e)
  where
    found :
        (blocknr : ℕ)
        → blocknr < span r.tree.height
        → find_in r.tree blocknr ≡ (if ltb blocknr (span t.height) then find_in t blocknr else 0)
    found blocknr lt = f blocknr lt ∙ rw (find_in-grown t w n blocknr) (shrink blocknr)
      where
        shrink :
            (blocknr : ℕ)
            → (if ltb blocknr (span (suc t.height))
                then (if ltb blocknr (span t.height) then find_in t blocknr else 0)
                else 0)
              ≡ (if ltb blocknr (span t.height) then find_in t blocknr else 0)
        shrink blocknr = elim (dec_lt blocknr (span t.height)) [
          | yes lt ↦
              let e : ltb blocknr (span t.height) ≡ true = ground arith in
              let e' : ltb blocknr (span (suc t.height)) ≡ true = unfold span in ground arith in
              rw (e, e') refl
          | no ge ↦
              let e : ltb blocknr (span t.height) ≡ false = ground arith in
              rw e (zero_either (ltb blocknr (span (suc t.height))))
        ]

keeps :
    (t : Tree) (blocknr : ℕ)
    → blocknr < span t.height
    → find_in t blocknr ≡ (if ltb blocknr (span t.height) then find_in t blocknr else 0)
keeps t blocknr lt = let e : ltb blocknr (span t.height) ≡ true = ground arith in rw e refl

add_level-IncreasedBy :
    (mem : Bool) (levels : ℕ) (again : Tree → Increased)
    → ((t : Tree) → IsTree t → IncreasedBy mem levels t (again t))
    → (t : Tree) → IsTree t
    → (n : NewBlock) → new_block mem t.sbi type_4k ≡ n
    → IncreasedBy mem (suc levels) t (add_level again t n)
unfolding add_level
add_level-IncreasedBy mem levels again ih t w enospc e =
    (w, omega arith, keeps t, λ y. absurd (ground (arith, y)), λ n. e)
add_level-IncreasedBy mem levels again ih t w (allocated sbi' b) e =
    let n : NewRun t.sbi sbi' 1 b =
      unfold get_numblocks in new_block-NewRun mem t.sbi type_4k w.valid e in
    grown-IncreasedBy mem levels t w n _ (ih (grown t w n) (grown-IsTree t w n))

-- Growing the tree of a file by some levels, with a valid allocator, keeps the block that the file has
-- at every place in the tree's former range, and finds none at the new places of the range it has
-- then; the tree stays well formed. On success it has grown by all levels, and on an error
-- `new_block` refuses one more block of 4 KiB in the state that is left.
pub increase_btree_height-IncreasedBy :
    (mem : Bool) (levels : ℕ) (t : Tree)
    → IsTree t
    → IncreasedBy mem levels t (increase_btree_height mem levels t)
unfolding increase_btree_height
increase_btree_height-IncreasedBy mem zero t w =
    (w, omega arith, keeps t, λ y. omega arith, λ n. absurd (ground (arith, n)))
increase_btree_height-IncreasedBy mem (suc levels) t w =
    add_level-IncreasedBy mem levels (λ t'. increase_btree_height mem levels t')
      (λ t' w'. increase_btree_height-IncreasedBy mem levels t' w') t w
      (new_block mem t.sbi type_4k) refl
