-- ===== src/Tree/File.antt =====
-- Levels that are put on the tree of a file: the file has the blocks that it had.
use pmfs.Base.{
  ℕ, zero, suc, ◌+◌, ◌*◌, ◌/◌, ◌≤◌, ◌<◌, ◌≡◌, ◌≢◌, refl, sym, ◌∙◌, ◌⊎◌, inl, inr, Bool, true, false,
  ◌==◌, ltb, arith, Bool-cases, subst, dec_lt, if◌then◌else◌,
}
use native.Mathlib.Nat.{div-eq_of_lt, mod-eq_of_lt, le-div_iff_mul-le}
use pmfs.Balloc.{SbInfo, type_4k, get_numblocks, NewBlock, allocated, enospc, new_block}
use pmfs.Balloc.Spec.{used}
use pmfs.Balloc.Alloc.{NewRun, new_block-NewRun}
use pmfs.Tree.{
  Tree, span, find_data_block, get_block_off, new_node, Increased, add_level, increase_btree_height,
}
use pmfs.Tree.Grow.{span-pos}
use pmfs.Tree.Own.{
  InNodes, IsSound, InNodes_used, AreKept, InNodes-kept, find_data_block_kept, IsSound-kept,
}
use pmfs.Tree.Extend.{IsDevice}
use pmfs.Tree.Taken.{Taken, NewRun-Taken}
use pmfs.Tree.Replace.{find_below}
use pmfs.Tree.Whole.{find_block}

-- The device is valid, the tree is sound, and a file without a root has no levels.
pub record IsFile (t : Tree) : Type 0 where
  pub device : IsDevice t.sbi
  pub sound : t.root ≢ 0 → IsSound t.sbi t.nodes t.height t.root
  pub no_root : t.root ≡ 0 → t.height ≡ 0

-- the tree under a new root at `off`
abbrev raised : Tree → SbInfo → (off : ℕ) → Tree
raised t sbi off = record {
  sbi = sbi;
  nodes = new_node t.nodes off t.root;
  root = off;
  height = suc t.height;
}

module _ (t : Tree) (sbi : SbInfo) (off : ℕ) (w : IsFile t) (taken : Taken t.sbi sbi off) where
  other_block : (p : ℕ) → used t.sbi.block_inuse_head (p / 4096) ≡ true → p ≢ off
  other_block p u e =
      let free : used t.sbi.block_inuse_head (p / 4096) ≡ false = rw e taken.was_free in
      absurd (ground arith)

  root_entry : (i : ℕ) → (raised t sbi off).nodes off i ≡ (if i == 0 then t.root else 0)
  unfolding new_node
  root_entry i = ground arith

  raised-AreKept : t.root ≢ 0 → AreKept t.nodes (raised t sbi off).nodes t.height t.root
  unfolding new_node
  raised-AreKept some_root p j m =
      let ne = other_block p (InNodes_used t.sbi t.nodes t.height t.root p (w.sound some_root) m) in
      ground arith

  -- Only entry 0 of the new root is used, for the old one.
  only_first : (i : ℕ) → (raised t sbi off).nodes off i ≢ 0 → (i ≡ 0) × (t.root ≢ 0)
  only_first i ne = elim (Bool-cases (i == 0)) [
    | inl e ↦ (ground arith, λ z. ne (root_entry i ∙ rw e z))
    | inr e ↦ absurd (ne (root_entry i ∙ rw e refl))
  ]

  first_entry :
      (i : ℕ) → (raised t sbi off).nodes off i ≢ 0 → (raised t sbi off).nodes off i ≡ t.root
  first_entry i ne =
      let e : (i == 0) ≡ true = rw (only_first i ne).0 refl in root_entry i ∙ rw e refl

  raised-IsFile : IsFile (raised t sbi off)
  unfolding IsSound
  raised-IsFile = record {
    device = taken.device;
    sound = λ some_root. (
      taken.now_used,
      λ i lt ne.
          let old = (only_first i ne).1 in
          subst (λ (c : ℕ). IsSound sbi (raised t sbi off).nodes t.height c)
            (sym (first_entry i ne))
            (IsSound-kept t.sbi sbi t.nodes _ t.height t.root taken.more (raised-AreKept old)
              (w.sound old)),
      λ i lt ne m.
          let old = (only_first i ne).1 in
          let m' =
            InNodes-kept t.nodes (raised t sbi off).nodes t.height t.root off (raised-AreKept old) (
              subst (λ (c : ℕ). InNodes (raised t sbi off).nodes t.height c off) (first_entry i ne)
                m) in
          other_block off (InNodes_used t.sbi t.nodes t.height t.root off (w.sound old) m') refl,
      λ i j p lt lt' ne ne' m m'. (only_first i ne).0 ∙ sym (only_first j ne').0,
    );
    no_root = λ z. absurd (taken.not_zero z);
  }

  raised-find :
      (b : ℕ)
      → b < span t.height
      → find_data_block (raised t sbi off).nodes (suc t.height) off b
        ≡ find_data_block t.nodes t.height t.root b
  raised-find b lt =
      let nodes = (raised t sbi off).nodes in
      let first : nodes off 0 ≡ t.root = root_entry 0 in
      rw (find_below nodes t.height off b, div-eq_of_lt lt, mod-eq_of_lt lt, first)
        (elim (Bool-cases (t.root == 0)) [
          | inl e ↦ let z : t.root ≡ 0 = ground arith in rw e (sym (no_blocks z))
          | inr e ↦ rw e (
              find_data_block_kept t.nodes nodes t.height t.root b
                (raised-AreKept (λ z. ground arith)) lt)
        ])
    where
      no_blocks : t.root ≡ 0 → find_data_block t.nodes t.height t.root b ≡ 0
      no_blocks z = rw (w.no_root z) (unfold find_data_block in z)

  raised-far :
      (b : ℕ)
      → span t.height ≤ b
      → find_data_block (raised t sbi off).nodes (suc t.height) off b ≡ 0
  raised-far b le =
      let far : 1 ≤ b / span t.height = (le-div_iff_mul-le (span-pos t.height)).1 (omega arith) in
      let e : (b / span t.height == 0) ≡ false = ground arith in
      let none : (raised t sbi off).nodes off (b / span t.height) ≡ 0 = root_entry _ ∙ rw e refl in
      rw (find_below (raised t sbi off).nodes t.height off b, none) refl

  -- The file has the blocks that it had.
  raised-find_block : (b : ℕ) → find_block (raised t sbi off) b ≡ find_block t b
  unfolding find_block span
  raised-find_block b = elim (dec_lt b (span t.height)) [
    | yes lt ↦
        let e : ltb b (span t.height) ≡ true = ground arith in
        let e' : ltb b (512 * span t.height) ≡ true = ground arith in rw (e, e') (raised-find b lt)
    | no ge ↦
        let e : ltb b (span t.height) ≡ false = ground arith in
        let far = raised-far b (omega arith) in
        rw (e, far)
          (elim (Bool-cases (ltb b (512 * span t.height))) [
            | inl z ↦ rw z refl
            | inr z ↦ rw z refl
          ])
  ]

-- What putting levels on a tree comes to.
pub record RaisedBy (levels : ℕ) (t : Tree) (r : Increased) : Type 0 where
  pub file : IsFile r.tree
  pub same : (b : ℕ) → find_block r.tree b ≡ find_block t b
  pub height : r.success ≡ true → r.tree.height ≡ t.height + levels
  pub root : r.success ≡ true → (0 < levels) ⊎ (t.root ≢ 0) → r.tree.root ≢ 0

add_level-RaisedBy :
    (levels : ℕ) (again : Tree → Increased) (t : Tree) (r : NewBlock)
    → IsFile t
    → ((sbi' : SbInfo) (b : ℕ) → r ≡ allocated sbi' b → NewRun t.sbi sbi' 1 b)
    → ((t' : Tree) → IsFile t' → RaisedBy levels t' (again t'))
    → RaisedBy (suc levels) t (add_level again t r)
unfolding add_level
add_level-RaisedBy levels again t enospc w run next = record {
  file = w;
  same = λ b. refl;
  height = λ ok. absurd (ground (arith, ok));
  root = λ ok some. absurd (ground (arith, ok));
}
add_level-RaisedBy levels again t (allocated sbi' b) w run next =
    let off : ℕ = get_block_off b in
    let taken = NewRun-Taken t.sbi sbi' 1 b w.device (omega arith) (run sbi' b refl) in
    let x = next (raised t sbi' off) (raised-IsFile t sbi' off w taken) in
    record {
      file = x.file;
      same = λ c. x.same c ∙ raised-find_block t sbi' off w taken c;
      height = λ ok. x.height ok ∙ omega arith;
      root = λ ok some. x.root ok (inr taken.not_zero);
    }

-- Levels on the tree of a file keep it a file with the blocks that it had.
pub increase_btree_height-RaisedBy :
    (mem : Bool) (levels : ℕ) (t : Tree)
    → IsFile t
    → RaisedBy levels t (increase_btree_height mem levels t)
unfolding increase_btree_height get_numblocks
increase_btree_height-RaisedBy mem zero t w = record {
  file = w;
  same = λ b. refl;
  height = λ ok. omega arith;
  root = λ ok some. elim some [ inl lt ↦ absurd (omega arith) | inr ne ↦ ne ];
}
increase_btree_height-RaisedBy mem (suc levels) t w =
    add_level-RaisedBy levels (λ t'. increase_btree_height mem levels t') t
      (new_block mem t.sbi type_4k) w
      (λ sbi' b e. new_block-NewRun mem t.sbi type_4k w.device.valid e)
      λ t' w'. increase_btree_height-RaisedBy mem levels t' w'
