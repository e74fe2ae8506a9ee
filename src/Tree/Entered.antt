-- ===== src/Tree/Entered.antt =====
-- An entry without a block that is set to a free block.
use pmfs.Base.{
  ℕ, suc, ◌/◌, ◌%◌, ◌<◌, ◌≡◌, ◌≢◌, refl, sym, ◌∙◌, ◌⊎◌, inl, inr, Bool, true, false, ◌==◌, arith,
  subst, ℕ_discrete,
}
use pmfs.Balloc.{SbInfo}
use pmfs.Tree.{Nodes, span, find_data_block, new_node}
use pmfs.Tree.Blocks.{Blocks, set_entry}
use pmfs.Tree.Own.{InNodes, IsSound, InNodes_used}
use pmfs.Tree.Extend.{IsDevice, Extends, in_use}
use pmfs.Tree.Replace.{
  IsReplaced, find_below, under, IsSound-replaced, InNodes-replaced, find_data_block_replaced,
}
use pmfs.Tree.Taken.{Taken}

-- Entry `i` of node `bp`, which was 0, is set to the free block at `off`, under which a tree of the
-- height begins: one that finds a block everywhere if `fills`, and nowhere if not.
pub record IsEntered (s s' : Blocks) (height bp i off : ℕ) (fills : Bool) : Type 0 where
  pub taken : Taken s.sbi s'.sbi off
  pub empty : s.nodes bp i ≡ 0
  pub at_entry : s'.nodes bp i ≡ off
  pub elsewhere :
      (p j : ℕ) → in_use s (p / 4096) ≡ true → (p ≢ bp) ⊎ (j ≢ i) → s'.nodes p j ≡ s.nodes p j
  pub sound_new : IsSound s'.sbi s'.nodes height off
  pub only_new : (p : ℕ) → InNodes s'.nodes height off p → p ≡ off
  pub filled : fills ≡ true → (b : ℕ) → find_data_block s'.nodes height off b ≢ 0
  pub blank : fills ≡ false → (b : ℕ) → find_data_block s'.nodes height off b ≡ 0

module _ (s s' : Blocks) (height bp i off : ℕ) (fills : Bool)
    (w : IsSound s.sbi s.nodes (suc height) bp) (lt : i < 512)
    (n : IsEntered s s' height bp i off fills) where
  replaced : IsReplaced s s' height bp i
  unfolding IsSound
  replaced = record {
    more = n.taken.more;
    same_entry = λ j other. n.elsewhere bp j w.0 (inr other);
    other_kept = λ j lt' other ne p k m.
        n.elsewhere p k (InNodes_used s.sbi s.nodes height _ p (w.1 j lt' ne) m)
          (inl λ e. w.2 j lt' ne (subst (λ (q : ℕ). InNodes s.nodes height (s.nodes bp j) q) e m));
    sound_entry = λ z. rw n.at_entry n.sound_new;
    new_entry = λ p z m.
        let e = n.only_new p (subst (λ (c : ℕ). InNodes s'.nodes height c p) n.at_entry m) in
        inr (rw e n.taken.was_free);
  }

  find_before : (b : ℕ) → b / span height ≡ i → find_data_block s.nodes (suc height) bp b ≡ 0
  find_before b e = rw (find_below s.nodes height bp b, e, n.empty) refl

  find_after :
      (b : ℕ)
      → b / span height ≡ i
      → find_data_block s'.nodes (suc height) bp b
        ≡ find_data_block s'.nodes height off (b % span height)
  find_after b e =
      let z : (off == 0) ≡ false = let nz = n.taken.not_zero in ground arith in
      rw (find_below s'.nodes height bp b, e, n.at_entry, z) refl

  pub Extends-entered :
      IsDevice s'.sbi → Extends s s' (suc height) bp (under height i (λ b. fills)) true
  unfolding InNodes
  Extends-entered d = record {
    device = d;
    sound = IsSound-replaced s s' height bp i w replaced;
    more = n.taken.more;
    frame = λ p j u out. n.elsewhere p j u (inl λ e. out (inl e));
    grown = InNodes-replaced s s' height bp i w replaced;
    kept = λ b h z. elim (ℕ_discrete (b / span height) i) [
      | no other ↦ find_data_block_replaced s s' height bp i w replaced b other h
      | yes e ↦ absurd (z (find_before b e))
    ];
    others = λ b h z. elim (ℕ_discrete (b / span height) i) [
      | no other ↦ find_data_block_replaced s s' height bp i w replaced b other h
      | yes e ↦
          find_after b e ∙ n.blank (ground (arith, z, e)) (b % span height) ∙ sym (find_before b e)
    ];
    found = λ ok b h z q.
        n.filled (ground (arith, z)) (b % span height) (sym (find_after b (ground (arith, z))) ∙ q);
  }

module _ (s : Blocks) (sbi' : SbInfo) (bp i off : ℕ) (taken : Taken s.sbi sbi' off)
    (empty : s.nodes bp i ≡ 0) where
  set_entry_elsewhere :
      (nodes : Nodes) (p j : ℕ) → (p ≢ bp) ⊎ (j ≢ i) → set_entry nodes bp i off p j ≡ nodes p j
  unfolding set_entry
  set_entry_elsewhere nodes p j (inl ne) = ground arith
  set_entry_elsewhere nodes p j (inr ne) = ground arith

  set_entry_at : (nodes : Nodes) → set_entry nodes bp i off bp i ≡ off
  unfolding set_entry
  set_entry_at nodes = ground arith

  pub put_data-IsEntered :
      (count : ℕ)
      → IsEntered s
          (record s { sbi = sbi'; nodes = set_entry s.nodes bp i off; i_blocks = count })
          0
          bp
          i
          off
          true
  unfolding IsSound InNodes find_data_block
  put_data-IsEntered count = record {
    taken = taken;
    empty = empty;
    at_entry = set_entry_at s.nodes;
    elsewhere = λ p j u out. set_entry_elsewhere s.nodes p j out;
    sound_new = tt;
    only_new = λ p m. absurd m;
    filled = λ e b. taken.not_zero;
    blank = λ e b. absurd (ground arith);
  }

  module _ (height : ℕ) (root_used : in_use s (bp / 4096) ≡ true) where
    abbrev pub with_node : Blocks
    with_node = record s { sbi = sbi'; nodes = set_entry (new_node s.nodes off 0) bp i off }

    other_block : (p : ℕ) → in_use s (p / 4096) ≡ true → p ≢ off
    other_block p u e =
        let free : in_use s (p / 4096) ≡ false = rw e taken.was_free in absurd (ground arith)

    node_blank : (j : ℕ) → with_node.nodes off j ≡ 0
    unfolding set_entry new_node
    node_blank j = let ne : off ≢ bp = λ e. other_block bp root_used (sym e) in ground arith

    pub put_node-IsEntered : IsEntered s with_node (suc height) bp i off false
    unfolding IsSound InNodes new_node
    put_node-IsEntered = record {
      taken = taken;
      empty = empty;
      at_entry = set_entry_at _;
      elsewhere = λ p j u out.
          set_entry_elsewhere (new_node s.nodes off 0) p j out
          ∙ (let ne = other_block p u in ground arith);
      sound_new = (
        taken.now_used,
        λ j h z. absurd (z (node_blank j)),
        λ j h z m. absurd (z (node_blank j)),
        λ j k p h h' z z' m m'. absurd (z (node_blank j)),
      );
      only_new = λ p m. only p m;
      filled = λ e b. absurd (ground arith);
      blank =
          λ e b. rw (find_below with_node.nodes height off b, node_blank (b / span height)) refl;
    }
      where
        only : (p : ℕ) → InNodes with_node.nodes (suc height) off p → p ≡ off
        only p (inl e) = e
        only p (inr (j, h, z, m)) = absurd (z (node_blank j))
