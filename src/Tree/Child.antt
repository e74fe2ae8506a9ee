-- ===== src/Tree/Child.antt =====
-- Blocks that are added to the tree under an entry are added to the tree.
use pmfs.Base.{
  ℕ, suc, ◌/◌, ◌%◌, ◌<◌, ◌≡◌, ◌≢◌, refl, sym, ◌∙◌, ◌⊎◌, inl, inr, Bool, false, ◌==◌, arith, subst,
  ℕ_discrete,
}
use native.Mathlib.Nat.{mod-lt}
use pmfs.Tree.{Nodes, span, find_data_block}
use pmfs.Tree.Grow.{span-pos}
use pmfs.Tree.Blocks.{Blocks}
use pmfs.Tree.Own.{InNodes, IsSound, InNodes_used}
use pmfs.Tree.Replace.{
  IsReplaced, find_below, under, IsSound-replaced, InNodes-replaced, find_data_block_replaced,
}
use pmfs.Tree.Extend.{Extends, in_use}

module _ (s s' : Blocks) (height bp i : ℕ) (want : ℕ → Bool) (success : Bool)
    (w : IsSound s.sbi s.nodes (suc height) bp) (lt : i < 512) (ne : s.nodes bp i ≢ 0)
    (x : Extends s s' height (s.nodes bp i) want success) where
  entry : (j : ℕ) → s'.nodes bp j ≡ s.nodes bp j
  unfolding IsSound
  entry j = x.frame bp j w.0 (w.2 i lt ne)

  replaced : IsReplaced s s' height bp i
  unfolding IsSound
  replaced = record {
    more = x.more;
    same_entry = λ j other. entry j;
    other_kept = λ j lt' other ne' p k m.
        x.frame p k (InNodes_used s.sbi s.nodes height _ p (w.1 j lt' ne') m)
          λ m'. other (w.3 j i p lt' lt ne' ne m m');
    sound_entry = λ z. rw (entry i) x.sound;
    new_entry = λ p z m.
        old_or_new p (x.grown p (subst (λ (c : ℕ). InNodes s'.nodes height c p) (entry i) m));
  }
    where
      old_or_new :
          (p : ℕ)
          → InNodes s.nodes height (s.nodes bp i) p ⊎ (in_use s (p / 4096) ≡ false)
          → ((s.nodes bp i ≢ 0) × InNodes s.nodes height (s.nodes bp i) p)
            ⊎ (in_use s (p / 4096) ≡ false)
      old_or_new p (inl old) = inl (ne, old)
      old_or_new p (inr free) = inr free

  find_under :
      (nodes : Nodes) (b : ℕ)
      → nodes bp i ≡ s.nodes bp i
      → b / span height ≡ i
      → find_data_block nodes (suc height) bp b
        ≡ find_data_block nodes height (s.nodes bp i) (b % span height)
  find_under nodes b e here =
      let some_entry : (s.nodes bp i == 0) ≡ false = ground arith in
      rw (find_below nodes height bp b, here, e, some_entry) refl

  -- Blocks that are added to the tree under entry `i` are added to the tree.
  pub Extends-child : Extends s s' (suc height) bp (under height i want) success
  unfolding InNodes IsSound
  Extends-child = record {
    device = x.device;
    sound = IsSound-replaced s s' height bp i w replaced;
    more = x.more;
    frame = λ p j u out. x.frame p j u λ m. out (inr (i, lt, ne, m));
    grown = InNodes-replaced s s' height bp i w replaced;
    kept = λ b h z. elim (ℕ_discrete (b / span height) i) [
      | no other ↦ find_data_block_replaced s s' height bp i w replaced b other h
      | yes e ↦ at_entry b e (
          x.kept (b % span height) (mod-lt b (span-pos height))
            λ q. z (find_under s.nodes b refl e ∙ q))
    ];
    others = λ b h z. elim (ℕ_discrete (b / span height) i) [
      | no other ↦ find_data_block_replaced s s' height bp i w replaced b other h
      | yes e ↦
          at_entry b e
            (x.others (b % span height) (mod-lt b (span-pos height)) (ground (arith, z, e)))
    ];
    found = λ ok b h z q.
        x.found ok (b % span height) (mod-lt b (span-pos height)) (ground (arith, z))
          (sym (find_under s'.nodes b (entry i) (ground (arith, z))) ∙ q);
  }
    where
      at_entry :
          (b : ℕ)
          → b / span height ≡ i
          → find_data_block s'.nodes height (s.nodes bp i) (b % span height)
            ≡ find_data_block s.nodes height (s.nodes bp i) (b % span height)
          → find_data_block s'.nodes (suc height) bp b ≡ find_data_block s.nodes (suc height) bp b
      at_entry b e same =
          find_under s'.nodes b (entry i) e ∙ same ∙ sym (find_under s.nodes b refl e)
