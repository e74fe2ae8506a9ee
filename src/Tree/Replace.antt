-- ===== src/Tree/Replace.antt =====
-- A tree whose node has one entry changed: it stays sound, and lookups elsewhere are as before.
use pmfs.Base.{
  ℕ, suc, ◌/◌, ◌%◌, ◌<◌, ◌≡◌, ◌≢◌, refl, sym, ◌∙◌, ◌⊎◌, inl, inr, Bool, true, false, ◌&&◌, ◌==◌,
  arith, Bool-cases, subst, ℕ_discrete, if◌then◌else◌,
}
use native.Mathlib.Nat.{mod-lt, div-lt_iff_lt-mul}
use pmfs.Tree.{Nodes, span, find_data_block}
use pmfs.Tree.Grow.{span-pos}
use pmfs.Tree.Blocks.{Blocks}
use pmfs.Tree.Own.{
  InNodes, IsSound, InNodes_used, AreKept, InNodes-kept, find_data_block_kept, IsSound-kept,
}
use pmfs.Tree.Extend.{in_use}

-- A lookup goes on under the entry, if there is one.
pub find_below :
    (nodes : Nodes) (height bp b : ℕ)
    → find_data_block nodes (suc height) bp b ≡ (
        if nodes bp (b / span height) == 0
        then 0
        else find_data_block nodes height (nodes bp (b / span height)) (b % span height))
unfolding find_data_block
find_below nodes height bp b = refl

-- the places under entry `i`
abbrev pub under : (height i : ℕ) → (ℕ → Bool) → ℕ → Bool
under height i want b = b / span height == i && want (b % span height)

-- Nothing is both in use and free.
both : {b : Bool} → b ≡ true → ¬ (b ≡ false)
both u f = absurd (ground (arith, u, f))

-- Between `s` and `s'`, what node `bp` has under its entry `i` has changed, and grown by free blocks.
pub record IsReplaced (s s' : Blocks) (height bp i : ℕ) : Type 0 where
  pub more : (x : ℕ) → in_use s x ≡ true → in_use s' x ≡ true
  pub same_entry : (j : ℕ) → j ≢ i → s'.nodes bp j ≡ s.nodes bp j
  pub other_kept :
      (j : ℕ) → j < 512 → j ≢ i → s.nodes bp j ≢ 0 → AreKept s.nodes s'.nodes height (s.nodes bp j)
  pub sound_entry : s'.nodes bp i ≢ 0 → IsSound s'.sbi s'.nodes height (s'.nodes bp i)
  pub new_entry :
      (p : ℕ)
      → s'.nodes bp i ≢ 0
      → InNodes s'.nodes height (s'.nodes bp i) p
      → ((s.nodes bp i ≢ 0) × InNodes s.nodes height (s.nodes bp i) p)
        ⊎ (in_use s (p / 4096) ≡ false)

module _ (s s' : Blocks) (height bp i : ℕ) (w : IsSound s.sbi s.nodes (suc height) bp)
    (r : IsReplaced s s' height bp i) where
  -- a meta-data block under entry `j` afterwards
  below_was :
      (j p : ℕ)
      → j < 512
      → s'.nodes bp j ≢ 0
      → InNodes s'.nodes height (s'.nodes bp j) p
      → ((s.nodes bp j ≢ 0) × InNodes s.nodes height (s.nodes bp j) p)
        ⊎ ((j ≡ i) × (in_use s (p / 4096) ≡ false))
  below_was j p lt ne m = elim (ℕ_discrete j i) [
    | no other ↦
        let e = r.same_entry j other in
        let ne' : s.nodes bp j ≢ 0 = λ z. ne (e ∙ z) in
        inl (
          ne',
          InNodes-kept s.nodes s'.nodes height _ p (r.other_kept j lt other ne')
              (subst (λ (c : ℕ). InNodes s'.nodes height c p) e m),
        )
    | yes e ↦ old_or_new e (
        r.new_entry p (subst (λ (k : ℕ). s'.nodes bp k ≢ 0) e ne)
          (subst (λ (k : ℕ). InNodes s'.nodes height (s'.nodes bp k) p) e m))
  ]
    where
      old_or_new :
          j ≡ i
          → ((s.nodes bp i ≢ 0) × InNodes s.nodes height (s.nodes bp i) p)
            ⊎ (in_use s (p / 4096) ≡ false)
          → ((s.nodes bp j ≢ 0) × InNodes s.nodes height (s.nodes bp j) p)
            ⊎ ((j ≡ i) × (in_use s (p / 4096) ≡ false))
      old_or_new e (inl old) = inl (
          subst (λ (k : ℕ). (s.nodes bp k ≢ 0) × InNodes s.nodes height (s.nodes bp k) p) (sym e)
            old)
      old_or_new e (inr free) = inr (e, free)

  child-IsSound :
      (j : ℕ) → j < 512 → s'.nodes bp j ≢ 0 → IsSound s'.sbi s'.nodes height (s'.nodes bp j)
  unfolding IsSound
  child-IsSound j lt ne = elim (ℕ_discrete j i) [
    | no other ↦
        let e = r.same_entry j other in
        let ne' : s.nodes bp j ≢ 0 = λ z. ne (e ∙ z) in
        subst (λ (c : ℕ). IsSound s'.sbi s'.nodes height c) (sym e)
          (IsSound-kept s.sbi s'.sbi s.nodes s'.nodes height _ r.more (r.other_kept j lt other ne')
            (w.1 j lt ne'))
    | yes e ↦
        subst (λ (k : ℕ). IsSound s'.sbi s'.nodes height (s'.nodes bp k)) (sym e)
          (r.sound_entry (subst (λ (k : ℕ). s'.nodes bp k ≢ 0) e ne))
  ]

  not_root : (j : ℕ) → j < 512 → s'.nodes bp j ≢ 0 → ¬ InNodes s'.nodes height (s'.nodes bp j) bp
  unfolding IsSound
  not_root j lt ne m = elim (below_was j bp lt ne m) [
    | inl old ↦ w.2 j lt old.0 old.1
    | inr new ↦ both w.0 new.1
  ]

  apart :
      (j k p : ℕ)
      → j < 512
      → k < 512
      → s'.nodes bp j ≢ 0
      → s'.nodes bp k ≢ 0
      → InNodes s'.nodes height (s'.nodes bp j) p
      → InNodes s'.nodes height (s'.nodes bp k) p
      → j ≡ k
  unfolding IsSound
  apart j k p lt lt' ne ne' m m' = same (below_was j p lt ne m) (below_was k p lt' ne' m')
    where
      used_there :
          (l : ℕ)
          → l < 512
          → (s.nodes bp l ≢ 0) × InNodes s.nodes height (s.nodes bp l) p
          → in_use s (p / 4096) ≡ true
      used_there l h (z, n) = InNodes_used s.sbi s.nodes height _ p (w.1 l h z) n

      same :
          ((s.nodes bp j ≢ 0) × InNodes s.nodes height (s.nodes bp j) p)
            ⊎ ((j ≡ i) × (in_use s (p / 4096) ≡ false))
          → ((s.nodes bp k ≢ 0) × InNodes s.nodes height (s.nodes bp k) p)
            ⊎ ((k ≡ i) × (in_use s (p / 4096) ≡ false))
          → j ≡ k
      same (inl a) (inl b) = w.3 j k p lt lt' a.0 b.0 a.1 b.1
      same (inl a) (inr b) = absurd (both (used_there j lt a) b.1)
      same (inr a) (inl b) = absurd (both (used_there k lt' b) a.1)
      same (inr a) (inr b) = a.0 ∙ sym b.0

  pub IsSound-replaced : IsSound s'.sbi s'.nodes (suc height) bp
  unfolding IsSound
  IsSound-replaced = (r.more (bp / 4096) w.0, child-IsSound, not_root, apart)

  pub InNodes-replaced :
      (p : ℕ)
      → InNodes s'.nodes (suc height) bp p
      → InNodes s.nodes (suc height) bp p ⊎ (in_use s (p / 4096) ≡ false)
  unfolding InNodes
  InNodes-replaced p (inl e) = inl (inl e)
  InNodes-replaced p (inr (j, h, z, m)) = elim (below_was j p h z m) [
    | inl old ↦ inl (inr (j, h, old.0, old.1))
    | inr new ↦ inr new.1
  ]

  pub find_data_block_replaced :
      (b : ℕ)
      → b / span height ≢ i
      → b < span (suc height)
      → find_data_block s'.nodes (suc height) bp b ≡ find_data_block s.nodes (suc height) bp b
  unfolding span
  find_data_block_replaced b other lt =
      let k : ℕ = b / span height in
      let pos = span-pos height in
      let inside : k < 512 = (div-lt_iff_lt-mul pos).1 lt in
      rw (find_below s'.nodes height bp b, find_below s.nodes height bp b, r.same_entry k other)
        (elim (Bool-cases (s.nodes bp k == 0)) [
          | inl z ↦ rw z refl
          | inr z ↦ rw z (
              find_data_block_kept s.nodes s'.nodes height (s.nodes bp k) (b % span height)
                (r.other_kept k inside other (λ q. ground arith)) (mod-lt b pos))
        ])
