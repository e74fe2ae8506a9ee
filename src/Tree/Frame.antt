-- ===== src/Tree/Frame.antt =====
-- A well-formed tree, and what of it is left alone when a block is taken that is not its own.
use pmfs.Base.{
  ℕ, zero, suc, ◌*◌, ◌/◌, ◌%◌, ◌^◌, ◌≤◌, ◌≡◌, ◌≢◌, refl, sym, subst, ◌∙◌, true, false, arith, ◌==◌,
  Bool-cases, inl, inr,
}
use pmfs.Balloc.{SbInfo}
use pmfs.Balloc.Spec.{used, IsValid}
use pmfs.Tree.{Nodes, Tree, span, find_data_block, new_node}

-- the meta-data blocks under `bp`, `bp` itself included, are in use
unfoldable pub IsOwned : SbInfo → Nodes → (height bp : ℕ) → Type 0
IsOwned sbi nodes zero bp = Unit
IsOwned sbi nodes (suc height) bp =
    (used sbi.block_inuse_head (bp / 4096) ≡ true)
    × ((i : ℕ) → nodes bp i ≢ 0 → IsOwned sbi nodes height (nodes bp i))

-- The allocator is valid, its device has less than 2 ^ 64 bytes and keeps block 0, the meta-data
-- blocks are in use, and a tree without a root has no levels.
pub record IsTree (t : Tree) : Type 0 where
  pub valid : IsValid t.sbi
  pub small : t.sbi.block_end ≤ 2 ^ 52
  pub super_used : used t.sbi.block_inuse_head 0 ≡ true
  pub owned : IsOwned t.sbi t.nodes t.height t.root
  pub no_root : t.root ≡ 0 → t.height ≡ 0

module _ (sbi : SbInfo) (nodes : Nodes) (b child : ℕ)
    (is_free : used sbi.block_inuse_head b ≡ false) where
  -- A block in use is not the free one.
  other_node :
      (bp i : ℕ)
      → used sbi.block_inuse_head (bp / 4096) ≡ true
      → new_node nodes (b * 4096) child bp i ≡ nodes bp i
  unfolding new_node
  other_node bp i u = elim (Bool-cases (bp == b * 4096)) [
    | inl e ↦
        let same : bp / 4096 ≡ b = ground arith in
        let clash : true ≡ false =
          sym (subst (λ (x : ℕ). used sbi.block_inuse_head x ≡ true) same u) ∙ is_free in
        absurd (ground (arith, clash))
    | inr e ↦ rw e refl
  ]

  pub find_data_block-new_node :
      (height bp blocknr : ℕ)
      → IsOwned sbi nodes height bp
      → find_data_block (new_node nodes (b * 4096) child) height bp blocknr
        ≡ find_data_block nodes height bp blocknr
  unfolding find_data_block IsOwned
  find_data_block-new_node zero bp blocknr o = refl
  find_data_block-new_node (suc height) bp blocknr (u, o) =
      let i = blocknr / span height in
      elim (Bool-cases (nodes bp i == 0)) [
        | inl e ↦ rw (other_node bp i u, e) refl
        | inr e ↦
            let ne : nodes bp i ≢ 0 = ground arith in
            rw (other_node bp i u, e)
              (find_data_block-new_node height (nodes bp i) (blocknr % span height) (o i ne))
      ]

  pub IsOwned-new_node :
      (sbi' : SbInfo)
      → ((x : ℕ) → used sbi.block_inuse_head x ≡ true → used sbi'.block_inuse_head x ≡ true)
      → (height bp : ℕ) → IsOwned sbi nodes height bp
      → IsOwned sbi' (new_node nodes (b * 4096) child) height bp
  unfolding IsOwned
  IsOwned-new_node sbi' more zero bp o = tt
  IsOwned-new_node sbi' more (suc height) bp (u, o) = (
    more (bp / 4096) u,
    λ i ne.
        rw (other_node bp i u)
          (IsOwned-new_node sbi' more height (nodes bp i) (o i (λ z. ne (other_node bp i u ∙ z)))),
  )
