-- ===== src/Tree/Entry.antt =====
-- A block that is taken for an entry that has none, and the entry that is set to it.
use pmfs.Base.{
  ℕ, suc, ◌/◌, ◌<◌, ◌≡◌, ◌≢◌, refl, sym, ◌∙◌, inl, inr, Bool, true, false, ◌==◌, arith, Bool-cases,
}
use pmfs.Balloc.{SbInfo, BlockType, get_numblocks, NewBlock, allocated, enospc, type_4k}
use pmfs.Balloc.Alloc.{NewRun, new_block-NewRun, numblocks_bounds}
use pmfs.Tree.{Nodes, span, find_data_block, get_block_off}
use pmfs.Tree.Blocks.{Blocks, put_data, alloc_data, put_node, alloc_node}
use pmfs.Tree.Own.{IsSound}
use pmfs.Tree.Extend.{IsDevice, Extends, ExtendsBy, Extends-nothing, Extends-flag, Extends-wanted}
use pmfs.Tree.Replace.{find_below, under}
use pmfs.Tree.Taken.{NewRun-Taken}
use pmfs.Tree.Entered.{Extends-entered, put_data-IsEntered, put_node-IsEntered}

-- The failure of an allocation that leaves the tree as it is.
Extends-unchanged :
    (s : Blocks) (flag : Bool) (height bp : ℕ) (want : ℕ → Bool)
    → IsDevice s.sbi
    → IsSound s.sbi s.nodes height bp
    → Extends s (record s { eof_blocks = flag }) height bp want false
Extends-unchanged s flag height bp want d w =
    Extends-wanted s _ height bp (λ b. false) want false (λ b lt e. refl)
      (λ ok. absurd (ground (arith, ok))) (Extends-flag s flag height bp false d w)

put_data-ExtendsBy :
    (btype : BlockType) (s : Blocks) (bp i n : ℕ) (r : NewBlock)
    → IsDevice s.sbi
    → IsSound s.sbi s.nodes 1 bp
    → i < 512
    → s.nodes bp i ≡ 0
    → 0 < n
    → ((sbi' : SbInfo) (b : ℕ) → r ≡ allocated sbi' b → NewRun s.sbi sbi' n b)
    → ExtendsBy s 1 bp (under 0 i (λ b. true)) (put_data btype bp i s r)
unfolding put_data
put_data-ExtendsBy btype s bp i n enospc d w lt empty pos run = Extends-unchanged s true 1 bp _ d w
put_data-ExtendsBy btype s bp i n (allocated sbi' b) d w lt empty pos run =
    let taken = NewRun-Taken s.sbi sbi' n b d pos (run sbi' b refl) in
    Extends-entered s _ 0 bp i (get_block_off b) true w lt
      (put_data-IsEntered s sbi' bp i (get_block_off b) taken empty _) taken.device

-- A node of height 1 has the data block of an entry.
find_data :
    (nodes : Nodes) (bp i b : ℕ)
    → nodes bp i ≢ 0
    → b / span 0 ≡ i
    → find_data_block nodes 1 bp b ≢ 0
unfolding find_data_block
find_data nodes bp i b ne here z =
    let some_entry : (nodes bp i == 0) ≡ false = ground arith in
    let found : find_data_block nodes 1 bp b ≡ nodes bp i =
      rw (find_below nodes 0 bp b, here, some_entry) refl in
    ne (sym found ∙ z)

-- A data block at index `i`, unless there is one.
pub alloc_data-ExtendsBy :
    (mem : Bool) (btype : BlockType) (s : Blocks) (bp i : ℕ)
    → IsDevice s.sbi
    → IsSound s.sbi s.nodes 1 bp
    → i < 512
    → ExtendsBy s 1 bp (under 0 i (λ b. true)) (alloc_data mem btype bp i s)
unfolding alloc_data
alloc_data-ExtendsBy mem btype s bp i d w lt = elim (Bool-cases (s.nodes bp i == 0)) [
  | inl e ↦ rw e (
      put_data-ExtendsBy btype s bp i (get_numblocks btype) _ d w lt (ground arith)
        (numblocks_bounds btype).0 λ sbi' b h. new_block-NewRun mem s.sbi btype d.valid h)
  | inr e ↦ rw e (
      Extends-wanted s s 1 bp (λ b. false) (under 0 i (λ b. true)) true (λ b h z. refl)
        (λ ok b h z. inr (find_data s.nodes bp i b (ground arith) (ground (arith, z))))
        (Extends-nothing s 1 bp true d w))
]

put_node-ExtendsBy :
    (s : Blocks) (h bp i : ℕ) (r : NewBlock)
    → IsDevice s.sbi
    → IsSound s.sbi s.nodes (suc (suc h)) bp
    → i < 512
    → s.nodes bp i ≡ 0
    → ((sbi' : SbInfo) (b : ℕ) → r ≡ allocated sbi' b → NewRun s.sbi sbi' 1 b)
    → ExtendsBy s (suc (suc h)) bp (under (suc h) i (λ b. false)) (put_node bp i s r)
      × ((put_node bp i s r).success ≡ true → (put_node bp i s r).blocks.nodes bp i ≢ 0)
unfolding put_node IsSound
put_node-ExtendsBy s h bp i enospc d w lt empty run =
    (Extends-unchanged s s.eof_blocks (suc (suc h)) bp _ d w, λ e. absurd (ground arith))
put_node-ExtendsBy s h bp i (allocated sbi' b) d w lt empty run =
    let off : ℕ = get_block_off b in
    let taken = NewRun-Taken s.sbi sbi' 1 b d (omega arith) (run sbi' b refl) in
    let n = put_node-IsEntered s sbi' bp i off taken empty h w.0 in
    (
      Extends-entered s _ (suc h) bp i off false w lt n taken.device,
      λ ok z. taken.not_zero (sym n.at_entry ∙ z),
    )

-- A meta-data block at index `i`, unless there is one. The tree finds what it found.
pub alloc_node-ExtendsBy :
    (mem : Bool) (s : Blocks) (h bp i : ℕ)
    → IsDevice s.sbi
    → IsSound s.sbi s.nodes (suc (suc h)) bp
    → i < 512
    → ExtendsBy s (suc (suc h)) bp (under (suc h) i (λ b. false)) (alloc_node mem bp i s)
      × ((alloc_node mem bp i s).success ≡ true → (alloc_node mem bp i s).blocks.nodes bp i ≢ 0)
unfolding alloc_node get_numblocks
alloc_node-ExtendsBy mem s h bp i d w lt = elim (Bool-cases (s.nodes bp i == 0)) [
  | inl e ↦ rw e (
      put_node-ExtendsBy s h bp i _ d w lt (ground arith)
        λ sbi' b z. new_block-NewRun mem s.sbi type_4k d.valid z)
  | inr e ↦ rw e (
    Extends-wanted s s (suc (suc h)) bp (λ b. false) (under (suc h) i (λ b. false)) true
        (λ b q z. refl) (λ ok b q z. absurd (ground (arith, z)))
        (Extends-nothing s (suc (suc h)) bp true d w),
    λ ok z. ground arith,
  )
]
