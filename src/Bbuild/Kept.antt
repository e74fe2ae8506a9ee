-- ===== src/Bbuild/Kept.antt =====
-- The in-use list is the same after an unmount and a mount.
use pmfs.Base.{
  ℕ, suc, ◌+◌, ◌/◌, ◌%◌, ◌≤◌, ◌<◌, ◌^◌, ◌≡◌, refl, sym, ◌∙◌, inl, inr, false, List, [], ◌∷◌, ◌++◌,
  ◌==◌, if◌then◌else◌, arith, length, subst, ap, Bool-cases, append_assoc, append-nil,
}
use pmfs.Base.Words.{sub64, add64-eq-add}
use pmfs.Balloc.{BlockNode, SbInfo}
use pmfs.Bbuild.Scan.{MountState}
use pmfs.Bbuild.Save.{
  Pages, write_node, num_blocks, save_nodes, save_counters, save_blocknode_mappings, load_nodes,
  init_blockmap_from_inode, load_counters, load_blocknode_mappings,
}

-- The blocks for the nodes `0 .. n - 1` are different.
abbrev pub AreApart : (find : ℕ → ℕ) → (n : ℕ) → Type 0
AreApart find n = (a b : ℕ) → a < num_blocks n → b < num_blocks n → find a ≡ find b → a ≡ b

-- The entries from number `k` on are those of the list.
abbrev Hold : (find : ℕ → ℕ) → Pages → (k : ℕ) → List BlockNode → Type 0
Hold find pages k [] = Unit
Hold find pages k (i ∷ rest) = (pages (find (k / 256)) (k % 256) ≡ i) × Hold find pages (k + 1) rest

-- The block for node `k` is at hand, or is about to be looked up.
abbrev AtHand : (find : ℕ → ℕ) → (k p : ℕ) → Type 0
AtHand find k p = (k % 256 ≡ 0 → ⊥) → p ≡ find (k / 256)

next_index : (k : ℕ) → (if k % 256 + 1 == 256 then 0 else k % 256 + 1) ≡ (k + 1) % 256
next_index k = ground arith

block-AtHand :
    (find : ℕ → ℕ) (k p : ℕ)
    → AtHand find k p
    → (if k % 256 == 0 then find (k / 256) else p) ≡ find (k / 256)
block-AtHand find k p hand = elim (Bool-cases (k % 256 == 0)) [
  | inl e ↦ rw e refl
  | inr e ↦ rw e (hand λ z. ground arith)
]

AtHand-next : (find : ℕ → ℕ) (k : ℕ) → AtHand find (k + 1) (find (k / 256))
AtHand-next find k ne = ap find (omega arith)

save_step :
    (find : ℕ → ℕ) (k p : ℕ) (i : BlockNode) (rest : List BlockNode) (pages : Pages)
    → AtHand find k p
    → save_nodes find (k % 256) k p (i ∷ rest) pages
      ≡ save_nodes find
          ((k + 1) % 256)
          (k + 1)
          (find (k / 256))
          rest
          (write_node pages (find (k / 256)) (k % 256) i)
unfolding save_nodes
save_step find k p i rest pages hand = rw (next_index k, block-AtHand find k p hand) refl

write_node-same : (pages : Pages) (i : BlockNode) (p j : ℕ) → write_node pages p j i p j ≡ i
unfolding write_node
write_node-same pages i p j = ground arith

module _ (find : ℕ → ℕ) (n : ℕ) (some_node : 0 < n) (small : n < 2 ^ 60)
    (apart : AreApart find n) where
  num_blocks-bound : (k : ℕ) → k < n → k / 256 < num_blocks n
  unfolding num_blocks sub64
  num_blocks-bound k lt = omega arith

  write_node-other :
      (pages : Pages) (i : BlockNode) (m k : ℕ)
      → m < k
      → k < n
      → write_node pages (find (k / 256)) (k % 256) i (find (m / 256)) (m % 256)
        ≡ pages (find (m / 256)) (m % 256)
  unfolding write_node
  write_node-other pages i m k lt le = elim (Bool-cases (find (m / 256) == find (k / 256))) [
    | inl e ↦
        let same : m / 256 ≡ k / 256 =
          apart (m / 256) (k / 256) (num_blocks-bound m (omega arith)) (num_blocks-bound k le)
            (ground arith) in
        let other : (m % 256 == k % 256) ≡ false = ground arith in rw (e, other) refl
    | inr e ↦ rw e refl
  ]

  -- Nodes that are already written stay.
  save_nodes-keeps :
      (k p m : ℕ) (l : List BlockNode) (pages : Pages)
      → k + length l ≤ n
      → AtHand find k p
      → m < k
      → save_nodes find (k % 256) k p l pages (find (m / 256)) (m % 256)
        ≡ pages (find (m / 256)) (m % 256)
  unfolding save_nodes
  save_nodes-keeps k p m [] pages le hand lt = refl
  save_nodes-keeps k p m (i ∷ rest) pages le hand lt = rw (save_step find k p i rest pages hand) (
      save_nodes-keeps (k + 1) (find (k / 256)) m rest _ (omega arith) (AtHand-next find k)
        (omega arith)
      ∙ write_node-other pages i m k lt (omega arith))

  save_nodes-Hold :
      (k p : ℕ) (l : List BlockNode) (pages : Pages)
      → k + length l ≤ n
      → AtHand find k p
      → Hold find (save_nodes find (k % 256) k p l pages) k l
  save_nodes-Hold k p [] pages le hand = tt
  save_nodes-Hold k p (i ∷ rest) pages le hand =
      subst (λ (pages : Pages). Hold find pages k (i ∷ rest))
        (sym (save_step find k p i rest pages hand))
        (
          save_nodes-keeps (k + 1) (find (k / 256)) k rest _ (omega arith) (AtHand-next find k)
                (omega arith)
              ∙ write_node-same pages i (find (k / 256)) (k % 256),
          save_nodes-Hold (k + 1) (find (k / 256)) rest _ (omega arith) (AtHand-next find k),
        )

abbrev with_nodes : SbInfo → List BlockNode → ℕ → SbInfo
with_nodes sbi nodes count = record sbi {
  block_inuse_head = nodes;
  num_blocknode_allocated = count;
}

load_step :
    (find : ℕ → ℕ) (pages : Pages) (n i p : ℕ) (sbi : SbInfo) (j : BlockNode)
    → sbi.num_blocknode_allocated + 1 < 2 ^ 64
    → AtHand find i p
    → pages (find (i / 256)) (i % 256) ≡ j
    → load_nodes find pages (suc n) i p sbi
      ≡ load_nodes find pages n
          (i + 1)
          (find (i / 256))
          (with_nodes sbi (sbi.block_inuse_head ++ j ∷ []) (sbi.num_blocknode_allocated + 1))
unfolding load_nodes
load_step find pages n i p sbi j small hand e =
    rw (block-AtHand find i p hand, e, add64-eq-add sbi.num_blocknode_allocated 1 small) refl

-- What is read from number `i` on is the list that is held there.
load_nodes-Hold :
    (find : ℕ → ℕ) (pages : Pages) (l : List BlockNode) (i p : ℕ) (sbi : SbInfo)
    → sbi.num_blocknode_allocated + length l < 2 ^ 64
    → AtHand find i p
    → Hold find pages i l
    → load_nodes find pages (length l) i p sbi
      ≡ with_nodes sbi (sbi.block_inuse_head ++ l) (sbi.num_blocknode_allocated + length l)
unfolding load_nodes
load_nodes-Hold find pages [] i p sbi small hand held =
    let none_more : sbi.num_blocknode_allocated + 0 ≡ sbi.num_blocknode_allocated = omega arith in
    rw (append-nil sbi.block_inuse_head, none_more) refl
load_nodes-Hold find pages (j ∷ rest) i p sbi small hand held =
    let one_more : sbi.num_blocknode_allocated + 1 + length rest
        ≡ sbi.num_blocknode_allocated + suc (length rest) =
      omega arith in
    load_step find pages (length rest) i p sbi j (omega arith) hand held.0
    ∙ load_nodes-Hold find pages rest (i + 1) (find (i / 256)) _ (omega arith) (AtHand-next find i)
        held.1
    ∙ rw (append_assoc sbi.block_inuse_head (j ∷ []) rest, one_more) refl

init_blockmap_from_inode-Hold :
    (find : ℕ → ℕ) (pages : Pages) (l : List BlockNode) (sbi : SbInfo)
    → sbi.num_blocknode_allocated ≡ length l
    → length l < 2 ^ 60
    → sbi.block_inuse_head ≡ []
    → Hold find pages 0 l
    → init_blockmap_from_inode find pages sbi ≡ with_nodes sbi l (length l)
unfolding init_blockmap_from_inode
init_blockmap_from_inode-Hold find pages l sbi counted small empty held =
    let all : 0 + length l ≡ length l = omega arith in
    rw (counted, empty)
      (load_nodes-Hold find pages l 0 0 (with_nodes sbi [] 0) (omega arith) (λ ne. absurd (ne refl))
          held
        ∙ rw all refl)

-- A list of at least one node and less than 2 ^ 60, with its length in the counter, that is saved in
-- different blocks and loaded into a state with an empty list and the same device comes back, as do
-- the counters.
pub load_blocknode_mappings-save_blocknode_mappings :
    (find : ℕ → ℕ) (s : MountState) (pages : Pages) (sbi : SbInfo)
    → 0 < length s.sbi.block_inuse_head
    → length s.sbi.block_inuse_head < 2 ^ 60
    → s.sbi.num_blocknode_allocated ≡ length s.sbi.block_inuse_head
    → AreApart find (length s.sbi.block_inuse_head)
    → sbi.block_inuse_head ≡ []
    → sbi.block_start ≡ s.sbi.block_start
    → sbi.block_end ≡ s.sbi.block_end
    → load_blocknode_mappings find (save_blocknode_mappings find s pages) sbi ≡ s
unfolding load_blocknode_mappings save_blocknode_mappings save_counters load_counters
load_blocknode_mappings-save_blocknode_mappings find s pages sbi some_node small counted apart empty
      start end =
    let l = s.sbi.block_inuse_head in
    let held =
      save_nodes-Hold find (length l) some_node small apart 0 0 l pages (omega arith)
        λ ne. absurd (ne refl) in
    let back =
      init_blockmap_from_inode-Hold find (save_nodes find 0 0 0 l pages) l
        (record sbi {
          num_blocknode_allocated = s.sbi.num_blocknode_allocated;
          num_free_blocks = s.sbi.num_free_blocks;
        })
        counted small empty held in
    rw back (rw (sym counted, start, end) refl)
